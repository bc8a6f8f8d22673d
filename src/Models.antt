-- ===== src/Models.antt =====
-- models.py: severities, categories, statuses and alerts. The enumerations are read from and
-- written as their `value`s. Of `Alert.extra` the entries stand that the modelled code reads or
-- writes; `confidence`, its rationale and `recommended_action`, which no modelled code reads, are
-- left out.
pub mod Order
use mathlib.Core.List.{lookup}
use Prim.Native.String.{◌++◌}
use sentinel_pi.Prelude.{
  ℕ, ◌*◌, String, Bool, true, false, Option, none, some, List, [], ◌∷◌, ltb, String-discrete, ite,
}

-- Microseconds since 0001-01-01T00:00Z, the resolution and the origin of `datetime`.
abbrev pub Datetime : Type 0
Datetime = ℕ

-- `timedelta(seconds=n)`
abbrev pub seconds : ℕ → ℕ
seconds n = n * 1000000

pub data Severity : Type 0 where
  info low medium high critical : Severity

-- `order.index(self)`
unfoldable pub rank : Severity → ℕ
rank info = 0
rank low = 1
rank medium = 2
rank high = 3
rank critical = 4

-- `Severity.__lt__`
unfoldable pub severity_lt : Severity → Severity → Bool
unfolding rank
severity_lt a b = ltb (rank a) (rank b)

unfoldable pub severity_value : Severity → String
severity_value info = "info"
severity_value low = "low"
severity_value medium = "medium"
severity_value high = "high"
severity_value critical = "critical"

-- `Severity(text)`; `none` stands for the `ValueError`.
unfoldable pub parse_severity : String → Option Severity
unfolding String-discrete
parse_severity s = ite (String-discrete s "info") (some info) (
    ite (String-discrete s "low") (some low) (
      ite (String-discrete s "medium") (some medium) (
        ite (String-discrete s "high") (some high)
          (ite (String-discrete s "critical") (some critical) none))))

pub data AlertCategory : Type 0 where
  arp_anomaly new_device port_scan beacon connection_anomaly dns_anomaly : AlertCategory
  lateral_movement auth_anomaly traffic_spike process_anomaly threat_intel : AlertCategory
  honeypot incident system : AlertCategory

unfoldable pub Category-discrete : Discrete AlertCategory
Category-discrete = hlevel

unfoldable pub category_value : AlertCategory → String
category_value arp_anomaly = "arp_anomaly"
category_value new_device = "new_device"
category_value port_scan = "port_scan"
category_value beacon = "beacon"
category_value connection_anomaly = "connection_anomaly"
category_value dns_anomaly = "dns_anomaly"
category_value lateral_movement = "lateral_movement"
category_value auth_anomaly = "auth_anomaly"
category_value traffic_spike = "traffic_spike"
category_value process_anomaly = "process_anomaly"
category_value threat_intel = "threat_intel"
category_value honeypot = "honeypot"
category_value incident = "incident"
category_value system = "system"

abbrev pub categories : List AlertCategory
categories =
    arp_anomaly ∷ new_device ∷ port_scan ∷ beacon ∷ connection_anomaly ∷ dns_anomaly
    ∷ lateral_movement ∷ auth_anomaly ∷ traffic_spike ∷ process_anomaly ∷ threat_intel ∷ honeypot
    ∷ incident ∷ system ∷ []

find_category : String → List AlertCategory → Option AlertCategory
unfolding category_value String-discrete
find_category s [] = none
find_category s (c ∷ cs) = ite (String-discrete s (category_value c)) (some c) (find_category s cs)

-- `AlertCategory(text)`
unfoldable pub parse_category : String → Option AlertCategory
unfolding find_category
parse_category s = find_category s categories

pub data AlertStatus : Type 0 where
  new acknowledged muted resolved : AlertStatus

-- `extra["enrichment"]`
pub record Enrichment : Type 0 where
  pub ip : String
  pub country : String
  pub country_name : String
  pub asn : Option ℕ
  pub asn_org : String

pub record Extra : Type 0 where
  pub enrichment : Option Enrichment
  pub sensor : Option String
  pub src_ip : String
  pub is_gateway : Bool

pub record Alert : Type 0 where
  pub alert_id : String
  pub timestamp : Datetime
  pub severity : Severity
  pub category : AlertCategory
  pub affected_host : String
  pub affected_mac : String
  pub related_host : String
  pub title : String
  pub description : String
  pub dedup_key : String
  pub status : AlertStatus
  pub extra : Extra

-- `Alert.__post_init__`
unfoldable pub post_init : Alert → Alert
unfolding category_value String-discrete
post_init a =
    ite (String-discrete a.dedup_key "")
      (record a {
        dedup_key = category_value a.category ++ ":" ++ a.affected_host ++ ":" ++ a.title;
      })
      a

abbrev pub no_extra : Extra
no_extra = record { enrichment = none; sensor = none; src_ip = ""; is_gateway = false }
