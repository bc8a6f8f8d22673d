-- ===== src/Alerts/Manager/Rules.antt =====
-- The state of `AlertManager`, and its rules on cooldowns, quiet hours and duplicates.
use Prim.Native.String.{◌++◌}
use sentinel_pi.Prelude.{
  ℕ, ◌+◌, min, max, String, Bool, true, false, ◌&&◌, ◌||◌, not, Option, none, some, List, [], ◌∷◌,
  map, length, ltb, leb, ◌==◌, string_key, eqb, if◌then◌else◌,
}
use sentinel_pi.Prelude.Dict
use sentinel_pi.Prelude.Dict.{Dict}
use sentinel_pi.Models.{
  Alert, Datetime, seconds, Severity, info, low, medium, high, critical, AlertCategory, arp_anomaly,
  new_device, port_scan, beacon, connection_anomaly, dns_anomaly, lateral_movement, auth_anomaly,
  traffic_spike, process_anomaly, threat_intel, honeypot, incident, system, categories, Enrichment,
}
use sentinel_pi.Responders.Manager.{Manager}
use sentinel_pi.World.{HealthState}
use sentinel_pi.Alerts.Correlator.{Correlator}
use sentinel_pi.Text.Show.{show}

-- The entries of `MonitoringConfig` on quiet hours.
pub record QuietHours : Type 0 where
  pub enabled : Bool
  pub start_hour : ℕ
  pub end_hour : ℕ

-- The state of `AlertManager`. Notifiers stand by their class's name.
pub record AlertManager : Type 0 where
  pub quiet_hours : QuietHours
  pub notifiers : List String
  pub has_observer : Bool
  pub responders : Option Manager
  pub correlator : Option Correlator
  pub has_correlator_observer : Bool
  pub recent_dedup : Dict String Datetime
  pub total_processed : ℕ
  pub total_suppressed : ℕ
  pub total_fired : ℕ
  pub total_persistence_failed : ℕ
  pub health : HealthState

-- `CATEGORY_COOLDOWNS`
unfoldable pub category_cooldown : AlertCategory → ℕ
category_cooldown arp_anomaly = 300
category_cooldown new_device = 3600
category_cooldown port_scan = 300
category_cooldown beacon = 1800
category_cooldown connection_anomaly = 600
category_cooldown dns_anomaly = 600
category_cooldown lateral_movement = 300
category_cooldown auth_anomaly = 300
category_cooldown traffic_spike = 600
category_cooldown process_anomaly = 1800
category_cooldown threat_intel = 3600
category_cooldown honeypot = 300
category_cooldown incident = 600
category_cooldown system = 300

unfoldable pub largest : List ℕ → ℕ
largest [] = 0
largest (n ∷ ns) = max n (largest ns)

-- `_MAX_COOLDOWN_SECONDS`
unfoldable pub max_cooldown : ℕ
unfolding category_cooldown largest
max_cooldown = largest (map category_cooldown categories)

-- `_DEDUP_PRUNE_THRESHOLD`
abbrev pub prune_threshold : ℕ
prune_threshold = 2048

-- `severity in (Severity.HIGH, Severity.CRITICAL)`
unfoldable pub is_urgent : Severity → Bool
is_urgent high = true
is_urgent critical = true
is_urgent _ = false

-- The cooldown of an alert: its category's, and at most two minutes for a critical one.
unfoldable pub alert_cooldown : Severity → AlertCategory → ℕ
alert_cooldown critical category = min (category_cooldown category) 120
alert_cooldown _ category = category_cooldown category

-- `_is_quiet_hours` at an hour of the day
unfoldable pub is_quiet_hours : QuietHours → ℕ → Bool
is_quiet_hours q hour =
    if q.enabled
    then (if leb q.start_hour q.end_hour
        then leb q.start_hour hour && ltb hour q.end_hour
        else leb q.start_hour hour || ltb hour q.end_hour)
    else false

-- The fast path of `_is_duplicate`: the key was seen after `cutoff`.
unfoldable pub seen_recently : String → Datetime → ℕ → Dict String Datetime → Bool
seen_recently key timestamp cooldown d = elim (Dict.get key d) [
  | none ↦ false
  | some last ↦ ltb timestamp (last + seconds cooldown)
]

-- `_prune_dedup`
unfoldable pub prune_dedup : Datetime → Dict String Datetime → Dict String Datetime
prune_dedup now d =
    if leb (length d) prune_threshold
    then d
    else Dict.filter_values (λ ts. not (ltb (ts + seconds max_cooldown) now)) d

-- `_suspicion_delta`, in hundredths
unfoldable pub suspicion_delta : Severity → ℕ
suspicion_delta info = 5
suspicion_delta low = 10
suspicion_delta medium = 20
suspicion_delta high = 40
suspicion_delta critical = 80

-- The suffix that `_enrich_alert` puts on the description, from the country and the network.
unfoldable pub enrichment_suffix : Enrichment → String
enrichment_suffix e =
    let place = if eqb e.country "" then "" else e.country_name in
    let network : String = elim e.asn [
      | none ↦ ""
      | some n ↦ "AS" ++ show n ++ (if eqb e.asn_org "" then "" else " " ++ e.asn_org)
    ] in
    " [" ++ place ++ (if eqb place "" || eqb network "" then "" else ", ") ++ network ++ "]"

-- `not asn`
unfoldable pub no_asn : Option ℕ → Bool
no_asn none = true
no_asn (some n) = n == 0

-- The reservation is taken back, if it still is this alert's.
unfoldable pub release : Alert → Dict String Datetime → Dict String Datetime
release alert d = elim (Dict.get alert.dedup_key d) [
  | none ↦ d
  | some last ↦ if last == alert.timestamp then Dict.remove alert.dedup_key d else d
]
