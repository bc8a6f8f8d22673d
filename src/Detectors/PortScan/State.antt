-- ===== src/Detectors/PortScan/State.antt =====
-- The state of `PortScanDetector`, and what it reads of it.
use sentinel_pi.Prelude.{
  ℕ, zero, suc, ◌+◌, String, Bool, false, Option, none, some, List, [], ◌∷◌, map, push_right, keep,
  ltb, leb, string_key, pair_key, nat_key, Key, eqb, if◌then◌else◌,
}
use sentinel_pi.Prelude.Dict
use sentinel_pi.Prelude.Dict.{Dict}
use sentinel_pi.Models.{Alert, Datetime, seconds, Severity, low, medium, high}
use sentinel_pi.Detectors.Adaptive.{Adaptive}

-- The entries of the configuration that the detector reads.
pub record ScanConfig : Type 0 where
  pub whitelist_ips : List String
  pub whitelist_ports : List ℕ
  pub subnets : List String
  pub port_scan_ports_per_minute : ℕ

-- The state of `PortScanDetector`.
pub record PortScan : Type 0 where
  pub config : ScanConfig
  pub scan_ports : Dict (String × String) (List (Datetime × ℕ))
  pub sweep_targets : Dict String (List (Datetime × String))
  pub last_alert : Dict String Datetime
  pub adaptive : Adaptive

-- The fields of `ProcConnection` that are read.
pub record ProcConnection : Type 0 where
  pub local_ip : String
  pub remote_ip : String
  pub remote_port : ℕ
  pub state : String

-- `WINDOW_SECONDS`, `deque(maxlen=500)`, and the seconds between two alerts on a key
abbrev pub scan_window : ℕ
scan_window = 60

abbrev pub max_entries : ℕ
max_entries = 500

abbrev pub alert_interval : ℕ
alert_interval = 300

unfoldable pub insert_port : ℕ → List ℕ → List ℕ
insert_port p [] = p ∷ []
insert_port p (q ∷ qs) =
    let rest = insert_port p qs in
    if eqb p q then q ∷ qs else if ltb p q then p ∷ q ∷ qs else q ∷ rest

-- `sorted(set(ports))`
unfoldable pub port_set : List ℕ → List ℕ
unfolding insert_port
port_set [] = []
port_set (p ∷ ps) = insert_port p (port_set ps)

-- `list[:n]`
unfoldable pub first_n : ℕ → List ℕ → List ℕ
first_n zero xs = []
first_n (suc n) [] = []
first_n (suc n) (x ∷ xs) = x ∷ first_n n xs

-- The entries with `t > cutoff`, where `cutoff = now - timedelta(seconds=WINDOW_SECONDS)`.
unfoldable pub recent_entries : {A : Type 0} → Datetime → List (Datetime × A) → List A
recent_entries now entries =
    map (λ entry. entry.1) (keep (λ entry. ltb now (entry.0 + seconds scan_window)) entries)

-- `_is_on_cooldown`
unfoldable pub on_cooldown : String → Datetime → Dict String Datetime → Bool
on_cooldown key now last_alert = elim (Dict.get key last_alert) [
  | none ↦ false
  | some last ↦ ltb now (last + seconds alert_interval)
]

-- `self._scan_ports[key]` on a `defaultdict`, and an append to it
unfoldable pub entries_of :
    {K A : Type 0} ⦃key : Key K⦄ → K → Dict K (List (Datetime × A)) → List (Datetime × A)
entries_of k d = elim (Dict.get k d) [ none ↦ [] | some es ↦ es ]

unfoldable pub append_entry :
    {K A : Type 0} ⦃key : Key K⦄
    → K
    → Datetime × A
    → Dict K (List (Datetime × A))
    → Dict K (List (Datetime × A))
unfolding entries_of
append_entry k e d = Dict.put k (push_right max_entries (entries_of k d) e) d

-- The severity by the number of ports.
unfoldable pub scan_severity : ℕ → Severity
scan_severity n = if leb 100 n then high else if leb 50 n then medium else low

-- `alerts.append(alert)`, if there is one
abbrev pub to_alerts : Option Alert → List Alert
to_alerts none = []
to_alerts (some alert) = alert ∷ []
