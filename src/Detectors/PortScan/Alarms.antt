-- ===== src/Detectors/PortScan/Alarms.antt =====
-- What a port scan alert means, and that it keeps the next one back.
use Prim.Native.String.{◌++◌}
use sentinel_pi.Prelude.{
  ℕ, ◌+◌, ◌≤◌, String, ◌≡◌, Bool, true, Option, none, some, List, length, string_key, pair_key,
  nat_key, elem, IsDistinct, ltb, leb, if◌then◌else◌,
}
use sentinel_pi.Prelude.Dict
use sentinel_pi.Prelude.Dict.{Dict}
use sentinel_pi.Models.{Alert, Datetime, seconds, Severity, low, medium, high}
use sentinel_pi.Detectors.Adaptive.{Adaptive}
use sentinel_pi.Detectors.PortScan.{PortScan}
use sentinel_pi.Detectors.PortScan.Ports.{probed}

-- The key of the alerts on a pair.
abbrev pub scan_key : String → String → String
scan_key src dst = "port_scan:" ++ src ++ ":" ++ dst

-- No alert on the key is less than 300 seconds old.
abbrev pub is_rested : String → Datetime → Dict String Datetime → Bool
is_rested key now last_alert = elim (Dict.get key last_alert) [
  | none ↦ true
  | some last ↦ leb (last + seconds 300) now
]

-- The severity of a scan: from 50 ports on it is medium, from 100 on high.
abbrev pub severity_for : ℕ → Severity
severity_for n = if ltb n 50 then low else if ltb n 100 then medium else high

-- Distinct ports, all those that were probed, make a scan of this severity.
pub record IsScan (src dst : String) (now : Datetime) (d : PortScan) (severity : Severity)
    : Type 0 where
  pub ports : List ℕ
  pub distinct : IsDistinct ports
  pub exactly : (p : ℕ) → elem p ports ≡ probed src dst now d p
  pub enough : d.config.port_scan_ports_per_minute ≤ length ports
  pub graded : severity ≡ severity_for (length ports)

-- What an outcome that is an alert means.
abbrev IsAlarm : String → String → Datetime → PortScan → Alert → Option Alert × PortScan → Type 0
IsAlarm src dst now d alert out =
    out.0 ≡ some alert
    → (is_rested (scan_key src dst) now d.last_alert ≡ true)
      × (Dict.get (scan_key src dst) out.1.last_alert ≡ some now)
      × IsScan src dst now d alert.severity
