-- ===== src/Tests/Detectors.antt =====
-- The port scan detector at work: three ports in a minute are a scan.
use sentinel_pi.Prelude.{
  ℕ, ◌≤◌, String, ◌≡◌, refl, true, Option, none, List, [], ◌∷◌, string_key, pair_key,
  String-discrete, arith, Pair-discrete,
}
use sentinel_pi.Prelude.Dict
use sentinel_pi.Prelude.Dict.{IsUnique}
use sentinel_pi.Models.{Alert, Datetime}
use sentinel_pi.Network.{Subnet}
use sentinel_pi.Detectors.{evict_idle_deques}
use sentinel_pi.Detectors.Adaptive.{Adaptive, unit, multiplier, multiplier-bounds}
use sentinel_pi.Detectors.PortScan.{PortScan, recent_entries, entries_of, scan_alert}
use sentinel_pi.Detectors.PortScan.Eviction.{IsOrdered, recent_entries-evict_idle_deques}
use sentinel_pi.Tests.Response.{env, ip_address}

abbrev adaptive : Adaptive
adaptive = record {
  enabled = true;
  trips_before_backoff = 5;
  window_seconds = 3600;
  step = 500;
  max_multiplier = 4000;
  trips = [];
}

multiplier-bounds_example :
    (unit ≤ (multiplier "port_scan" "192.168.1.5" 1000 adaptive).0)
    × ((multiplier "port_scan" "192.168.1.5" 1000 adaptive).0 ≤ 4000)
multiplier-bounds_example = multiplier-bounds "port_scan" "192.168.1.5" 1000 adaptive (omega arith)

abbrev probes : List (Datetime × ℕ)
probes = (800, 22) ∷ (900, 23) ∷ (1000, 80) ∷ []

abbrev pairs : List ((String × String) × List (Datetime × ℕ))
pairs = (("192.168.1.5", "192.168.1.9"), probes) ∷ []

pairs-IsUnique : IsUnique pairs
unfolding Dict.get Pair-discrete
pairs-IsUnique = (refl, tt)

probes-IsOrdered : IsOrdered (entries_of ("192.168.1.5", "192.168.1.9") pairs)
unfolding entries_of Dict.get Pair-discrete String-discrete
probes-IsOrdered = (omega arith, (omega arith, tt))

recent_entries-evict_idle_deques_example :
    recent_entries 2000
      (entries_of ("192.168.1.5", "192.168.1.9") (evict_idle_deques 60 1000 pairs))
    ≡ recent_entries 2000 (entries_of ("192.168.1.5", "192.168.1.9") pairs)
recent_entries-evict_idle_deques_example =
    recent_entries-evict_idle_deques ("192.168.1.5", "192.168.1.9") 1000 2000 pairs pairs-IsUnique
      probes-IsOrdered (omega arith)

abbrev alert_times : List (String × Datetime)
alert_times = ("port_scan:192.168.1.5:192.168.1.9", 500) ∷ []

times-IsUnique : IsUnique alert_times
unfolding Dict.get
times-IsUnique = (refl, tt)

abbrev no_network : String → Option Subnet
no_network s = none

abbrev repr : List ℕ → String
repr ports = "[...]"

abbrev detector : PortScan
detector = record {
  config = record {
    whitelist_ips = [];
    whitelist_ports = [];
    subnets = [];
    port_scan_ports_per_minute = 3;
  };
  scan_ports = pairs;
  sweep_targets = [];
  last_alert = [];
  adaptive = adaptive;
}

abbrev reported : Alert
reported =
    scan_alert env ip_address no_network repr detector.config "192.168.1.5" "192.168.1.9"
      (22 ∷ 23 ∷ 80 ∷ []) "port_scan:192.168.1.5:192.168.1.9" []
