-- ===== src/Detectors/PortScan.antt =====
-- detectors/port_scan_detector.py: many ports of one host, or many hosts, in a minute. A list of
-- numbers prints by `repr`, which is Python's and a parameter.
pub mod State
pub mod Poll
pub mod Eviction
pub mod Ports
pub mod Alarms
use Prim.Native.String.{◌++◌}
use mathlib.Core.List.{◌++◌ as append}
use sentinel_pi.Prelude.{
  ℕ, zero, suc, ◌+◌, ◌*◌, String, Bool, true, false, ◌&&◌, ◌||◌, not, Option, none, some, List, [],
  ◌∷◌, map, length, push_right, keep, ltb, leb, string_key, pair_key, nat_key, Key, eqb, elem,
  if◌then◌else◌,
}
use sentinel_pi.Prelude.Dict
use sentinel_pi.Prelude.Dict.{Dict}
use sentinel_pi.Models.{
  Alert, Datetime, seconds, Severity, low, medium, high, port_scan, new, no_extra,
}
use sentinel_pi.Network.{Address, Subnet, ip_in_any_subnet}
use sentinel_pi.Capture.{CapturedConnection}
use sentinel_pi.Text.{contains}
use sentinel_pi.World.{Trace, Env}
use sentinel_pi.Text.Show.{show, sorted_set}
use sentinel_pi.Detectors.{evict_expired_times, evict_idle_deques}
use sentinel_pi.Detectors.Adaptive.{Adaptive, unit, effective, record_trip}
pub use State.*
unfoldable pub use State.{
  insert_port, port_set, first_n, recent_entries, on_cooldown, entries_of, append_entry,
  scan_severity,
}

module _ (env : Env) (ip_address : String → Option Address) (ip_network : String → Option Subnet)
    (repr : List ℕ → String) where
  unfoldable pub is_local : ScanConfig → String → Bool
  is_local config ip = ip_in_any_subnet ip_address ip_network ip config.subnets

  unfoldable pub scan_alert : ScanConfig → String → String → List ℕ → String → Trace → Alert
  scan_alert config src dst ports dedup_key t =
      let n = length ports in
      record {
        alert_id = env.uuid t;
        timestamp = env.clock t;
        severity = scan_severity n;
        category = port_scan;
        affected_host = dst;
        affected_mac = "";
        related_host = src;
        title = "Port scan: " ++ src ++ " → " ++ dst ++ " (" ++ show n ++ " ports/min)";
        description =
            (if is_local config src then "Internal" else "External")
            ++ " host "
            ++ src
            ++ " probed "
            ++ show n
            ++ " unique ports on "
            ++ (if is_local config dst then "internal" else "external")
            ++ " host "
            ++ dst
            ++ " within "
            ++ show scan_window
            ++ "s. Sample ports: "
            ++ repr (first_n 10 ports)
            ++ (if ltb 10 n then "..." else "")
            ++ ". This is consistent with automated port scanning (nmap, masscan, etc.).";
        dedup_key = dedup_key;
        status = new;
        extra = no_extra;
      }

  -- `_check_port_scan`
  unfoldable pub check_port_scan :
      String → String → Datetime → PortScan → Trace → Option Alert × PortScan
  unfolding scan_alert
  check_port_scan src dst now d t =
      let dedup_key = "port_scan:" ++ src ++ ":" ++ dst in
      let ports = port_set (recent_entries now (entries_of (src, dst) d.scan_ports)) in
      let (threshold, adaptive) =
        effective "port_scan" src d.config.port_scan_ports_per_minute now d.adaptive in
      if on_cooldown dedup_key now d.last_alert
      then (none, d)
      else if ltb (length ports * unit) threshold
      then (none, record d { adaptive = adaptive })
      else (
        some (scan_alert d.config src dst ports dedup_key t),
        record d {
          last_alert = Dict.put dedup_key now d.last_alert;
          adaptive = record_trip "port_scan" src now adaptive;
        },
      )

  unfoldable pub sweep_alert : String → ℕ → String → Trace → Alert
  sweep_alert src n dedup_key t = record {
    alert_id = env.uuid t;
    timestamp = env.clock t;
    severity = medium;
    category = port_scan;
    affected_host = "LAN";
    affected_mac = "";
    related_host = src;
    title =
        "Host sweep: "
        ++ src
        ++ " contacted "
        ++ show n
        ++ " local hosts in "
        ++ show scan_window
        ++ "s";
    description =
        src
        ++ " made connection attempts to "
        ++ show n
        ++ " different hosts on your local network "
        ++ "within "
        ++ show scan_window
        ++ "s. This is consistent with network reconnaissance or "
        ++ "a spreading worm.";
    dedup_key = dedup_key;
    status = new;
    extra = record no_extra { src_ip = src };
  }

  -- `_check_host_sweep`
  unfoldable pub check_host_sweep : String → Datetime → PortScan → Trace → Option Alert × PortScan
  unfolding sweep_alert
  check_host_sweep src now d t =
      let dedup_key = "host_sweep:" ++ src in
      let hosts = sorted_set (recent_entries now (entries_of src d.sweep_targets)) in
      let local_hosts = keep (is_local d.config) hosts in
      let (threshold, adaptive) = effective "host_sweep" src 15 now d.adaptive in
      if on_cooldown dedup_key now d.last_alert
      then (none, d)
      else if ltb (length local_hosts * unit) threshold
      then (none, record d { adaptive = adaptive })
      else (
        some (sweep_alert src (length local_hosts) dedup_key t),
        record d {
          last_alert = Dict.put dedup_key now d.last_alert;
          adaptive = record_trip "host_sweep" src now adaptive;
        },
      )

  -- `_record_connection`
  unfoldable pub record_connection :
      String → String → ℕ → Datetime → PortScan → Trace → List Alert × PortScan
  unfolding check_port_scan check_host_sweep append_entry
  record_connection src dst port now d t =
      let recorded = record d {
        scan_ports = append_entry (src, dst) (now, port) d.scan_ports;
        sweep_targets = append_entry src (now, dst) d.sweep_targets;
      } in
      let (scan, d') = check_port_scan src dst now recorded t in
      let (sweep, d'') = check_host_sweep src now d' t in
      if elem src d.config.whitelist_ips || elem port d.config.whitelist_ports
      then ([], d)
      else (append (to_alerts scan) (to_alerts sweep), d'')

  -- `_process_event`, for a connection that was captured
  unfoldable pub process_event : CapturedConnection → PortScan → Trace → List Alert × PortScan
  unfolding record_connection
  process_event c d t =
      if eqb c.protocol "tcp" && contains "S" c.flags && not (contains "A" c.flags)
      then record_connection c.src_ip c.dst_ip c.dst_port c.timestamp d t
      else ([], d)
