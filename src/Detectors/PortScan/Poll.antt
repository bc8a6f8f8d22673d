-- ===== src/Detectors/PortScan/Poll.antt =====
-- detectors/port_scan_detector.py: `_poll`, on the connections that /proc/net/tcp lists.
use mathlib.Core.List.{◌++◌ as append}
use sentinel_pi.Prelude.{
  ℕ, String, ◌&&◌, not, Option, none, some, List, [], ◌∷◌, string_key, pair_key, eqb, if◌then◌else◌,
}
use sentinel_pi.Prelude.Dict
use sentinel_pi.Prelude.Dict.{Dict}
use sentinel_pi.Models.{Alert, Datetime}
use sentinel_pi.Network.{Address, Subnet}
use sentinel_pi.World.{Trace, Env}
use sentinel_pi.Detectors.{evict_expired_times, evict_idle_deques}
use sentinel_pi.Detectors.PortScan.{
  ScanConfig, PortScan, ProcConnection, scan_window, alert_interval, port_set, is_local,
  record_connection,
}

-- `syn_counts[key].add(port)` on a `defaultdict(set)`
unfoldable pub add_port :
    String × String → ℕ → Dict (String × String) (List ℕ) → Dict (String × String) (List ℕ)
add_port key port counts = elim (Dict.get key counts) [
  | none ↦ Dict.put key (port ∷ []) counts
  | some ports ↦ Dict.put key (port ∷ ports) counts
]

-- What `_poll` evicts before it counts.
unfoldable pub evict_stale : Datetime → PortScan → PortScan
evict_stale now d = record d {
  scan_ports = evict_idle_deques scan_window now d.scan_ports;
  sweep_targets = evict_idle_deques scan_window now d.sweep_targets;
  last_alert = evict_expired_times alert_interval now d.last_alert;
}

module _ (env : Env) (ip_address : String → Option Address) (ip_network : String → Option Subnet)
    (repr : List ℕ → String) where
  -- The loop over the connections.
  unfoldable pub count_syns :
      ScanConfig
      → List ProcConnection
      → Dict (String × String) (List ℕ)
      → Dict (String × String) (List ℕ)
  unfolding add_port
  count_syns config [] counts = counts
  count_syns config (c ∷ cs) counts =
      let counted =
        eqb c.state "SYN_SENT"
        && is_local env ip_address ip_network repr config c.local_ip
        && not (is_local env ip_address ip_network repr config c.remote_ip) in
      count_syns config cs
        (if counted then add_port (c.local_ip, c.remote_ip) c.remote_port counts else counts)

  -- `for port in ports: …`; the order in which Python goes through a set is taken to be ascending.
  unfoldable pub record_ports :
      String → String → List ℕ → Datetime → PortScan → Trace → List Alert × PortScan
  record_ports src dst [] now d t = ([], d)
  record_ports src dst (port ∷ ports) now d t =
      let (alerts, d') = record_connection env ip_address ip_network repr src dst port now d t in
      let (more, d'') = record_ports src dst ports now d' t in (append alerts more, d'')

  unfoldable pub record_pairs :
      Dict (String × String) (List ℕ) → Datetime → PortScan → Trace → List Alert × PortScan
  unfolding record_ports
  record_pairs [] now d t = ([], d)
  record_pairs ((pair, ports) ∷ counts) now d t =
      let (alerts, d') = record_ports pair.0 pair.1 (port_set ports) now d t in
      let (more, d'') = record_pairs counts now d' t in (append alerts more, d'')

  -- `_poll`
  unfoldable pub poll : List ProcConnection → PortScan → Trace → List Alert × PortScan
  unfolding evict_stale count_syns record_pairs
  poll connections d t =
      let now = env.clock t in
      record_pairs (count_syns d.config connections []) now (evict_stale now d) t
