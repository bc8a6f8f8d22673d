-- ===== src/Detectors/Lateral.antt =====
-- detectors/lateral_movement_detector.py: admin protocols between hosts of the local network. What
-- `BaselineEngine` answers is input, given afresh for each connection. The order in which Python goes
-- through a set of names is Python's, and printing it is the parameter `join_set`.
pub mod State
pub mod Seen
use Prim.Native.String.{◌++◌}
use mathlib.Core.List.{◌++◌ as append}
use sentinel_pi.Prelude.{
  ℕ, zero, suc, ◌+◌, ◌*◌, String, Bool, true, false, ◌&&◌, ◌||◌, not, Option, none, some, List, [],
  ◌∷◌, map, length, keep, ltb, string_key, triple_key, nat_key, eqb, elem, if◌then◌else◌,
}
use sentinel_pi.Prelude.Dict
use sentinel_pi.Prelude.Dict.{Dict}
use sentinel_pi.Models.{
  Alert, Datetime, seconds, Severity, medium, high, lateral_movement, new, no_extra,
}
use sentinel_pi.Network.{Address, Subnet, ip_in_any_subnet}
use sentinel_pi.Capture.{CapturedConnection}
use sentinel_pi.World.{Trace, Env}
use sentinel_pi.Text.Show.{show, sorted_set}
use sentinel_pi.Detectors.{evict_expired_times, evict_idle_deques}
use sentinel_pi.Detectors.Adaptive.{Adaptive, unit, effective, record_trip}
use sentinel_pi.Detectors.PortScan.{
  ProcConnection, recent_entries, entries_of, append_entry, to_alerts,
}
pub use State.*
unfoldable pub use State.{
  is_admin, protocol_name, is_on_cooldown, add_pair, admin_entries, admin_targets,
}

module _ (env : Env) (ip_address : String → Option Address) (ip_network : String → Option Subnet)
    (join_set : List String → String) where
  unfoldable pub fanout_alert : String → ℕ → List String → String → Trace → Alert
  fanout_alert src n names dedup_key t = record {
    alert_id = env.uuid t;
    timestamp = env.clock t;
    severity = high;
    category = lateral_movement;
    affected_host = src;
    affected_mac = "";
    related_host = "";
    title = "Possible lateral movement: " ++ src ++ " → " ++ show n ++ " hosts via admin protocols";
    description =
        src
        ++ " made admin-protocol connections ("
        ++ join_set names
        ++ ") to "
        ++ show n
        ++ " different internal hosts within 60 seconds. "
        ++ "This pattern is consistent with lateral movement by an attacker who has compromised "
        ++ "this host and is attempting to spread or collect credentials.";
    dedup_key = dedup_key;
    status = new;
    extra = no_extra;
  }

  -- `_check_admin_fanout`
  unfoldable pub check_admin_fanout : String → Datetime → Lateral → Trace → Option Alert × Lateral
  unfolding fanout_alert admin_targets
  check_admin_fanout src now d t =
      let dedup_key = "lateral_fanout:" ++ src in
      let targets = admin_targets src now d in
      let names = sorted_set (map (λ entry. protocol_name entry.1) (admin_entries src now d)) in
      let (threshold, adaptive) =
        effective "lateral_fanout" src d.config.lateral_movement_dest_threshold now d.adaptive in
      if is_on_cooldown dedup_key now 300 d.last_alert
      then (none, d)
      else if ltb (length targets * unit) threshold
      then (none, record d { adaptive = adaptive })
      else (
        some (fanout_alert src (length targets) names dedup_key t),
        record d {
          last_alert = Dict.put dedup_key now d.last_alert;
          adaptive = record_trip "lateral_fanout" src now adaptive;
        },
      )

  unfoldable pub new_admin_alert : String → String → ℕ → String → Trace → Alert
  new_admin_alert src dst port dedup_key t =
      let name = protocol_name port in
      record {
        alert_id = env.uuid t;
        timestamp = env.clock t;
        severity = medium;
        category = lateral_movement;
        affected_host = dst;
        affected_mac = "";
        related_host = src;
        title = "New " ++ name ++ " connection: " ++ src ++ " → " ++ dst;
        description =
            src
            ++ " established a "
            ++ name
            ++ " (port "
            ++ show port
            ++ ") connection to "
            ++ "internal host "
            ++ dst
            ++ " — this combination has not been seen before. "
            ++ "New admin connections between internal hosts can indicate lateral movement.";
        dedup_key = dedup_key;
        status = new;
        extra = no_extra;
      }

  -- `_check_new_admin_connection`
  unfoldable pub check_new_admin_connection :
      String → String → ℕ → Datetime → Baseline → Lateral → Trace → Option Alert × Lateral
  unfolding new_admin_alert add_pair
  check_new_admin_connection src dst port now baseline d t =
      let key : String × String × ℕ = (src, dst, port) in
      let added : Lateral = add_pair key d in
      let dedup_key = "new_admin:" ++ src ++ ":" ++ dst ++ ":" ++ show port in
      if baseline.is_learning
      then (none, added)
      else if elem key d.known_admin_pairs
      then (none, d)
      else if baseline.is_known_destination src dst port "tcp"
      then (none, added)
      else if is_on_cooldown dedup_key now 86400 d.last_alert
      then (none, added)
      else (
        some (new_admin_alert src dst port dedup_key t),
        record added { last_alert = Dict.put dedup_key now d.last_alert },
      )

  -- `_record_internal_connection`
  unfoldable pub record_internal_connection :
      String → String → ℕ → Datetime → Baseline → Lateral → Trace → List Alert × Lateral
  unfolding check_admin_fanout check_new_admin_connection
  record_internal_connection src dst port now baseline d t =
      let recorded = record d {
        internal_conns = append_entry src (now, (dst, port)) d.internal_conns;
      } in
      let (fanout, d') = check_admin_fanout src now recorded t in
      let (new_admin, d'') = check_new_admin_connection src dst port now baseline d' t in
      if elem src d.config.whitelist_ips || elem dst d.config.whitelist_ips
      then ([], d)
      else if is_admin port
      then (append (to_alerts fanout) (to_alerts new_admin), d'')
      else (to_alerts fanout, d')

  -- `_is_local_ip`
  unfoldable pub is_internal : LateralConfig → String → Bool
  is_internal config ip = ip_in_any_subnet ip_address ip_network ip config.subnets

  -- `_process_event`, for a connection that was captured
  unfoldable pub process_captured :
      CapturedConnection → Baseline → Lateral → Trace → List Alert × Lateral
  unfolding record_internal_connection is_internal
  process_captured c baseline d t =
      if not (is_internal d.config c.src_ip) || not (is_internal d.config c.dst_ip)
      then ([], d)
      else record_internal_connection c.src_ip c.dst_ip c.dst_port c.timestamp baseline d t

  -- A connection that `_poll` does not skip.
  unfoldable pub is_followed : LateralConfig → ProcConnection → Bool
  is_followed config c =
      (eqb c.state "ESTABLISHED" || eqb c.state "SYN_SENT")
      && is_internal config c.local_ip
      && is_internal config c.remote_ip
      && not (eqb c.local_ip c.remote_ip)

  -- The loop of `_poll`, with what the baseline answers when a connection is reached.
  unfoldable pub record_all :
      List (ProcConnection × Baseline) → Datetime → Lateral → Trace → List Alert × Lateral
  unfolding is_followed
  record_all [] now d t = ([], d)
  record_all ((c, baseline) ∷ cs) now d t =
      let (alerts, followed) =
        record_internal_connection c.local_ip c.remote_ip c.remote_port now baseline d t in
      let d' = if is_followed d.config c then followed else d in
      let (more, d'') = record_all cs now d' t in
      (if is_followed d.config c then append alerts more else more, d'')

  -- `_poll`
  unfoldable pub poll_connections :
      List (ProcConnection × Baseline) → Lateral → Trace → List Alert × Lateral
  unfolding record_all
  poll_connections connections d t =
      let now = env.clock t in
      let evicted = record d {
        internal_conns = evict_idle_deques 60 now d.internal_conns;
        last_alert = evict_expired_times 86400 now d.last_alert;
      } in
      let (alerts, d') = record_all connections now evicted t in
      (alerts, record d' { admin_pairs_initialized = true })
