-- ===== src/Detectors/Profiles/Hosts.antt =====
-- detectors/host_profile_detector.py: ports, peers, protocols and sizes of a host's connections.
pub mod Steps
pub mod Repeats
use Prim.Native.String.{◌++◌}
use mathlib.Core.List.{◌++◌ as append}
use sentinel_pi.Prelude.{
  ℕ, String, Bool, true, false, ◌&&◌, ◌||◌, not, Option, List, [], ◌∷◌, eqb, ltb, ◌==◌, string_key,
  pair_key, if◌then◌else◌,
}
use sentinel_pi.Models.{Alert, medium, connection_anomaly, new, no_extra}
use sentinel_pi.Network.{Address, Subnet, ip_in_any_subnet}
use sentinel_pi.World.{Trace, Env, Result, ok, raised}
use sentinel_pi.Text.{upper}
use sentinel_pi.Text.Show.{show}
use sentinel_pi.Capture.{CapturedConnection}
use sentinel_pi.Inventory.Tracker.{Tracker, is_trusted_device}
use sentinel_pi.Detectors.Profiles.{
  Profiles, Moment, observe, ProfileConfig, hostname_of, in_brackets, reported,
}

-- `_DIM_PORT` and so on: the columns of the table by their names
pub data Dimension : Type 0 where
  dst_port peer protocol byte_range : Dimension

unfoldable pub dimension_name : Dimension → String
dimension_name dst_port = "dst_port"
dimension_name peer = "peer"
dimension_name protocol = "protocol"
dimension_name byte_range = "byte_range"

-- `_byte_bucket`
unfoldable pub byte_bucket : ℕ → String
byte_bucket size =
    if ltb size 1000
    then "0-1K"
    else if ltb size 10000
    then "1K-10K"
    else if ltb size 100000
    then "10K-100K"
    else if ltb size 1000000
    then "100K-1M"
    else if ltb size 10000000
    then "1M-10M"
    else "10M+"

-- The state: the sets of a host and a dimension.
abbrev pub HostProfiles : Type 0
HostProfiles = Profiles (String × String) String

abbrev pub Outcome : Type 0
Outcome = Result (List Alert) × HostProfiles

-- `alerts += self._observe(…)` if a test holds; an exception ends the handler.
abbrev pub with_alerts : List Alert → Outcome → Outcome
with_alerts alerts (raised message, p) = (raised message, p)
with_alerts alerts (ok more, p) = (ok (append alerts more), p)

abbrev pub then_observe : Outcome → (HostProfiles → Outcome) → Outcome
then_observe (raised message, p) f = (raised message, p)
then_observe (ok alerts, p) f = with_alerts alerts (f p)

module _ (env : Env) (ip_address : String → Option Address) (ip_network : String → Option Subnet)
    (config : ProfileConfig) where
  -- The title and the description of `_build_alert`.
  unfoldable pub texts : String → Dimension → String → ℕ → Tracker → String × String
  texts src dst_port value known s = (
    "Off-profile destination port for " ++ src ++ in_brackets (hostname_of src s) ++ ": " ++ value,
    src
        ++ " opened a connection to destination port "
        ++ value
        ++ " — a port it has never used before (its profile spans "
        ++ show known
        ++ " other ports). A host suddenly "
        ++ "using an unfamiliar service port (e.g. SMB/445, SSH/22, RDP/3389) can indicate "
        ++ "lateral movement or a compromised process.",
  )
  texts src protocol value known s = (
    "Off-profile protocol for " ++ src ++ in_brackets (hostname_of src s) ++ ": " ++ value,
    src
        ++ " used the "
        ++ upper value
        ++ " protocol for the first time (its profile spans "
        ++ show known
        ++ " other protocol(s)). A host that has only ever spoken TCP/UDP suddenly "
        ++ "using ICMP can indicate tunneling or an unexpected new service.",
  )
  texts src byte_range value known s = (
    "Off-profile transfer size for " ++ src ++ in_brackets (hostname_of src s) ++ ": " ++ value,
    src
        ++ " produced a flow in the "
        ++ value
        ++ " byte range — a transfer size it has not shown before (its profile spans "
        ++ show known
        ++ " other size range(s)). A sudden much "
        ++ "larger transfer from a host that only ever sent small flows can indicate "
        ++ "data exfiltration.",
  )
  texts src peer value known s =
      let peer_who = value ++ in_brackets (hostname_of value s) in
      (
        "Off-profile internal peer for "
            ++ src
            ++ in_brackets (hostname_of src s)
            ++ ": "
            ++ peer_who,
        src
            ++ " connected to internal host "
            ++ peer_who
            ++ " for the first time (its profile spans "
            ++ show known
            ++ " other internal peers). A device reaching a LAN peer it has never "
            ++ "talked to is a classic slow lateral-movement signal.",
      )

  -- `value if dimension == _DIM_PEER else ""`
  abbrev pub related : Dimension → String → String
  related peer value = value
  related _ value = ""

  -- `_build_alert`
  unfoldable pub profile_alert : String → Dimension → String → ℕ → Tracker → Trace → Alert
  unfolding texts dimension_name
  profile_alert src dimension value known s t =
      let (title, description) = texts src dimension value known s in
      record {
        alert_id = env.uuid t;
        timestamp = env.clock t;
        severity = medium;
        category = connection_anomaly;
        affected_host = src;
        affected_mac = "";
        related_host = related dimension value;
        title = title;
        description = description;
        dedup_key = "hostprofile:" ++ dimension_name dimension ++ ":" ++ src ++ ":" ++ value;
        status = new;
        extra = no_extra;
      }

  -- `_observe`, where a test of `_process_event` holds
  unfoldable pub observe_dimension :
      Bool → String → Dimension → String → ℕ → Moment → Tracker → Trace → HostProfiles → Outcome
  unfolding profile_alert
  observe_dimension test src dimension value min_known m s t p =
      let (result, p') =
        observe min_known (is_trusted_device src "" s) (src, dimension_name dimension) value m p in
      if test
      then (reported result (λ known. profile_alert src dimension value known s t), p')
      else (ok [], p)

  unfoldable pub is_here : String → Bool
  is_here ip = ip_in_any_subnet ip_address ip_network ip config.subnets

  -- `_process_event`, for a connection that was captured; the database may answer each observation in
  -- its own way.
  unfoldable pub process_profile :
      CapturedConnection → (Dimension → Moment) → Tracker → Trace → HostProfiles → Outcome
  unfolding observe_dimension is_here byte_bucket
  process_profile c m s t p =
      let src = c.src_ip in
      let is_peer = not (eqb c.dst_ip "") && is_here c.dst_ip && not (eqb c.dst_ip src) in
      if eqb src "" || not (is_here src)
      then (ok [], p)
      else then_observe
          (observe_dimension (not (c.dst_port == 0)) src dst_port (show c.dst_port)
            config.min_known_ports (m dst_port) s t p)
          (λ p1.
            then_observe
              (observe_dimension is_peer src peer c.dst_ip config.min_known_peers (m peer) s t p1)
              (λ p2.
                then_observe
                  (observe_dimension (not (eqb c.protocol "")) src protocol c.protocol
                    config.min_known_protocols (m protocol) s t p2)
                  (observe_dimension (ltb 0 c.size) src byte_range (byte_bucket c.size)
                    config.min_known_byte_ranges (m byte_range) s t)))
