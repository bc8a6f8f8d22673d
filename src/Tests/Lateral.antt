-- ===== src/Tests/Lateral.antt =====
-- The lateral movement detector at work: SSH between two workstations is new once, and SSH and SMB
-- to two hosts is a fan-out where the threshold is two.
use sentinel_pi.Prelude.{
  ◌≡◌, refl, String, true, false, none, some, Option, List, [], ◌∷◌, eqb, if◌then◌else◌, string_key,
  triple_key, nat_key, String-discrete,
}
use Prim.Native.String.{◌++◌}
use sentinel_pi.Prelude.Dict
use sentinel_pi.Network.{
  Address, Subnet, v4, net4, ipv4, ip_in_any_subnet, ip_in_subnet, contains, same_prefix,
}
use sentinel_pi.Detectors.PortScan.{recent_entries, entries_of}
use sentinel_pi.Detectors.Lateral.{
  Lateral, Baseline, is_admin, is_on_cooldown, add_pair, admin_entries, admin_targets,
  new_admin_alert, check_new_admin_connection, is_internal, record_internal_connection,
}
use sentinel_pi.Detectors.Lateral.Seen.{
  Input, polled, fanout_only, after, record_internal_connection_once,
}
use sentinel_pi.Text.Show.{show, sorted_set}
use sentinel_pi.Tests.Response.{env}

abbrev ip_address : String → Option Address
ip_address s =
    if eqb s "192.168.1.5"
    then some (v4 (ipv4 192 168 1 5))
    else if eqb s "192.168.1.6"
    then some (v4 (ipv4 192 168 1 6))
    else none

abbrev ip_network : String → Option Subnet
ip_network s = some (net4 (ipv4 192 168 1 0) 24)

abbrev join_set : List String → String
join_set names = "..."

abbrev baseline : Baseline
baseline = record { is_learning = false; is_known_destination = λ src dst port protocol. false }

abbrev detector : Lateral
detector = record {
  config = record {
    whitelist_ips = [];
    subnets = "192.168.1.0/24" ∷ [];
    lateral_movement_dest_threshold = 2;
  };
  internal_conns = [];
  known_admin_pairs = [];
  admin_pairs_initialized = true;
  last_alert = [];
  adaptive = record {
    enabled = true;
    trips_before_backoff = 5;
    window_seconds = 3600;
    step = 500;
    max_multiplier = 4000;
    trips = [];
  };
}

ssh : is_admin 22 ≡ true
unfolding is_admin Dict.get native.Mathlib.Decide.ℕ_discrete
ssh = refl

workstation : is_internal env ip_address ip_network join_set detector.config "192.168.1.6" ≡ true
unfolding is_internal ip_in_any_subnet ip_in_subnet contains same_prefix String-discrete
workstation = refl

-- The first connection is reported.
first_ssh :
    (check_new_admin_connection env ip_address ip_network join_set "192.168.1.5" "192.168.1.6" 22
      1000 baseline detector []).0
    ≡ some (
        new_admin_alert env ip_address ip_network join_set "192.168.1.5" "192.168.1.6" 22
          ("new_admin:" ++ "192.168.1.5" ++ ":" ++ "192.168.1.6" ++ ":" ++ show 22)
          [])
unfolding check_new_admin_connection is_on_cooldown add_pair Dict.get
first_ssh = refl

abbrev two_targets : Lateral
two_targets = record detector {
  internal_conns =
      ("192.168.1.5", (980, ("192.168.1.6", 22)) ∷ (990, ("192.168.1.7", 445)) ∷ []) ∷ [];
}

fanned_out : admin_targets "192.168.1.5" 1000 two_targets ≡ "192.168.1.6" ∷ "192.168.1.7" ∷ []
unfolding admin_targets admin_entries recent_entries entries_of is_admin Dict.get String-discrete
    sorted_set native.Mathlib.Decide.ℕ_discrete sentinel_pi.Text.Show.insert
fanned_out = refl

abbrev between : List Input
between =
    polled
      ((
        record {
          local_ip = "192.168.1.5";
          remote_ip = "192.168.1.6";
          remote_port = 22;
          state = "ESTABLISHED";
        },
        baseline,
      )
        ∷ [])
      []
    ∷ []

record_internal_connection_once_example :
    let first =
      (record_internal_connection env ip_address ip_network join_set "192.168.1.5" "192.168.1.6" 22
        1000 baseline detector []).1 in
    let d' = after env ip_address ip_network join_set between first in
    (record_internal_connection env ip_address ip_network join_set "192.168.1.5" "192.168.1.6" 22
      9000 baseline d' []).0
    ≡ fanout_only env ip_address ip_network join_set "192.168.1.5" "192.168.1.6" 22 9000 d' []
record_internal_connection_once_example =
    record_internal_connection_once env ip_address ip_network join_set "192.168.1.5" "192.168.1.6"
      22 1000 9000 baseline baseline detector [] [] between refl ssh
