-- ===== src/Tests/Profiles.antt =====
-- The detectors of countries, hours and profiles at work.
use sentinel_pi.Prelude.{
  ◌≡◌, refl, String, false, Option, none, some, [], ◌∷◌, eqb, string_key, nat_key, pair_key,
  String-discrete, Pair-discrete, if◌then◌else◌,
}
use sentinel_pi.Prelude.Dict
use sentinel_pi.Network.{
  Subnet, net4, ipv4, ip_in_any_subnet, ip_in_subnet, contains, same_prefix, is_private_ip,
  is_private, in_any,
}
use sentinel_pi.World.{ok}
use sentinel_pi.Capture.{CapturedConnection}
use sentinel_pi.Inventory.Tracker.{Tracker, new_tracker, is_trusted_device, candidate_mac}
use sentinel_pi.Detectors.Profiles.{
  Profiles, Moment, ProfileConfig, observe, observe_in, load, add_value, values_of, insert_row,
}
use sentinel_pi.Detectors.Profiles.Countries.{process_country, country_alert, is_outbound}
use sentinel_pi.Detectors.Profiles.Hours.{process_hour}
use sentinel_pi.Detectors.Profiles.Hosts.{
  Dimension, process_profile, observe_dimension, is_here, dimension_name, byte_bucket,
}
use sentinel_pi.Detectors.Profiles.Reports.{
  captured, restarted, IsSilent, runs, process_country_once,
}
use sentinel_pi.Detectors.Profiles.Hours.Lost.{after_hours, process_hour_lost}
use sentinel_pi.Detectors.Profiles.Hosts.Repeats.{after_profiles, process_profile_repeated}
use sentinel_pi.Tests.Response.{env, ip_address}

abbrev ip_network : String → Option Subnet
ip_network s = some (net4 (ipv4 192 168 1 0) 24)

abbrev lookup : String → String
lookup ip = if eqb ip "198.51.100.7" then "IS" else ""

abbrev config : ProfileConfig
config = record {
  whitelist_ips = [];
  subnets = "192.168.1.0/24" ∷ [];
  active_hours_min_known = 1;
  min_known_ports = 1;
  min_known_peers = 1;
  min_known_protocols = 1;
  min_known_byte_ranges = 1;
}

abbrev calm : Moment
calm = record { read_error = none; write_error = none; is_learning = false }

abbrev failing : Moment
failing = record calm { write_error = some "disk full" }

abbrev inventory : Tracker
inventory = new_tracker [] []

abbrev outgoing : CapturedConnection
outgoing = record {
  timestamp = 1000;
  src_ip = "192.168.1.5";
  src_port = 50000;
  dst_ip = "198.51.100.7";
  dst_port = 443;
  protocol = "tcp";
  flags = "S";
  size = 0;
}

abbrev nothing : {V : Type 0} → Profiles String V
nothing = record { seen = []; rows = [] }

-- The first connection to the country is reported.
first_country :
    (process_country env ip_address ip_network lookup lookup config outgoing calm inventory []
      nothing).0
    ≡ ok (
        country_alert env ip_address ip_network lookup lookup config "192.168.1.5" "198.51.100.7"
          "IS" inventory []
        ∷ [])
unfolding process_country is_outbound ip_in_any_subnet ip_in_subnet contains same_prefix
    is_private_ip is_private in_any observe observe_in load add_value values_of insert_row
    is_trusted_device candidate_mac new_tracker Dict.get String-discrete
first_country = refl

process_country_once_example :
    IsSilent
      (process_country env ip_address ip_network lookup lookup config outgoing calm inventory [] (
        runs env ip_address ip_network lookup lookup config
          (restarted ∷ captured outgoing failing inventory [] ∷ restarted ∷ [])
          (process_country env ip_address ip_network lookup lookup config outgoing calm inventory []
            nothing).1)).0
process_country_once_example =
    process_country_once env ip_address ip_network lookup lookup config outgoing outgoing calm calm
      inventory inventory [] [] nothing
      (country_alert env ip_address ip_network lookup lookup config "192.168.1.5" "198.51.100.7"
        "IS" inventory [])
      [] (restarted ∷ captured outgoing failing inventory [] ∷ restarted ∷ []) first_country refl
      refl

process_hour_lost_example :
    (process_hour env ip_address ip_network config outgoing calm inventory [] (
      after_hours env ip_address ip_network config
        ((outgoing, (calm, (inventory, []))) ∷ [])
        (process_hour env ip_address ip_network config outgoing failing inventory [] nothing).1)).0
    ≡ ok []
process_hour_lost_example =
    process_hour_lost env ip_address ip_network config outgoing outgoing failing calm inventory
      inventory [] [] nothing ((outgoing, (calm, (inventory, []))) ∷ []) refl refl refl

abbrev always : Dimension → Moment
always dimension = calm

abbrev unknown : Profiles (String × String) String
unknown = record { seen = []; rows = [] }

handled :
    (process_profile env ip_address ip_network config outgoing always inventory [] unknown).0
    ≡ ok []
unfolding process_profile observe_dimension is_here ip_in_any_subnet ip_in_subnet contains
    same_prefix observe observe_in load add_value values_of insert_row is_trusted_device
    candidate_mac new_tracker Dict.get String-discrete Pair-discrete dimension_name byte_bucket
    Dict.put
handled = refl

process_profile_repeated_example :
    (process_profile env ip_address ip_network config outgoing
      (λ d. failing)
      inventory
      []
      (after_profiles env ip_address ip_network config
        ((record outgoing { dst_port = 22 }, (always, (inventory, []))) ∷ [])
        (process_profile env ip_address ip_network config outgoing always inventory []
          unknown).1)).0
    ≡ ok []
process_profile_repeated_example =
    process_profile_repeated env ip_address ip_network config outgoing always (λ d. failing)
      inventory inventory [] [] unknown []
      ((record outgoing { dst_port = 22 }, (always, (inventory, []))) ∷ []) handled
