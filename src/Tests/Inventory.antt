-- ===== src/Tests/Inventory.antt =====
-- Examples of the theorems on the device tracker.
use sentinel_pi.Prelude.{
  ◌≡◌, ◌≢◌, ◌⊎◌, refl, String, true, false, ◌||◌, none, some, List, [], ◌∷◌, elem, eqb, eqb_refl,
  subst, string_key, String-discrete,
}
use sentinel_pi.Prelude.Dict.{get}
use sentinel_pi.World.{ok, raised}
use sentinel_pi.Text.{lower}
use sentinel_pi.Inventory.Vendors.{normalize_mac}
use sentinel_pi.Inventory.Tracker.{
  Device, ArpEntry, Surroundings, mac_change, Tracker, new_tracker, process_arp_entry, load_from_db,
  candidate_mac, is_trusted_device,
}
use sentinel_pi.Inventory.Tracker.Runs.{
  Operation, observed, trust_changed, marked, runs, runs-trusted, process_arp_entry-mac_change,
}

normal : normalize_mac "AA-bb-CC-dd-EE-0f" ≡ "aa:bb:cc:dd:ee:0f"
unfolding normalize_mac lower
normal = refl

abbrev env : Surroundings
env = record {
  gateway_ip = "192.168.1.1";
  gateway_mac = "";
  window_seconds = 300;
  db_error = λ calls c. none;
  reverse_dns = λ ip. ok "";
  dhcp = none;
}

abbrev laptop : Device
laptop = record {
  ip = "192.168.1.7";
  mac = "aa:bb:cc:dd:ee:0f";
  first_seen = 1;
  last_seen = 2;
  hostname = "laptop";
  vendor = "";
  is_trusted = true;
  is_gateway = false;
  alert_count = 0;
  suspicion_score = 0;
  classification = record { device_type = "computer"; confidence = 85 };
  identity_source = "dhcp";
}

abbrev tracker : Tracker
tracker = record (new_tracker [] []) {
  devices_by_ip = ("192.168.1.7", laptop) ∷ [];
  ip_by_mac = ("aa:bb:cc:dd:ee:0f", "192.168.1.7") ∷ [];
  trusted_macs = "aa:bb:cc:dd:ee:0f" ∷ [];
}

abbrev spoofed : ArpEntry
spoofed = record { ip = "192.168.1.7"; mac = "66:66:66:66:66:66" }

known : get spoofed.ip tracker.devices_by_ip ≡ some laptop
unfolding get String-discrete
known = refl

other_mac : laptop.mac ≢ spoofed.mac
unfolding String-discrete
other_mac e =
    let same : eqb laptop.mac spoofed.mac ≡ true =
      subst (λ m. eqb laptop.mac m ≡ true) e (eqb_refl laptop.mac) in
    let other : eqb laptop.mac spoofed.mac ≡ false = refl in cc

process_arp_entry-mac_change_example :
    let r = process_arp_entry env spoofed 9 tracker in
    (is_trusted_device spoofed.ip "" r.1 ≡ (
      elem spoofed.ip tracker.trusted_ips
      || elem spoofed.mac tracker.trusted_macs
      || elem spoofed.ip tracker.configured_trusted_ips))
    × ((r.0 ≡ ok (mac_change spoofed (record laptop { last_seen = 9 }) ∷ []))
        ⊎ ((exc : String) × (r.0 ≡ raised exc)))
process_arp_entry-mac_change_example =
    process_arp_entry-mac_change env spoofed 9 tracker laptop known other_mac

abbrev operations : List Operation
operations =
    observed ((spoofed, 10) ∷ [])
    ∷ trust_changed "192.168.1.7" false "operator" 11
    ∷ marked "192.168.1.7" 500
    ∷ []

listed :
    (elem {K = String} "192.168.1.7" ("192.168.1.7" ∷ [])
      || elem {K = String}
          (candidate_mac "192.168.1.7" "" (
            runs env operations
              (load_from_db env (laptop ∷ []) 5 (new_tracker ("192.168.1.7" ∷ []) [])).1))
          [])
    ≡ true
unfolding String-discrete
listed = refl

runs-trusted_example :
    is_trusted_device "192.168.1.7" "" (
      runs env operations
        (load_from_db env (laptop ∷ []) 5 (new_tracker ("192.168.1.7" ∷ []) [])).1)
    ≡ true
runs-trusted_example =
    runs-trusted env ("192.168.1.7" ∷ []) [] (laptop ∷ []) 5 operations "192.168.1.7" "" listed
