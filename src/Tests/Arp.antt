-- ===== src/Tests/Arp.antt =====
-- The ARP detector at work: a host that claims the gateway's address.
use sentinel_pi.Prelude.{
  ◌≡◌, ◌≢◌, refl, String, true, false, none, some, List, [], ◌∷◌, string_key, String-discrete, eqb,
  arith,
}
use sentinel_pi.Prelude.Dict
use sentinel_pi.Models.{parse_severity, high}
use sentinel_pi.World.{ok, raised}
use sentinel_pi.Inventory.Tracker.{
  Device, Surroundings, Tracker, mark_device_suspicious, call, new_tracker,
}
use sentinel_pi.Responders.ArpRestore
use sentinel_pi.Responders.{ResponseConfig}
use sentinel_pi.Detectors.Arp.{
  CapturedArp, ArpDetector, is_ignored, conflicting, conflict_alert, gateway_mac_change_alert,
  analyze_arp, check_conflict, marking, synthetic,
}
use sentinel_pi.Detectors.Arp.Gateway.{Input, captured, polled, IsReported, runs, runs-gateway}
use sentinel_pi.Detectors.Arp.Claims.{last_claim, packets, replies, runs-last_claim}
use sentinel_pi.Detectors.Arp.Raised.{HasLearntNothing, analyze_arp-raised}
use sentinel_pi.Detectors.Arp.Restore.{can_handle-conflict_alert}
use sentinel_pi.Text.{lower}
use sentinel_pi.Inventory.Vendors.{normalize_mac}
use sentinel_pi.Tests.Response.{env, rc}

abbrev quiet : Surroundings
quiet = record {
  gateway_ip = "192.168.1.1";
  gateway_mac = "";
  window_seconds = 300;
  db_error = λ calls c. none;
  reverse_dns = λ ip. ok "";
  dhcp = none;
}

abbrev locked : Surroundings
locked = record quiet { db_error = λ calls c. some "database is locked" }

abbrev router : String
router = "aa:aa:aa:aa:aa:01"

abbrev detector : ArpDetector
detector = record {
  config = record { whitelist_ips = []; gateway_ip = "192.168.1.1" };
  ip_to_mac = ("192.168.1.1", router) ∷ [];
  mac_to_ip = (router, "192.168.1.1") ∷ [];
  reply_times = [];
  conflicts = [];
  known_gateway_mac = some router;
}

abbrev spoofed : CapturedArp
spoofed = record {
  timestamp = 5000;
  op = 2;
  src_mac = "66:66:66:66:66:66";
  src_ip = "192.168.1.1";
  dst_mac = "ff:ff:ff:ff:ff:ff";
  dst_ip = "192.168.1.7";
}

-- What the network shows before the spoofed packet: another host claims the address as well.
abbrev before : List Input
before =
    captured (record spoofed { src_mac = "55:55:55:55:55:55" }) []
    ∷ polled (record { ip = "192.168.1.7"; mac = "BB:BB:BB:BB:BB:07" } ∷ []) []
    ∷ []

abbrev inventory : Tracker
inventory = new_tracker [] []

not_ignored : is_ignored detector.config spoofed ≡ false
unfolding is_ignored String-discrete
not_ignored = refl

two_texts : (a b : String) → eqb a b ≡ false → a ≢ b
two_texts a b e p = ground (arith, e, p)

other_mac : router ≢ spoofed.src_mac
unfolding String-discrete
other_mac = two_texts router spoofed.src_mac refl

abbrev config : ResponseConfig
config = record rc {
  arp_restore_enabled = true;
  arp_restore_min_severity = "high";
  gateway_ip = "192.168.1.1";
  gateway_mac = "aa:aa:aa:aa:aa:01";
}

high_parses : parse_severity "high" ≡ some high
unfolding parse_severity String-discrete
high_parses = refl

runs-gateway_example :
    let (d', s') = runs env quiet before (detector, inventory) in
    IsReported
      (gateway_mac_change_alert env quiet spoofed router [])
      (analyze_arp env quiet spoofed [] d' s').0
runs-gateway_example =
    runs-gateway env quiet router before spoofed [] detector inventory refl refl not_ignored
      other_mac

last_before :
    last_claim detector.config "192.168.1.1"
      (packets env quiet before)
      (Dict.get "192.168.1.1" detector.ip_to_mac)
    ≡ some "55:55:55:55:55:55"
unfolding last_claim packets replies is_ignored synthetic normalize_mac lower Dict.get
    String-discrete
last_before = refl

runs-last_claim_example :
    let (d', s') = runs env quiet before (detector, inventory) in
    (Dict.get "192.168.1.1" d'.ip_to_mac ≡ some "55:55:55:55:55:55")
    × IsReported
        (conflict_alert env quiet detector.config spoofed "55:55:55:55:55:55" [])
        (analyze_arp env quiet spoofed [] d' s').0
unfolding String-discrete
runs-last_claim_example =
    runs-last_claim env quiet (λ calls c. refl) before spoofed [] "55:55:55:55:55:55" detector
      inventory last_before not_ignored (two_texts "55:55:55:55:55:55" "" refl)
      (two_texts "55:55:55:55:55:55" spoofed.src_mac refl)

gateway_device : Device
gateway_device = record {
  ip = "192.168.1.1";
  mac = router;
  first_seen = 1;
  last_seen = 2;
  hostname = "";
  vendor = "";
  is_trusted = true;
  is_gateway = true;
  alert_count = 0;
  suspicion_score = 0;
  classification = record { device_type = "router"; confidence = 85 };
  identity_source = "dhcp";
}

abbrev known_gateway : Tracker
known_gateway = record inventory { devices_by_ip = ("192.168.1.1", gateway_device) ∷ [] }

refused : (analyze_arp env locked spoofed [] detector known_gateway).0 ≡ raised "database is locked"
unfolding analyze_arp check_conflict conflicting marking mark_device_suspicious call is_ignored
    Dict.get String-discrete
refused = refl

analyze_arp-raised_example :
    let (result, d', s') = analyze_arp env locked spoofed [] detector known_gateway in
    HasLearntNothing detector d' × (conflicting spoofed d' ≡ conflicting spoofed detector)
analyze_arp-raised_example =
    analyze_arp-raised env locked spoofed [] detector known_gateway "database is locked" refused

can_handle-conflict_alert_example :
    (ArpRestore.can_handle env config (conflict_alert env quiet detector.config spoofed router [])
      ≡ true)
    × (ArpRestore.can_handle env config (gateway_mac_change_alert env quiet spoofed router [])
        ≡ false)
unfolding String-discrete
can_handle-conflict_alert_example =
    can_handle-conflict_alert env quiet config spoofed detector.config router [] high refl
      (two_texts "192.168.1.1" "" refl) (two_texts "aa:aa:aa:aa:aa:01" "" refl) high_parses refl
