-- ===== src/Detectors/Arp/State.antt =====
-- The state of `ARPDetector`, what it reads of it, and its steps one after another.
use mathlib.Core.List.{◌++◌ as append}
use sentinel_pi.Prelude.{
  ℕ, String, Bool, ◌&&◌, ◌||◌, not, Option, none, some, List, [], ◌∷◌, string_key, eqb, elem,
  if◌then◌else◌,
}
use sentinel_pi.Prelude.Dict
use sentinel_pi.Prelude.Dict.{Dict}
use sentinel_pi.Models.{Alert, Datetime}
use sentinel_pi.World.{Result, ok, raised}
use sentinel_pi.Inventory.Vendors.{mac_to_vendor}
use sentinel_pi.Inventory.Tracker.{Device, Tracker}

-- `CapturedARP`
pub record CapturedArp : Type 0 where
  pub timestamp : Datetime
  pub op : ℕ
  pub src_mac : String
  pub src_ip : String
  pub dst_mac : String
  pub dst_ip : String

-- The entries of the configuration that the detector reads.
pub record ArpConfig : Type 0 where
  pub whitelist_ips : List String
  pub gateway_ip : String

-- The state of `ARPDetector`.
pub record ArpDetector : Type 0 where
  pub config : ArpConfig
  pub ip_to_mac : Dict String String
  pub mac_to_ip : Dict String String
  pub reply_times : Dict String (List Datetime)
  pub conflicts : Dict String (List String)
  pub known_gateway_mac : Option String

-- `deque(maxlen=100)`, the seconds of a flood, and the replies that make one
abbrev pub max_replies : ℕ
max_replies = 100

abbrev pub flood_seconds : ℕ
flood_seconds = 10

abbrev pub flood_replies : ℕ
flood_replies = 20

-- `_sync_from_inventory`
unfoldable pub sync_from_inventory : List Device → ArpDetector → ArpDetector
sync_from_inventory [] d = d
sync_from_inventory (device ∷ devices) d = sync_from_inventory devices (record d {
  ip_to_mac = Dict.put device.ip device.mac d.ip_to_mac;
  mac_to_ip = Dict.put device.mac device.ip d.mac_to_ip;
  known_gateway_mac = if device.is_gateway then some device.mac else d.known_gateway_mac;
})

-- The state of `__init__`.
unfoldable pub new_detector : ArpConfig → List Device → ArpDetector
unfolding sync_from_inventory
new_detector config devices = sync_from_inventory devices (record {
  config = config;
  ip_to_mac = [];
  mac_to_ip = [];
  reply_times = [];
  conflicts = [];
  known_gateway_mac = none;
})

-- The tests of `_analyze_arp` on a packet, before it looks at the state.
unfoldable pub is_ignored : ArpConfig → CapturedArp → Bool
is_ignored config arp =
    eqb arp.src_ip ""
    || eqb arp.src_mac ""
    || eqb arp.src_mac "00:00:00:00:00:00"
    || eqb arp.src_mac "ff:ff:ff:ff:ff:ff"
    || elem arp.src_ip config.whitelist_ips

-- `self._conflicts[ip].add(mac)` on a `defaultdict(set)`
unfoldable pub add_claim : String → String → Dict String (List String) → Dict String (List String)
add_claim ip mac conflicts = elim (Dict.get ip conflicts) [
  | none ↦ Dict.put ip (mac ∷ []) conflicts
  | some macs ↦ Dict.put ip (if elem mac macs then macs else mac ∷ macs) conflicts
]

-- `self._reply_times[mac]` on a `defaultdict`
unfoldable pub replies_of : String → ArpDetector → List Datetime
replies_of mac d = elim (Dict.get mac d.reply_times) [ none ↦ [] | some times ↦ times ]

-- The MAC address that the packet's address is known to have, if it is another one.
unfoldable pub conflicting : CapturedArp → ArpDetector → Option String
conflicting arp d = elim (Dict.get arp.src_ip d.ip_to_mac) [
  | none ↦ none
  | some known ↦ if not (eqb known "") && not (eqb known arp.src_mac) then some known else none
]

-- `mac_to_vendor(mac) or 'unknown'`
abbrev pub vendor_or_unknown : String → String
vendor_or_unknown mac =
    let vendor = mac_to_vendor mac in if eqb vendor "" then "unknown" else vendor

-- `self._ip_to_mac[…] = …` and `self._mac_to_ip[…] = …`
unfoldable pub learn : CapturedArp → ArpDetector → ArpDetector
learn arp d = record d {
  ip_to_mac = Dict.put arp.src_ip arp.src_mac d.ip_to_mac;
  mac_to_ip = Dict.put arp.src_mac arp.src_ip d.mac_to_ip;
}

-- What a step gives: alerts or an exception, and what becomes of the detector and the inventory.
abbrev pub Outcome : Type 0
Outcome = Result (List Alert) × ArpDetector × Tracker

-- `alerts.extend(…)`
abbrev pub with_alerts : List Alert → Outcome → Outcome
with_alerts alerts (raised message, d, s) = (raised message, d, s)
with_alerts alerts (ok more, d, s) = (ok (append alerts more), d, s)

-- A step and the next, which an exception prevents.
abbrev pub then_alerts : Outcome → (ArpDetector → Tracker → Outcome) → Outcome
then_alerts (raised message, d, s) f = (raised message, d, s)
then_alerts (ok alerts, d, s) f = with_alerts alerts (f d s)

-- An alert, if the device could be marked.
abbrev pub after_marking : Alert → ArpDetector → Result (Option ℕ) × Tracker → Outcome
after_marking alert d (raised message, s) = (raised message, d, s)
after_marking alert d (ok score, s) = (ok (alert ∷ []), d, s)
