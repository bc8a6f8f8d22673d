-- ===== src/Inventory/Tracker/State.antt =====
-- The state of `DeviceTracker`, and what the tracker exchanges with its surroundings.
use sentinel_pi.Prelude.{
  ℕ, String, Bool, ◌||◌, Option, none, some, List, [], push_right, elem, string_key,
}
use sentinel_pi.Prelude.Dict.{Dict, get, put}
use sentinel_pi.Models.{Datetime}
use sentinel_pi.World.{Result}
use sentinel_pi.Inventory.Classifier.{Classification}

-- `Device` of models.py, with the entries of `extra` that `_create_device` makes.
pub record Device : Type 0 where
  pub ip : String
  pub mac : String
  pub first_seen : Datetime
  pub last_seen : Datetime
  pub hostname : String
  pub vendor : String
  pub is_trusted : Bool
  pub is_gateway : Bool
  pub alert_count : ℕ
  pub suspicion_score : ℕ
  pub classification : Classification
  pub identity_source : String

-- The fields of `ARPEntry` of proc_reader.py that the tracker reads.
pub record ArpEntry : Type 0 where
  pub ip : String
  pub mac : String

-- What the tracker asks of the database: `upsert_device`, and `set_device_trust` with the address,
-- the trust, the actor and the time.
pub data DbCall : Type 0 where
  upserted : Device → DbCall
  trust_set : String → String → Bool → String → Datetime → DbCall

pub record Surroundings : Type 0 where
  pub gateway_ip : String
  pub gateway_mac : String
  pub window_seconds : ℕ
  -- the message of the exception of a call, after those that came before it
  pub db_error : List DbCall → DbCall → Option String
  -- the name of an address, or an exception
  pub reverse_dns : String → Result String
  -- `hostname_for` of the lease source, if there is one
  pub dhcp : Option (String → String)

-- What an alert of the tracker is about.
pub data Finding : Type 0 where
  new_device : Device → Finding
  -- the entry and the device as it was, with its MAC address
  mac_change : ArpEntry → Device → Finding
  -- the entry and the address that the MAC address had
  ip_change : ArpEntry → String → Finding
  churn : ℕ → Finding

-- `_devices_by_ip` holds each device once, so that changing a device is changing its entry.
pub record Tracker : Type 0 where
  pub devices_by_ip : Dict String Device
  pub ip_by_mac : Dict String String
  pub arp_history : Dict String (List (Datetime × String))
  pub churn_times : List Datetime
  pub configured_trusted_ips : List String
  pub configured_trusted_macs : List String
  pub trusted_ips : List String
  pub trusted_macs : List String
  pub calls : List DbCall

-- The state of `__init__` before the database is read.
unfoldable pub new_tracker : List String → List String → Tracker
new_tracker ips macs = record {
  devices_by_ip = [];
  ip_by_mac = [];
  arp_history = [];
  churn_times = [];
  configured_trusted_ips = ips;
  configured_trusted_macs = macs;
  trusted_ips = ips;
  trusted_macs = macs;
  calls = [];
}

unfoldable pub is_configured : Tracker → String → String → Bool
is_configured s ip mac = elem ip s.configured_trusted_ips || elem mac s.configured_trusted_macs

-- `self._arp_history[ip].append((now, mac))`, a `deque(maxlen=20)`.
unfoldable pub record_change : String → String → Datetime → Tracker → Tracker
record_change ip mac now s =
    let history : List (Datetime × String) = elim (get ip s.arp_history) [
      | none ↦ []
      | some h ↦ h
    ] in
    record s {
      churn_times = push_right 100 s.churn_times now;
      arp_history = put ip (push_right 20 history (now, mac)) s.arp_history;
    }
