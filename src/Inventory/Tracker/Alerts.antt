-- ===== src/Inventory/Tracker/Alerts.antt =====
-- The alerts of `DeviceTracker`: what is made of its findings. The recommended action, the confidence
-- and its rationale are left out, as in all alerts here.
use Prim.Native.String.{◌++◌}
use sentinel_pi.Prelude.{ℕ, String, ◌||◌, eqb, string_key, if◌then◌else◌}
use sentinel_pi.Models.{
  Alert, Datetime, low, medium, high, critical, arp_anomaly, new_device, new, no_extra,
}
use sentinel_pi.Text.{replace}
use sentinel_pi.Text.Show.{show}
use sentinel_pi.Inventory.Vendors.{mac_to_vendor}
use sentinel_pi.Inventory.Tracker.{
  Surroundings, Device, ArpEntry, Finding, mac_change, ip_change, churn,
}

-- The parts of an alert that these alerts share.
base : String → Datetime → Alert
base alert_id now = record {
  alert_id = alert_id;
  timestamp = now;
  severity = low;
  category = arp_anomaly;
  affected_host = "";
  affected_mac = "";
  related_host = "";
  title = "";
  description = "";
  dedup_key = "";
  status = new;
  extra = no_extra;
}

-- A part of a text that stands there if a word is not empty.
if_any : String → String → String
if_any word part = if eqb word "" then "" else part

unfoldable pub new_device_alert : String → Datetime → Device → Alert
unfolding base if_any
new_device_alert alert_id now d =
    let vendor_str = if_any d.vendor (" [" ++ d.vendor ++ "]") in
    let hostname_str = if_any d.hostname (" (" ++ d.hostname ++ ")") in
    let device_type = d.classification.device_type in
    let type_str =
      if eqb device_type "unknown" then "" else " — looks like a " ++ replace "_" " " device_type in
    record (base alert_id now) {
      severity = low;
      category = new_device;
      affected_host = d.ip;
      affected_mac = d.mac;
      title = "New device appeared: " ++ d.ip ++ hostname_str ++ vendor_str ++ type_str;
      description =
          "A device with IP " ++ d.ip ++ " and MAC " ++ d.mac ++ vendor_str
          ++ " was seen for the first time" ++ hostname_str ++ type_str
          ++ ". This may be a new authorized device or an unauthorized device joining the network.";
      dedup_key = "new_device:" ++ d.ip ++ ":" ++ d.mac;
    }

or_unknown : String → String
or_unknown vendor = if eqb vendor "" then "unknown vendor" else vendor

unfoldable pub mac_change_alert : Surroundings → String → Datetime → ArpEntry → Device → Alert
unfolding base or_unknown
mac_change_alert env alert_id now entry existing =
    let is_gateway = existing.is_gateway || eqb entry.ip env.gateway_ip in
    record (base alert_id now) {
      severity = if is_gateway then critical else high;
      affected_host = entry.ip;
      affected_mac = entry.mac;
      title = (if is_gateway then "GATEWAY " else "") ++ "MAC address changed: " ++ entry.ip;
      description =
          "The MAC address for "
          ++ entry.ip
          ++ " changed from "
          ++ existing.mac
          ++ " ["
          ++ or_unknown (mac_to_vendor existing.mac)
          ++ "] to "
          ++ entry.mac
          ++ " ["
          ++ or_unknown (mac_to_vendor entry.mac)
          ++ "]. This can indicate ARP cache poisoning / man-in-the-middle attack, or a legitimate device replacement. "
          ++ (if is_gateway
              then "WARNING: This is your gateway — traffic may be intercepted."
              else "");
      dedup_key = "mac_change:" ++ entry.ip;
      extra = record no_extra { is_gateway = is_gateway };
    }

unfoldable pub ip_change_alert : String → Datetime → ArpEntry → String → Alert
unfolding base
ip_change_alert alert_id now entry old_ip = record (base alert_id now) {
  severity = medium;
  affected_host = entry.ip;
  affected_mac = entry.mac;
  title = "Device IP changed: " ++ entry.mac ++ " was " ++ old_ip ++ ", now " ++ entry.ip;
  description =
      "A device with MAC " ++ entry.mac ++ " previously seen at " ++ old_ip
      ++ " is now appearing at " ++ entry.ip ++ ". This could be DHCP reassignment or IP conflict.";
  dedup_key = "ip_change:" ++ entry.mac;
}

unfoldable pub churn_alert : Surroundings → String → Datetime → ℕ → Alert
unfolding base
churn_alert env alert_id now n = record (base alert_id now) {
  severity = high;
  affected_host = "LAN";
  title = "Excessive ARP table churn detected";
  description =
      show n
      ++ " MAC address changes observed on the LAN within "
      ++ show env.window_seconds
      ++ "s. This pattern is consistent with an active ARP spoofing/poisoning tool.";
  dedup_key = "arp_churn:lan";
}

-- The alert that the tracker returns for a finding.
unfoldable pub alert_of : Surroundings → String → Datetime → Finding → Alert
unfolding new_device_alert mac_change_alert ip_change_alert churn_alert
alert_of env alert_id now (Finding.new_device d) = new_device_alert alert_id now d
alert_of env alert_id now (mac_change entry d) = mac_change_alert env alert_id now entry d
alert_of env alert_id now (ip_change entry old_ip) = ip_change_alert alert_id now entry old_ip
alert_of env alert_id now (churn n) = churn_alert env alert_id now n
