-- ===== src/Detectors/Arp.antt =====
-- detectors/arp_detector.py, on the inventory of Inventory.Tracker: the detector marks a device of
-- it, which writes to the database and may raise. An exception leaves both as they are then.
pub mod State
pub mod Gateway
pub mod Claims
pub mod Raised
pub mod Restore
use Prim.Native.String.{◌++◌}
use mathlib.Core.List.{◌++◌ as append}
use sentinel_pi.Prelude.{
  ℕ, ◌+◌, String, Bool, true, false, ◌&&◌, ◌||◌, not, Option, none, some, List, [], ◌∷◌, length,
  keep, push_right, ltb, leb, ◌==◌, string_key, eqb, elem, if◌then◌else◌,
}
use sentinel_pi.Prelude.Dict
use sentinel_pi.Prelude.Dict.{Dict}
use sentinel_pi.Models.{
  Alert, Datetime, seconds, Severity, high, critical, arp_anomaly, new, no_extra,
}
use sentinel_pi.World.{Trace, Env, Result, ok, raised}
use sentinel_pi.Text.Show.{show}
use sentinel_pi.Inventory.Vendors.{normalize_mac, mac_to_vendor}
use sentinel_pi.Inventory.Tracker.{Device, ArpEntry, Surroundings, Tracker, mark_device_suspicious}
pub use State.*
unfoldable pub use State.{
  sync_from_inventory, new_detector, is_ignored, add_claim, replies_of, conflicting, learn,
}

module _ (env : Env) (surroundings : Surroundings) where
  -- `_conflict_alert`
  unfoldable pub conflict_alert : ArpConfig → CapturedArp → String → Trace → Alert
  conflict_alert config arp known_mac t =
      let is_gateway = eqb arp.src_ip config.gateway_ip in
      record {
        alert_id = env.uuid t;
        timestamp = env.clock t;
        severity = if is_gateway then critical else high;
        category = arp_anomaly;
        affected_host = arp.src_ip;
        affected_mac = arp.src_mac;
        related_host = "";
        title = "ARP conflict: " ++ arp.src_ip ++ " claimed by new MAC " ++ arp.src_mac;
        description =
            "IP "
            ++ arp.src_ip
            ++ " was previously associated with MAC "
            ++ known_mac
            ++ " ["
            ++ vendor_or_unknown known_mac
            ++ "]. A new MAC "
            ++ arp.src_mac
            ++ " ["
            ++ vendor_or_unknown arp.src_mac
            ++ "] is now claiming this IP. This is a classic indicator of ARP cache poisoning. "
            ++ (if is_gateway
                then "This is your gateway IP — all traffic may be interceptable."
                else "");
        dedup_key = "arp_conflict:" ++ arp.src_ip ++ ":" ++ arp.src_mac;
        status = new;
        extra = record no_extra { is_gateway = is_gateway };
      }

  -- `_gateway_mac_change_alert`
  unfoldable pub gateway_mac_change_alert : CapturedArp → String → Trace → Alert
  gateway_mac_change_alert arp old_mac t = record {
    alert_id = env.uuid t;
    timestamp = env.clock t;
    severity = critical;
    category = arp_anomaly;
    affected_host = arp.src_ip;
    affected_mac = arp.src_mac;
    related_host = "";
    title = "CRITICAL: Gateway MAC changed from " ++ old_mac ++ " to " ++ arp.src_mac;
    description =
        "Your gateway ("
        ++ arp.src_ip
        ++ ") previously had MAC "
        ++ old_mac
        ++ " ["
        ++ vendor_or_unknown old_mac
        ++ "]. It is now advertising MAC "
        ++ arp.src_mac
        ++ " ["
        ++ vendor_or_unknown arp.src_mac
        ++ "]. An attacker may be performing ARP poisoning to intercept all your network traffic.";
    dedup_key = "gateway_mac_change:" ++ arp.src_ip;
    status = new;
    extra = no_extra;
  }

  -- How many of the replies of a MAC address are recent.
  unfoldable pub recent_replies : CapturedArp → ArpDetector → ℕ
  unfolding replies_of
  recent_replies arp d =
      length
        (keep (λ at. ltb arp.timestamp (at + seconds flood_seconds)) (replies_of arp.src_mac d))

  -- `_check_reply_flood`
  unfoldable pub check_reply_flood : CapturedArp → ArpDetector → Trace → List Alert
  unfolding recent_replies
  check_reply_flood arp d t =
      let n = recent_replies arp d in
      if leb flood_replies n
      then record {
        alert_id = env.uuid t;
        timestamp = env.clock t;
        severity = high;
        category = arp_anomaly;
        affected_host = arp.src_ip;
        affected_mac = arp.src_mac;
        related_host = "";
        title = "ARP reply flood from " ++ arp.src_mac;
        description =
            "MAC "
            ++ arp.src_mac
            ++ " sent "
            ++ show n
            ++ " ARP replies in the last 10 seconds. "
            ++ "Gratuitous ARP flooding is used by ARP spoofing tools to overwrite ARP caches "
            ++ "on all devices on the segment.";
        dedup_key = "arp_flood:" ++ arp.src_mac;
        status = new;
        extra = no_extra;
      }
        ∷ []
      else []

  -- An alert, after the device is marked.
  unfoldable pub marking : String → ℕ → Alert → ArpDetector → Tracker → Outcome
  marking ip delta alert d s =
      after_marking alert d (mark_device_suspicious surroundings ip delta s)

  -- Another MAC address claims a known address.
  unfoldable pub check_conflict : CapturedArp → Trace → ArpDetector → Tracker → Outcome
  unfolding conflicting conflict_alert add_claim marking
  check_conflict arp t d s = elim (conflicting arp d) [
    | none ↦ (ok [], d, s)
    | some known ↦
        marking arp.src_ip 500 (conflict_alert d.config arp known t)
          (record d { conflicts = add_claim arp.src_ip arp.src_mac d.conflicts }) s
  ]

  -- The gateway's MAC address is learnt, or has changed.
  unfoldable pub check_gateway : CapturedArp → Trace → ArpDetector → Tracker → Outcome
  unfolding gateway_mac_change_alert marking
  check_gateway arp t d s =
      let checked : Outcome = elim d.known_gateway_mac [
        | none ↦ (ok [], record d { known_gateway_mac = some arp.src_mac }, s)
        | some old ↦
            if eqb old arp.src_mac
            then (ok [], d, s)
            else marking arp.src_ip 1000 (gateway_mac_change_alert arp old t) d s
      ] in
      if eqb arp.src_ip d.config.gateway_ip then checked else (ok [], d, s)

  -- A reply counts, and the claim is remembered.
  unfoldable pub check_reply : CapturedArp → Trace → ArpDetector → Tracker → Outcome
  unfolding check_reply_flood learn replies_of
  check_reply arp t d s =
      let counted : ArpDetector = record d {
        reply_times =
            Dict.put arp.src_mac (push_right max_replies (replies_of arp.src_mac d) arp.timestamp)
              d.reply_times;
      } in
      if arp.op == 2
      then (ok (check_reply_flood arp counted t), learn arp counted, s)
      else (ok [], learn arp d, s)

  -- `_analyze_arp`, which is `_process_event` for a packet that was captured
  unfoldable pub analyze_arp : CapturedArp → Trace → ArpDetector → Tracker → Outcome
  unfolding is_ignored check_conflict check_gateway check_reply
  analyze_arp arp t d s =
      if is_ignored d.config arp
      then (ok [], d, s)
      else then_alerts (check_conflict arp t d s)
          (λ d1 s1. then_alerts (check_gateway arp t d1 s1) (check_reply arp t))

  -- The reply that stands for an entry of the ARP table.
  unfoldable pub synthetic : ArpEntry → Datetime → CapturedArp
  synthetic entry now = record {
    timestamp = now;
    op = 2;
    src_mac = normalize_mac entry.mac;
    src_ip = entry.ip;
    dst_mac = "ff:ff:ff:ff:ff:ff";
    dst_ip = "0.0.0.0";
  }

  -- `_poll`
  unfoldable pub poll_table : List ArpEntry → Trace → ArpDetector → Tracker → Outcome
  unfolding synthetic analyze_arp
  poll_table [] t d s = (ok [], d, s)
  poll_table (entry ∷ entries) t d s =
      then_alerts (analyze_arp (synthetic entry (env.clock t)) t d s) (poll_table entries t)
