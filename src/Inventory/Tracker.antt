-- ===== src/Inventory/Tracker.antt =====
-- `DeviceTracker` of inventory/device_tracker.py. The database's answers, the names that DNS and the
-- DHCP leases give, and what Python prints are in `Surroundings`. A suspicion score is in thousandths.
pub mod State
pub mod Alerts
pub mod Trust
pub mod Runs
use sentinel_pi.Prelude.{
  ℕ, suc, ◌+◌, min, String, Bool, true, false, not, ◌&&◌, ◌||◌, Option, none, some, List, [], ◌∷◌,
  ◌++◌, keep, length, push_right, elem, eqb, string_key, ltb, leb, if◌then◌else◌,
}
use sentinel_pi.Prelude.Dict.{Dict, get, put, remove}
use sentinel_pi.Models.{Datetime, seconds}
use sentinel_pi.World.{Result, ok, raised}
use sentinel_pi.Text.{lower}
use sentinel_pi.Inventory.Vendors.{normalize_mac, mac_to_vendor}
use sentinel_pi.Inventory.Classifier.{Classification, classify_device}
pub use State.*
unfoldable pub use State.{new_tracker, is_configured, record_change}

module _ (env : Surroundings) where
  -- A call of the database, before what follows it.
  unfoldable pub call :
      {A : Type 0} → DbCall → Tracker → (Tracker → Result A × Tracker) → Result A × Tracker
  call c s next = elim (env.db_error s.calls c) [
    | some exc ↦ (raised exc, s)
    | none ↦ next (record s { calls = c ∷ s.calls })
  ]

  -- The name of a device and where it is from.
  unfoldable pub identity : ArpEntry → String × String
  identity entry =
      let leased : String = elim env.dhcp [
        | none ↦ ""
        | some hostname_for ↦ hostname_for entry.mac
      ] in
      if not (eqb leased "") then (leased, "dhcp") else elim (env.reverse_dns entry.ip) [
        | raised exc ↦ ("", "")
        | ok name ↦ (name, if eqb name "" then "" else "reverse_dns")
      ]

  -- `_create_device`
  unfoldable pub create_device : ArpEntry → Datetime → Tracker → Device
  unfolding identity
  create_device entry now s =
      let name = identity entry in
      let vendor = mac_to_vendor entry.mac in
      let is_gateway =
        eqb entry.ip env.gateway_ip || eqb (lower entry.mac) (lower env.gateway_mac) in
      record {
        ip = entry.ip;
        mac = entry.mac;
        first_seen = now;
        last_seen = now;
        hostname = name.0;
        vendor = vendor;
        is_trusted = elem entry.ip s.trusted_ips || elem entry.mac s.trusted_macs;
        is_gateway = is_gateway;
        alert_count = 0;
        suspicion_score = 0;
        classification = classify_device vendor name.0 is_gateway;
        identity_source = name.1;
      }

  -- The end of the branch of a new device: its alert, unless it is trusted.
  unfoldable pub announce : Device → Tracker → Result (List Finding) × Tracker
  announce d s = (
    ok (
        if not (elem d.ip s.trusted_ips) && not (elem d.mac s.trusted_macs)
        then new_device d ∷ []
        else []),
    s,
  )

  unfoldable pub add_device : ArpEntry → Datetime → Tracker → Result (List Finding) × Tracker
  unfolding create_device call announce is_configured
  add_device entry now s =
      let d = create_device entry now s in
      let s' : Tracker = record s {
        devices_by_ip = put entry.ip d s.devices_by_ip;
        ip_by_mac = put entry.mac entry.ip s.ip_by_mac;
      } in
      call (upserted d) s' (λ s1.
        if is_configured s1 entry.ip entry.mac
        then call (trust_set d.ip d.mac true "configuration" now) s1 (announce d)
        else announce d s1)

  -- The device with its new MAC address: trusted only by configuration or for that address.
  unfoldable pub with_mac : ArpEntry → Tracker → Device → Device
  with_mac entry s d = record d {
    mac = entry.mac;
    is_trusted = elem entry.ip s.configured_trusted_ips || elem entry.mac s.trusted_macs;
    suspicion_score = min (d.suspicion_score + 300) 10000;
    alert_count = d.alert_count + 1;
  }

  unfoldable pub change_mac :
      ArpEntry → Device → Datetime → Tracker → Result (List Finding) × Tracker
  unfolding record_change with_mac call
  change_mac entry existing now s =
      let s' = record_change entry.ip entry.mac now s in
      let d = with_mac entry s' existing in
      let changed : Tracker = record s' {
        devices_by_ip = put entry.ip d s'.devices_by_ip;
        ip_by_mac = put entry.mac entry.ip (remove existing.mac s'.ip_by_mac);
      } in
      call (upserted d) changed (λ s1. (ok (mac_change entry existing ∷ []), s1))

  -- The branches of a device that is known, `existing` having been seen now.
  unfoldable pub update_device :
      ArpEntry → Device → Datetime → Tracker → Result (List Finding) × Tracker
  unfolding change_mac call
  update_device entry existing now s =
      if not (eqb existing.mac entry.mac)
      then change_mac entry existing now s
      else elim (get entry.mac s.ip_by_mac) [
        | none ↦ call (upserted existing) s (λ s1. (ok [], s1))
        | some known_ip ↦
            if not (eqb known_ip "") && not (eqb known_ip entry.ip)
            then (
              ok (ip_change entry known_ip ∷ []),
              record s { ip_by_mac = put entry.mac entry.ip s.ip_by_mac },
            )
            else call (upserted existing) s (λ s1. (ok [], s1))
      ]

  -- `_process_arp_entry`
  unfoldable pub process_arp_entry : ArpEntry → Datetime → Tracker → Result (List Finding) × Tracker
  unfolding add_device update_device
  process_arp_entry entry now s = elim (get entry.ip s.devices_by_ip) [
    | none ↦ add_device entry now s
    | some d ↦
        let existing : Device = record d { last_seen = now } in
        update_device entry existing now
          (record s { devices_by_ip = put entry.ip existing s.devices_by_ip })
  ]

  -- `process_entries`, with the clock that each entry meets. An exception ends it.
  unfoldable pub process_entries :
      List (ArpEntry × Datetime) → Tracker → Result (List Finding) × Tracker
  unfolding process_arp_entry
  process_entries [] s = (ok [], s)
  process_entries ((entry, now) ∷ entries) s =
      let one = process_arp_entry (record entry { mac = normalize_mac entry.mac }) now s in
      elim one.0 [
        | raised exc ↦ one
        | ok alerts ↦
            let rest = process_entries entries one.1 in
            elim rest.0 [ raised exc ↦ rest | ok more ↦ (ok (alerts ++ more), rest.1) ]
      ]

  -- `_check_arp_churn`
  unfoldable pub check_arp_churn : Datetime → Tracker → Option Finding
  check_arp_churn now s =
      let recent =
        keep (λ (t : Datetime). ltb now (t + seconds env.window_seconds)) s.churn_times in
      if leb 5 (length recent) then some (churn (length recent)) else none

  -- `poll`, on the entries of the table.
  unfoldable pub poll :
      List (ArpEntry × Datetime) → Datetime → Tracker → Result (List Finding) × Tracker
  unfolding process_entries check_arp_churn
  poll entries now s =
      let processed = process_entries entries s in
      elim processed.0 [
        | raised exc ↦ processed
        | ok alerts ↦ elim (check_arp_churn now processed.1) [
          | none ↦ processed
          | some alert ↦ (ok (alerts ++ alert ∷ []), processed.1)
        ]
      ]

  -- `self._devices_by_ip.values()` that have the MAC address, with the trust given.
  unfoldable pub trust_all : String → Bool → Dict String Device → Dict String Device
  trust_all mac trusted [] = []
  trust_all mac trusted ((ip, d) ∷ ds) =
      (ip, (if eqb d.mac mac then record d { is_trusted = trusted } else d))
      ∷ trust_all mac trusted ds

  -- What a change of trust does once it is stored.
  unfoldable pub apply_trust : Device → Bool → Tracker → Result (Option Device) × Tracker
  unfolding trust_all
  apply_trust d trusted s = (
    ok (some (record d { is_trusted = trusted })),
    record s {
      devices_by_ip = trust_all d.mac trusted s.devices_by_ip;
      trusted_macs =
          if trusted
          then d.mac ∷ s.trusted_macs
          else keep (λ (m : String). not (eqb m d.mac)) s.trusted_macs ++ s.configured_trusted_macs;
    },
  )

  -- `set_device_trust`: the device, or none if there is none.
  unfoldable pub set_device_trust :
      String → Bool → String → Datetime → Tracker → Result (Option Device) × Tracker
  unfolding apply_trust call is_configured
  set_device_trust ip trusted actor now s = elim (get ip s.devices_by_ip) [
    | none ↦ (ok none, s)
    | some d ↦
        if not trusted && is_configured s d.ip d.mac
        then (raised "configured trusted devices must be changed in configuration", s)
        else call (trust_set ip d.mac trusted actor now) s (apply_trust d trusted)
  ]

  -- `mark_device_suspicious`: the new score.
  unfoldable pub mark_device_suspicious : String → ℕ → Tracker → Result (Option ℕ) × Tracker
  unfolding call
  mark_device_suspicious ip score_delta s = elim (get ip s.devices_by_ip) [
    | none ↦ (ok none, s)
    | some d ↦
        let marked : Device = record d {
          suspicion_score = min (d.suspicion_score + score_delta) 10000;
          alert_count = d.alert_count + 1;
        } in
        call (upserted marked) (record s { devices_by_ip = put ip marked s.devices_by_ip })
          (λ s1. (ok (some marked.suspicion_score), s1))
  ]

  -- A device of the database joins the inventory, with its trust.
  unfoldable pub adopt : Device → Tracker → Result (Unit {0}) × Tracker
  adopt d s = (
    ok tt,
    record s {
      devices_by_ip = put d.ip d s.devices_by_ip;
      ip_by_mac = put d.mac d.ip s.ip_by_mac;
      trusted_macs = if d.is_trusted then d.mac ∷ s.trusted_macs else s.trusted_macs;
    },
  )

  -- One round of `_load_from_db`.
  unfoldable pub load_device : Device → Datetime → Tracker → Result (Unit {0}) × Tracker
  unfolding call is_configured adopt
  load_device d now s =
      if is_configured s d.ip d.mac && not d.is_trusted
      then call (trust_set d.ip d.mac true "configuration" now) s
          (adopt (record d { is_trusted = true }))
      else adopt d s

  -- `_load_from_db`, on the devices that the database returns. An exception ends it.
  unfoldable pub load_from_db : List Device → Datetime → Tracker → Result (Unit {0}) × Tracker
  unfolding load_device
  load_from_db [] now s = (ok tt, s)
  load_from_db (d ∷ devices) now s =
      let one = load_device d now s in
      elim one.0 [ raised exc ↦ one | ok _ ↦ load_from_db devices now one.1 ]

-- The MAC address that `is_trusted_device` asks about: the given one, or that of the device.
unfoldable pub candidate_mac : String → String → Tracker → String
candidate_mac ip mac s =
    if eqb mac ""
    then elim (get ip s.devices_by_ip) [ none ↦ "" | some d ↦ d.mac ]
    else normalize_mac mac

unfoldable pub is_trusted_device : String → String → Tracker → Bool
unfolding candidate_mac
is_trusted_device ip mac s =
    elem ip s.trusted_ips
    || elem (candidate_mac ip mac s) s.trusted_macs
    || elim (get ip s.devices_by_ip) [ none ↦ false | some d ↦ d.is_trusted ]
