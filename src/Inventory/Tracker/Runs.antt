-- ===== src/Inventory/Tracker/Runs.antt =====
-- Whatever happens to the tracker after it is started, and what becomes of trust when a MAC address
-- changes.
use sentinel_pi.Prelude.{
  ℕ, ◌≡◌, ◌≢◌, ◌⊎◌, ◌∙◌, refl, ap, String, Bool, true, ◌||◌, some, inl, inr, List, [], ◌∷◌, elem,
  eqb_ne, string_key, arith,
}
use sentinel_pi.Prelude.Dict.{get, put, remove, get-put_self}
use sentinel_pi.Models.{Datetime}
use sentinel_pi.World.{Result, ok, raised}
use sentinel_pi.Inventory.Tracker.{
  Device, ArpEntry, Surroundings, Finding, mac_change, Tracker, new_tracker, with_mac,
  record_change, upserted, change_mac, update_device, process_arp_entry, process_entries, poll,
  set_device_trust, mark_device_suspicious, load_from_db, candidate_mac, is_trusted_device,
}
use sentinel_pi.Inventory.Tracker.Trust.{
  call_intro, Policy, policy, IsPolicy, same_policy, process_entries-policy,
  mark_device_suspicious-policy, set_device_trust-IsPolicy, load_from_db-IsPolicy,
}

-- What the threads and the operator do with the tracker. An exception leaves the state as it is then.
pub data Operation : Type 0 where
  observed : List (ArpEntry × Datetime) → Operation
  polled : List (ArpEntry × Datetime) → Datetime → Operation
  trust_changed : String → Bool → String → Datetime → Operation
  marked : String → ℕ → Operation

module _ (env : Surroundings) where
  unfoldable pub step : Operation → Tracker → Tracker
  step (observed entries) s = (process_entries env entries s).1
  step (polled entries now) s = (poll env entries now s).1
  step (trust_changed ip trusted actor now) s = (set_device_trust env ip trusted actor now s).1
  step (marked ip delta) s = (mark_device_suspicious env ip delta s).1

  unfoldable pub runs : List Operation → Tracker → Tracker
  unfolding step
  runs [] s = s
  runs (o ∷ os) s = runs os (step o s)

  poll-policy :
      (entries : List (ArpEntry × Datetime)) (now : Datetime) (s : Tracker)
      → policy (poll env entries now s).1 ≡ policy s
  unfolding poll
  poll-policy entries now s = ground (arith, process_entries-policy env entries s)

  step-IsPolicy :
      (ips macs : List String) (o : Operation) (s : Tracker)
      → IsPolicy ips macs s
      → IsPolicy ips macs (step o s)
  unfolding step
  step-IsPolicy ips macs (observed entries) s p =
      same_policy ips macs s (process_entries env entries s).1
        (process_entries-policy env entries s) p
  step-IsPolicy ips macs (polled entries now) s p =
      same_policy ips macs s (poll env entries now s).1 (poll-policy entries now s) p
  step-IsPolicy ips macs (trust_changed ip trusted actor now) s p =
      set_device_trust-IsPolicy env ips macs ip trusted actor now s p
  step-IsPolicy ips macs (marked ip delta) s p =
      same_policy ips macs s (mark_device_suspicious env ip delta s).1
        (mark_device_suspicious-policy env ip delta s) p

  runs-IsPolicy :
      (ips macs : List String) (os : List Operation) (s : Tracker)
      → IsPolicy ips macs s
      → IsPolicy ips macs (runs os s)
  unfolding runs
  runs-IsPolicy ips macs [] s p = p
  runs-IsPolicy ips macs (o ∷ os) s p =
      runs-IsPolicy ips macs os (step o s) (step-IsPolicy ips macs o s p)

IsPolicy-trusted :
    (ips macs : List String) (s : Tracker) (ip mac : String)
    → IsPolicy ips macs s
    → (elem ip ips || elem (candidate_mac ip mac s) macs) ≡ true
    → is_trusted_device ip mac s ≡ true
unfolding is_trusted_device
IsPolicy-trusted ips macs s ip mac p h =
    rw p.trusted_ips (ground (arith, h, p.trusted_macs (candidate_mac ip mac s)))

-- Whatever devices the database returned at the start, whatever the network shows and the operator
-- does then, and whichever calls of the database raise: the tracker trusts each address that the
-- configuration trusts, and each identity whose MAC address, the given one or else that of the device,
-- the configuration trusts.
pub runs-trusted :
    (env : Surroundings) (ips macs : List String) (devices : List Device) (now : Datetime)
    (os : List Operation) (ip mac : String)
    → let s = runs env os (load_from_db env devices now (new_tracker ips macs)).1 in
      (elem ip ips || elem (candidate_mac ip mac s) macs) ≡ true → is_trusted_device ip mac s ≡ true
runs-trusted env ips macs devices now os ip mac h =
    let start : IsPolicy ips macs (new_tracker ips macs) =
      unfold new_tracker in
      record {
        configured_ips = refl;
        configured_macs = refl;
        trusted_ips = refl;
        trusted_macs = λ m k. k;
      } in
    let loaded = load_from_db-IsPolicy env ips macs devices now (new_tracker ips macs) start in
    let s = runs env os (load_from_db env devices now (new_tracker ips macs)).1 in
    IsPolicy-trusted ips macs s ip mac
      (runs-IsPolicy env ips macs os (load_from_db env devices now (new_tracker ips macs)).1 loaded)
      h

-- The device after its MAC address changed, and the alert.
change_mac_lem :
    (env : Surroundings) (entry : ArpEntry) (existing : Device) (now : Datetime) (s : Tracker)
    → let r = change_mac env entry existing now s in
      (get entry.ip r.1.devices_by_ip ≡ some (with_mac env entry s existing))
      × (policy r.1 ≡ policy s)
      × ((r.0 ≡ ok (mac_change entry existing ∷ [])) ⊎ ((exc : String) × (r.0 ≡ raised exc)))
unfolding change_mac record_change with_mac
change_mac_lem env entry existing now s =
    let d = with_mac env entry s existing in
    let devices = put entry.ip d s.devices_by_ip in
    let changed : Tracker = record (record_change entry.ip entry.mac now s) {
      devices_by_ip = devices;
      ip_by_mac = put entry.mac entry.ip (remove existing.mac s.ip_by_mac);
    } in
    let stored = get-put_self entry.ip d s.devices_by_ip in
    let P = λ (r : Result (List Finding) × Tracker).
      (get entry.ip r.1.devices_by_ip ≡ some d)
      × (policy r.1 ≡ policy s)
      × ((r.0 ≡ ok (mac_change entry existing ∷ [])) ⊎ ((exc : String) × (r.0 ≡ raised exc))) in
    call_intro env P (upserted d) changed (λ s1. (ok (mac_change entry existing ∷ []), s1))
      (λ exc. (stored, refl, inr (exc, refl))) (stored, refl, inl refl)

trusted_by_device :
    (ip : String) (s s' : Tracker) (d : Device)
    → get ip s'.devices_by_ip ≡ some d
    → policy s' ≡ policy s
    → is_trusted_device ip "" s'
      ≡ (elem ip s.trusted_ips || elem d.mac s.trusted_macs || d.is_trusted)
unfolding is_trusted_device candidate_mac
trusted_by_device ip s s' d known e =
    let ips = ap (λ (q : Policy). elem ip q.2) e in
    let macs = ap (λ (q : Policy). elem d.mac q.3) e in rw known (ground (arith, ips, macs))

-- When a known address shows another MAC address, the operator's trust in the device stays behind:
-- from then on, also if the database raises, the address is trusted exactly if the configuration
-- trusts it or the new MAC address is trusted. The entry gives one alert, of the change, or the
-- exception of the database.
pub process_arp_entry-mac_change :
    (env : Surroundings) (entry : ArpEntry) (now : Datetime) (s : Tracker) (d : Device)
    → get entry.ip s.devices_by_ip ≡ some d
    → d.mac ≢ entry.mac
    → let r = process_arp_entry env entry now s in
      (is_trusted_device entry.ip "" r.1 ≡ (
        elem entry.ip s.trusted_ips
        || elem entry.mac s.trusted_macs
        || elem entry.ip s.configured_trusted_ips))
      × ((r.0 ≡ ok (mac_change entry (record d { last_seen = now }) ∷ []))
          ⊎ ((exc : String) × (r.0 ≡ raised exc)))
unfolding process_arp_entry update_device with_mac
process_arp_entry-mac_change env entry now s d known h =
    let existing : Device = record d { last_seen = now } in
    let s1 : Tracker = record s { devices_by_ip = put entry.ip existing s.devices_by_ip } in
    let c = change_mac_lem env entry existing now s1 in
    rw (known, process_arp_entry, eqb_ne d.mac entry.mac h)
      (
        trusted_by_device entry.ip s (change_mac env entry existing now s1).1
              (with_mac env entry s1 existing) c.0 c.1
            ∙ ground arith,
        c.2,
      )
