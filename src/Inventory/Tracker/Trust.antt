-- ===== src/Inventory/Tracker/Trust.antt =====
-- The trust that the configuration gives, under everything that happens to the tracker.
use sentinel_pi.Prelude.{
  ℕ, ◌≡◌, ◌⊎◌, ◌∙◌, refl, ap, String, Bool, true, false, not, ◌&&◌, Option, Option-cases, inl, inr,
  List, [], ◌∷◌, ◌++◌, keep, elem, eqb, string_key, if◌then◌else◌, if_intro, arith,
}
use sentinel_pi.Prelude.Dict.{get}
use sentinel_pi.Models.{Datetime}
use sentinel_pi.World.{Result, ok, raised}
use sentinel_pi.Inventory.Vendors.{normalize_mac}
use sentinel_pi.Inventory.Tracker.{
  Device, ArpEntry, DbCall, trust_set, Surroundings, Tracker, is_configured, record_change, call,
  announce, add_device, change_mac, update_device, process_arp_entry, process_entries, apply_trust,
  set_device_trust, mark_device_suspicious, adopt, load_device, load_from_db,
}

-- What the trust decisions rest on, apart from the devices.
abbrev pub Policy : Type 0
Policy = List String × List String × List String × List String

abbrev pub policy : Tracker → Policy
policy s = (s.configured_trusted_ips, s.configured_trusted_macs, s.trusted_ips, s.trusted_macs)

module _ (env : Surroundings) where
  pub process_arp_entry-policy :
      (entry : ArpEntry) (now : Datetime) (s : Tracker)
      → policy (process_arp_entry env entry now s).1 ≡ policy s
  unfolding process_arp_entry add_device update_device change_mac record_change announce call
  process_arp_entry-policy entry now s = ground arith

  pub process_entries-policy :
      (entries : List (ArpEntry × Datetime)) (s : Tracker)
      → policy (process_entries env entries s).1 ≡ policy s
  unfolding process_entries
  process_entries-policy [] s = refl
  process_entries-policy ((entry, now) ∷ entries) s =
      let e : ArpEntry = record entry { mac = normalize_mac entry.mac } in
      ground (
        arith,
        process_arp_entry-policy e now s,
        process_entries-policy entries (process_arp_entry env e now s).1,
      )

  pub mark_device_suspicious-policy :
      (ip : String) (delta : ℕ) (s : Tracker)
      → policy (mark_device_suspicious env ip delta s).1 ≡ policy s
  unfolding mark_device_suspicious call
  mark_device_suspicious-policy ip delta s = ground arith

-- The configured sets are as they were given, and what they trust is trusted.
pub record IsPolicy (ips macs : List String) (s : Tracker) : Type 0 where
  pub configured_ips : s.configured_trusted_ips ≡ ips
  pub configured_macs : s.configured_trusted_macs ≡ macs
  pub trusted_ips : s.trusted_ips ≡ ips
  pub trusted_macs : (m : String) → elem m macs ≡ true → elem m s.trusted_macs ≡ true

pub same_policy :
    (ips macs : List String) (s s' : Tracker)
    → policy s' ≡ policy s
    → IsPolicy ips macs s
    → IsPolicy ips macs s'
same_policy ips macs s s' e p = record {
  configured_ips = ap (λ (q : Policy). q.0) e ∙ p.configured_ips;
  configured_macs = ap (λ (q : Policy). q.1) e ∙ p.configured_macs;
  trusted_ips = ap (λ (q : Policy). q.2) e ∙ p.trusted_ips;
  trusted_macs = λ m h. ap (λ (q : Policy). elem m q.3) e ∙ p.trusted_macs m h;
}

-- The policy with other trusted addresses.
with_macs :
    (ips macs trusted : List String) (s s' : Tracker)
    → policy s' ≡ (s.configured_trusted_ips, s.configured_trusted_macs, s.trusted_ips, trusted)
    → ((m : String) → elem m macs ≡ true → elem m trusted ≡ true)
    → IsPolicy ips macs s
    → IsPolicy ips macs s'
with_macs ips macs trusted s s' e h p = record {
  configured_ips = ap (λ (q : Policy). q.0) e ∙ p.configured_ips;
  configured_macs = ap (λ (q : Policy). q.1) e ∙ p.configured_macs;
  trusted_ips = ap (λ (q : Policy). q.2) e ∙ p.trusted_ips;
  trusted_macs = λ m k. ap (λ (q : Policy). elem m q.3) e ∙ h m k;
}

elem-append_right : (m : String) (xs ys : List String) → elem m ys ≡ true → elem m (xs ++ ys) ≡ true
elem-append_right m [] ys h = h
elem-append_right m (x ∷ xs) ys h = ground (arith, elem-append_right m xs ys h)

-- To prove a predicate of what a call of the database ends in, prove it if the call raises, and of what
-- follows if it does not.
pub call_intro :
    (env : Surroundings) {A : Type 0} (P : Result A × Tracker → Type 0) (c : DbCall) (s : Tracker)
    (next : Tracker → Result A × Tracker)
    → ((exc : String) → P (raised exc, s))
    → P (next (record s { calls = c ∷ s.calls }))
    → P (call env c s next)
unfolding call
call_intro env P c s next h k = elim (Option-cases (env.db_error s.calls c)) [
  | inl e ↦ rw (e, call) k
  | inr (exc, e) ↦ rw (e, call) (h exc)
]

Result-cases :
    {A : Type 0} (r : Result A) → ((a : A) × (r ≡ ok a)) ⊎ ((exc : String) × (r ≡ raised exc))
Result-cases (ok a) = inl (a, refl)
Result-cases (raised exc) = inr (exc, refl)

-- Trust given, or taken away from what the configuration does not trust.
elem-trusted :
    (macs trusted configured : List String) (m mac : String) (give : Bool)
    → elem m macs ≡ true
    → configured ≡ macs
    → elem m trusted ≡ true
    → elem m (
        if give
        then mac ∷ trusted
        else keep (λ (x : String). not (eqb x mac)) trusted ++ configured)
      ≡ true
elem-trusted macs trusted configured m mac true h e k = ground (arith, k)
elem-trusted macs trusted configured m mac false h e k =
    elem-append_right m (keep (λ (x : String). not (eqb x mac)) trusted) configured (rw e h)

elem-added :
    (trusted : List String) (m mac : String) (add : Bool)
    → elem m trusted ≡ true
    → elem m (if add then mac ∷ trusted else trusted) ≡ true
elem-added trusted m mac add k = ground (arith, k)

module _ (env : Surroundings) (ips macs : List String) where
  apply_trust-IsPolicy :
      (d : Device) (trusted : Bool) (s : Tracker)
      → IsPolicy ips macs s
      → IsPolicy ips macs (apply_trust env d trusted s).1
  unfolding apply_trust
  apply_trust-IsPolicy d trusted s p =
      let macs' =
        if trusted
        then d.mac ∷ s.trusted_macs
        else keep (λ (m : String). not (eqb m d.mac)) s.trusted_macs ++ s.configured_trusted_macs in
      with_macs ips macs macs' s (apply_trust env d trusted s).1 refl
        (λ m h.
          elem-trusted macs s.trusted_macs s.configured_trusted_macs m d.mac trusted h
            p.configured_macs (p.trusted_macs m h))
        p

  pub set_device_trust-IsPolicy :
      (ip : String) (trusted : Bool) (actor : String) (now : Datetime) (s : Tracker)
      → IsPolicy ips macs s
      → IsPolicy ips macs (set_device_trust env ip trusted actor now s).1
  unfolding set_device_trust
  set_device_trust-IsPolicy ip trusted actor now s p =
      elim (Option-cases (get ip s.devices_by_ip)) [
        | inl e ↦ rw (e, set_device_trust) p
        | inr (d, e) ↦
            rw (e, set_device_trust)
              (if_intro (λ (r : Result (Option Device) × Tracker). IsPolicy ips macs r.1)
                (not trusted && is_configured s d.ip d.mac) (λ _. p)
                (λ _.
                  let c = trust_set ip d.mac trusted actor now in
                  let s1 : Tracker = record s { calls = c ∷ s.calls } in
                  call_intro env (λ (r : Result (Option Device) × Tracker). IsPolicy ips macs r.1) c
                    s (apply_trust env d trusted) (λ exc. p)
                    (apply_trust-IsPolicy d trusted s1 (same_policy ips macs s s1 refl p))))
      ]

  adopt-IsPolicy :
      (d : Device) (s : Tracker) → IsPolicy ips macs s → IsPolicy ips macs (adopt env d s).1
  unfolding adopt
  adopt-IsPolicy d s p =
      let added = if d.is_trusted then d.mac ∷ s.trusted_macs else s.trusted_macs in
      with_macs ips macs added s (adopt env d s).1 refl
        (λ m h. elem-added s.trusted_macs m d.mac d.is_trusted (p.trusted_macs m h)) p

  load_device-IsPolicy :
      (d : Device) (now : Datetime) (s : Tracker)
      → IsPolicy ips macs s
      → IsPolicy ips macs (load_device env d now s).1
  unfolding load_device
  load_device-IsPolicy d now s p =
      let P = λ (r : Result (Unit {0}) × Tracker). IsPolicy ips macs r.1 in
      let d' : Device = record d { is_trusted = true } in
      let c = trust_set d.ip d.mac true "configuration" now in
      let s1 : Tracker = record s { calls = c ∷ s.calls } in
      if_intro P (is_configured s d.ip d.mac && not d.is_trusted)
        (λ _.
          call_intro env P c s (adopt env d') (λ exc. p)
            (adopt-IsPolicy d' s1 (same_policy ips macs s s1 refl p)))
        (λ _. adopt-IsPolicy d s p)

  pub load_from_db-IsPolicy :
      (devices : List Device) (now : Datetime) (s : Tracker)
      → IsPolicy ips macs s
      → IsPolicy ips macs (load_from_db env devices now s).1
  unfolding load_from_db
  load_from_db-IsPolicy [] now s p = p
  load_from_db-IsPolicy (d ∷ devices) now s p =
      let one = load_device-IsPolicy d now s p in
      elim (Result-cases (load_device env d now s).0) [
        | inl (u, e) ↦
            rw (e, load_from_db) (load_from_db-IsPolicy devices now (load_device env d now s).1 one)
        | inr (exc, e) ↦ rw (e, load_from_db) one
      ]
