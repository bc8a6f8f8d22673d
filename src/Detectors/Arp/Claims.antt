-- ===== src/Detectors/Arp/Claims.antt =====
-- What the ARP detector holds of an address is the last claim on it.
use sentinel_pi.Prelude.{
  ◌≡◌, ◌≢◌, ◌∙◌, refl, sym, ap, subst, ℕ, ◌+◌, min, String-discrete, String, true, false, ◌&&◌, not,
  Option, none, some, List, [], ◌∷◌, ◌++◌, eqb, eqb_refl, eqb_ne, string_key, if◌then◌else◌,
  if_intro, option_intro, ◌==◌,
}
use sentinel_pi.Prelude.Dict
use sentinel_pi.Prelude.Dict.{get-put_self, get-put_ne}
use sentinel_pi.Models.{Alert}
use sentinel_pi.World.{Trace, Env, Result, ok, raised}
use sentinel_pi.Inventory.Tracker.{
  ArpEntry, Surroundings, Tracker, mark_device_suspicious, Device, DbCall, upserted, call,
}
use sentinel_pi.Detectors.Arp.{
  CapturedArp, ArpConfig, ArpDetector, is_ignored, conflicting, learn, add_claim, Outcome,
  with_alerts, then_alerts, after_marking, conflict_alert, marking, check_conflict, check_gateway,
  check_reply, analyze_arp, poll_table, synthetic,
}
use sentinel_pi.Detectors.Arp.Gateway.{Input, captured, polled, IsReported, runs, then_alerts-first}

-- The writes of the database do not raise.
abbrev pub IsUp : Surroundings → Type 0
IsUp surroundings = (calls : List DbCall) (c : DbCall) → surroundings.db_error calls c ≡ none

-- The MAC address of the last packet from an address that is not ignored, or else what was known.
unfoldable pub last_claim : ArpConfig → String → List CapturedArp → Option String → Option String
last_claim config ip [] known = known
last_claim config ip (arp ∷ rest) known =
    last_claim config ip rest
      (if not (is_ignored config arp) && eqb arp.src_ip ip then some arp.src_mac else known)

last_claim-append :
    (config : ArpConfig) (ip : String) (xs ys : List CapturedArp) (known : Option String)
    → last_claim config ip (xs ++ ys) known
      ≡ last_claim config ip ys (last_claim config ip xs known)
unfolding last_claim
last_claim-append config ip [] ys known = refl
last_claim-append config ip (arp ∷ xs) ys known = last_claim-append config ip xs ys _

-- A step that gives alerts, with a property of the detector then.
abbrev Succeeds : (ArpDetector → Type 0) → Outcome → Type 0
Succeeds P (raised message, d, s) = ⊥
Succeeds P (ok alerts, d, s) = P d

with_alerts-Succeeds :
    (P : ArpDetector → Type 0) (alerts : List Alert) (out : Outcome)
    → Succeeds P out
    → Succeeds P (with_alerts alerts out)
with_alerts-Succeeds P alerts (raised message, d, s) h = h
with_alerts-Succeeds P alerts (ok more, d, s) h = h

then_alerts-Succeeds :
    (P Q : ArpDetector → Type 0) (out : Outcome) (f : ArpDetector → Tracker → Outcome)
    → Succeeds Q out
    → ((d : ArpDetector) (s : Tracker) → Q d → Succeeds P (f d s))
    → Succeeds P (then_alerts out f)
then_alerts-Succeeds P Q (raised message, d, s) f h next = h
then_alerts-Succeeds P Q (ok alerts, d, s) f h next =
    with_alerts-Succeeds P alerts (f d s) (next d s h)

after_marking-Succeeds :
    (P : ArpDetector → Type 0) (alert : Alert) (d : ArpDetector) (out : Result (Option ℕ) × Tracker)
    (score : Option ℕ)
    → P d
    → out.0 ≡ ok score
    → Succeeds P (after_marking alert d out)
after_marking-Succeeds P alert d (raised message, s) score h e = absurd cc
after_marking-Succeeds P alert d (ok given, s) score h e = h

Succeeds-state : (P : ArpDetector → Type 0) (out : Outcome) → Succeeds P out → P out.1
Succeeds-state P (raised message, d, s) h = absurd h
Succeeds-state P (ok alerts, d, s) h = h

-- The detector holds a MAC address of `ip`, under a configuration.
abbrev Holds : ArpConfig → String → Option String → ArpDetector → Type 0
Holds config ip known d = (d.config ≡ config) × (Dict.get ip d.ip_to_mac ≡ known)

module _ (env : Env) (surroundings : Surroundings) where
  -- The packets that stand for the ARP table, and all packets that the detector is told of.
  unfoldable pub replies : List ArpEntry → Trace → List CapturedArp
  replies [] t = []
  replies (entry ∷ entries) t = synthetic env surroundings entry (env.clock t) ∷ replies entries t

  unfoldable pub packets : List Input → List CapturedArp
  unfolding replies
  packets [] = []
  packets (captured arp t ∷ inputs) = arp ∷ packets inputs
  packets (polled entries t ∷ inputs) = replies entries t ++ packets inputs

module _ (env : Env) (surroundings : Surroundings) (up : IsUp surroundings) where
  -- Marking a device succeeds.
  mark_device_suspicious-ok :
      (ip : String) (delta : ℕ) (s : Tracker)
      → (score : Option ℕ) × ((mark_device_suspicious surroundings ip delta s).0 ≡ ok score)
  unfolding mark_device_suspicious call
  mark_device_suspicious-ok ip delta s =
      option_intro (λ (out : Result (Option ℕ) × Tracker). (score : Option ℕ) × (out.0 ≡ ok score))
        (Dict.get ip s.devices_by_ip) (none, refl)
        (λ device.
          let score = min (device.suspicion_score + delta) 10000 in
          let marked : Device = record device {
            suspicion_score = score;
            alert_count = device.alert_count + 1;
          } in
          (some score, rw (call, up s.calls (upserted marked)) refl))

  marking-Succeeds :
      (P : ArpDetector → Type 0) (ip : String) (delta : ℕ) (alert : Alert) (d : ArpDetector)
      (s : Tracker)
      → P d
      → Succeeds P (marking env surroundings ip delta alert d s)
  unfolding marking
  marking-Succeeds P ip delta alert d s h =
      let (score, e) = mark_device_suspicious-ok ip delta s in
      after_marking-Succeeds P alert d (mark_device_suspicious surroundings ip delta s) score h e

  ignored-Holds :
      (ip : String) (known : Option String) (arp : CapturedArp) (d : ArpDetector)
      → is_ignored d.config arp ≡ true
      → Holds d.config ip known d
      → Holds d.config ip (last_claim d.config ip (arp ∷ []) known) d
  unfolding last_claim
  ignored-Holds ip known arp d e h = (refl, rw e h.1)

  learn-Holds :
      (ip : String) (known : Option String) (arp : CapturedArp) (d d' : ArpDetector)
      → is_ignored d.config arp ≡ false
      → Holds d.config ip known d'
      → Holds d.config ip (last_claim d.config ip (arp ∷ []) known) (learn arp d')
  unfolding learn last_claim
  learn-Holds ip known arp d d' heard h = (
    h.0,
    elim (String-discrete ip arp.src_ip) [
      | yes e ↦ rw (heard, sym e, eqb_refl ip) (get-put_self ip arp.src_mac d'.ip_to_mac)
      | no ne ↦
          rw (heard, eqb_ne arp.src_ip ip (λ p. ne (sym p)))
            (get-put_ne arp.src_ip ip arp.src_mac d'.ip_to_mac ne ∙ h.1)
    ],
  )

  analyze_arp-Holds :
      (ip : String) (known : Option String) (arp : CapturedArp) (t : Trace) (d : ArpDetector)
      (s : Tracker)
      → Holds d.config ip known d
      → Succeeds
          (Holds d.config ip (last_claim d.config ip (arp ∷ []) known))
          (analyze_arp env surroundings arp t d s)
  unfolding analyze_arp check_conflict check_gateway check_reply
  analyze_arp-Holds ip known arp t d s h =
      let Q = Holds d.config ip known in
      let P = Holds d.config ip (last_claim d.config ip (arp ∷ []) known) in
      if_intro (Succeeds P) (is_ignored d.config arp) (λ e. ignored-Holds ip known arp d e h)
        (λ e.
          then_alerts-Succeeds P Q (check_conflict env surroundings arp t d s)
            (λ d1 s1.
              then_alerts (check_gateway env surroundings arp t d1 s1)
                (check_reply env surroundings arp t))
            (option_intro (Succeeds Q) (conflicting arp d) h
              (λ was. marking-Succeeds Q arp.src_ip 500 _ _ s h))
            (λ d1 s1 h1.
              then_alerts-Succeeds P Q (check_gateway env surroundings arp t d1 s1)
                (check_reply env surroundings arp t)
                (if_intro (Succeeds Q) (eqb arp.src_ip d1.config.gateway_ip)
                  (λ _. option_intro (Succeeds Q) d1.known_gateway_mac h1 (λ old.
                    if_intro (Succeeds Q) (eqb old arp.src_mac) (λ _. h1)
                      (λ _. marking-Succeeds Q arp.src_ip 1000 _ d1 s1 h1)))
                  (λ _. h1))
                (λ d2 s2 h2.
                  if_intro (Succeeds P) (arp.op == 2) (λ _. learn-Holds ip known arp d d2 e h2)
                    (λ _. learn-Holds ip known arp d d2 e h2))))

  poll_table-Holds :
      (ip : String) (known : Option String) (entries : List ArpEntry) (t : Trace) (d : ArpDetector)
      (s : Tracker)
      → Holds d.config ip known d
      → Succeeds
          (Holds d.config ip (last_claim d.config ip (replies env surroundings entries t) known))
          (poll_table env surroundings entries t d s)
  unfolding poll_table last_claim replies
  poll_table-Holds ip known [] t d s h = h
  poll_table-Holds ip known (entry ∷ entries) t d s h =
      let arp = synthetic env surroundings entry (env.clock t) in
      let middle = last_claim d.config ip (arp ∷ []) known in
      let config = d.config in
      then_alerts-Succeeds
        (Holds config ip (last_claim config ip (replies env surroundings entries t) middle))
        (Holds config ip middle) (analyze_arp env surroundings arp t d s)
        (poll_table env surroundings entries t) (analyze_arp-Holds ip known arp t d s h)
        (λ d1 s1 h1.
          subst
            (λ c.
              Succeeds (Holds c ip (last_claim c ip (replies env surroundings entries t) middle))
                (poll_table env surroundings entries t d1 s1))
            h1.0 (poll_table-Holds ip middle entries t d1 s1 (refl, h1.1)))

  runs-Holds :
      (ip : String) (known : Option String) (inputs : List Input) (d : ArpDetector) (s : Tracker)
      → Holds d.config ip known d
      → Holds d.config ip
          (last_claim d.config ip (packets env surroundings inputs) known)
          (runs env surroundings inputs (d, s)).0
  unfolding runs packets last_claim
  runs-Holds ip known [] d s h = h
  runs-Holds ip known (captured arp t ∷ inputs) d s h =
      let (_, d1, s1) = analyze_arp env surroundings arp t d s in
      let middle = last_claim d.config ip (arp ∷ []) known in
      let h1 =
        Succeeds-state (Holds d.config ip middle) (analyze_arp env surroundings arp t d s)
          (analyze_arp-Holds ip known arp t d s h) in
      subst
        (λ c.
          Holds c ip (last_claim c ip (packets env surroundings inputs) middle)
            (runs env surroundings inputs (d1, s1)).0)
        h1.0 (runs-Holds ip middle inputs d1 s1 (refl, h1.1))
  runs-Holds ip known (polled entries t ∷ inputs) d s h =
      let (_, d1, s1) = poll_table env surroundings entries t d s in
      let middle = last_claim d.config ip (replies env surroundings entries t) known in
      let h1 =
        Succeeds-state (Holds d.config ip middle) (poll_table env surroundings entries t d s)
          (poll_table-Holds ip known entries t d s h) in
      rw
        (last_claim-append d.config ip (replies env surroundings entries t)
          (packets env surroundings inputs) known)
        (subst
          (λ c.
            Holds c ip (last_claim c ip (packets env surroundings inputs) middle)
              (runs env surroundings inputs (d1, s1)).0)
          h1.0 (runs-Holds ip middle inputs d1 s1 (refl, h1.1)))

  conflicting-some :
      (arp : CapturedArp) (d : ArpDetector) (was : String)
      → Dict.get arp.src_ip d.ip_to_mac ≡ some was
      → was ≢ ""
      → was ≢ arp.src_mac
      → conflicting arp d ≡ some was
  unfolding conflicting
  conflicting-some arp d was held full ne =
      rw (conflicting, held, eqb_ne was "" full, eqb_ne was arp.src_mac ne) refl

  analyze_arp-IsReported :
      (arp : CapturedArp) (t : Trace) (d : ArpDetector) (s : Tracker) (was : String)
      → is_ignored d.config arp ≡ false
      → conflicting arp d ≡ some was
      → IsReported
          (conflict_alert env surroundings d.config arp was t)
          (analyze_arp env surroundings arp t d s).0
  unfolding analyze_arp check_conflict marking
  analyze_arp-IsReported arp t d s was heard e =
      rw (analyze_arp, heard, check_conflict, e)
        (then_alerts-first (conflict_alert env surroundings d.config arp was t)
          (record d { conflicts = add_claim arp.src_ip arp.src_mac d.conflicts })
          (mark_device_suspicious surroundings arp.src_ip 500 s)
          (λ d1 s1.
            then_alerts (check_gateway env surroundings arp t d1 s1)
              (check_reply env surroundings arp t)))

  -- While the database does not raise, what the detector holds of an address is the last claim on it
  -- that was captured or polled, or else what it held at the start. So a packet that claims another
  -- MAC address than the packet before it is reported as a conflict.
  pub runs-last_claim :
      (inputs : List Input) (arp : CapturedArp) (t : Trace) (was : String) (d : ArpDetector)
      (s : Tracker)
      → last_claim d.config arp.src_ip
          (packets env surroundings inputs)
          (Dict.get arp.src_ip d.ip_to_mac)
        ≡ some was
      → is_ignored d.config arp ≡ false
      → was ≢ ""
      → was ≢ arp.src_mac
      → let (d', s') = runs env surroundings inputs (d, s) in
        (Dict.get arp.src_ip d'.ip_to_mac ≡ some was)
        × IsReported
            (conflict_alert env surroundings d.config arp was t)
            (analyze_arp env surroundings arp t d' s').0
  runs-last_claim inputs arp t was d s e heard full ne =
      let (d', s') = runs env surroundings inputs (d, s) in
      let h = runs-Holds arp.src_ip (Dict.get arp.src_ip d.ip_to_mac) inputs d s (refl, refl) in
      let held : Dict.get arp.src_ip d'.ip_to_mac ≡ some was = h.1 ∙ e in
      (
        held,
        subst
            (λ c.
              IsReported (conflict_alert env surroundings c arp was t)
                (analyze_arp env surroundings arp t d' s').0)
            h.0
            (analyze_arp-IsReported arp t d' s' was (ap (λ c. is_ignored c arp) h.0 ∙ heard)
              (conflicting-some arp d' was held full ne)),
      )
