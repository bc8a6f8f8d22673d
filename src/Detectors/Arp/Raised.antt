-- ===== src/Detectors/Arp/Raised.antt =====
-- What an exception of the database leaves of the ARP detector's state.
use sentinel_pi.Prelude.{
  ℕ, ◌≡◌, refl, String, Option, List, eqb, string_key, ◌==◌, if_intro, option_intro,
}
use sentinel_pi.Models.{Alert}
use sentinel_pi.World.{Trace, Env, Result, ok, raised}
use sentinel_pi.Inventory.Tracker.{Surroundings, Tracker, mark_device_suspicious}
use sentinel_pi.Detectors.Arp.{
  CapturedArp, ArpDetector, is_ignored, conflicting, add_claim, Outcome, with_alerts, then_alerts,
  after_marking, marking, check_conflict, check_gateway, check_reply, analyze_arp,
}
use sentinel_pi.Detectors.Arp.Gateway.{Keeps, check_conflict-Keeps}

-- The detector has learnt nothing: apart from the claims that it collects, it is as it was.
abbrev pub HasLearntNothing : ArpDetector → ArpDetector → Type 0
HasLearntNothing d d' =
    (d'.config ≡ d.config)
    × (d'.ip_to_mac ≡ d.ip_to_mac)
    × (d'.mac_to_ip ≡ d.mac_to_ip)
    × (d'.reply_times ≡ d.reply_times)
    × (d'.known_gateway_mac ≡ d.known_gateway_mac)

-- A property of the detector where a step raises.
abbrev OnRaise : (ArpDetector → Type 0) → Outcome → Type 0
OnRaise P (raised message, d, s) = P d
OnRaise P (ok alerts, d, s) = Unit

with_alerts-OnRaise :
    (P : ArpDetector → Type 0) (alerts : List Alert) (out : Outcome)
    → OnRaise P out
    → OnRaise P (with_alerts alerts out)
with_alerts-OnRaise P alerts (raised message, d, s) h = h
with_alerts-OnRaise P alerts (ok more, d, s) h = tt

then_alerts-OnRaise :
    (P Q : ArpDetector → Type 0) (out : Outcome) (f : ArpDetector → Tracker → Outcome)
    → OnRaise P out
    → Keeps Q out
    → ((d : ArpDetector) (s : Tracker) → Q d → OnRaise P (f d s))
    → OnRaise P (then_alerts out f)
then_alerts-OnRaise P Q (raised message, d, s) f h kept next = h
then_alerts-OnRaise P Q (ok alerts, d, s) f h kept next =
    with_alerts-OnRaise P alerts (f d s) (next d s kept)

after_marking-OnRaise :
    (P : ArpDetector → Type 0) (alert : Alert) (d : ArpDetector) (out : Result (Option ℕ) × Tracker)
    → P d
    → OnRaise P (after_marking alert d out)
after_marking-OnRaise P alert d (raised message, s) h = h
after_marking-OnRaise P alert d (ok score, s) h = tt

OnRaise-raised :
    (P : ArpDetector → Type 0) (out : Outcome) (message : String)
    → OnRaise P out
    → out.0 ≡ raised message
    → P out.1
OnRaise-raised P (raised text, d, s) message h e = h
OnRaise-raised P (ok alerts, d, s) message h e = absurd cc

conflicting-same :
    (arp : CapturedArp) (d d' : ArpDetector)
    → d'.ip_to_mac ≡ d.ip_to_mac
    → conflicting arp d' ≡ conflicting arp d
unfolding conflicting
conflicting-same arp d d' e = rw e refl

module _ (env : Env) (surroundings : Surroundings) where
  -- Counting a reply raises nothing.
  check_reply-OnRaise :
      (P : ArpDetector → Type 0) (arp : CapturedArp) (t : Trace) (d : ArpDetector) (s : Tracker)
      → OnRaise P (check_reply env surroundings arp t d s)
  unfolding check_reply
  check_reply-OnRaise P arp t d s = if_intro (OnRaise P) (arp.op == 2) (λ _. tt) (λ _. tt)

  check_gateway-OnRaise :
      (P : ArpDetector → Type 0) (arp : CapturedArp) (t : Trace) (d : ArpDetector) (s : Tracker)
      → P d
      → OnRaise P (check_gateway env surroundings arp t d s)
  unfolding check_gateway marking
  check_gateway-OnRaise P arp t d s h =
      if_intro (OnRaise P) (eqb arp.src_ip d.config.gateway_ip)
        (λ _. option_intro (OnRaise P) d.known_gateway_mac tt (λ old.
          if_intro (OnRaise P) (eqb old arp.src_mac) (λ _. tt)
            (λ _.
              after_marking-OnRaise P _ d (mark_device_suspicious surroundings arp.src_ip 1000 s)
                h)))
        (λ _. tt)

  check_conflict-OnRaise :
      (P : ArpDetector → Type 0) (arp : CapturedArp) (t : Trace) (d : ArpDetector) (s : Tracker)
      → P (record d { conflicts = add_claim arp.src_ip arp.src_mac d.conflicts })
      → OnRaise P (check_conflict env surroundings arp t d s)
  unfolding check_conflict marking
  check_conflict-OnRaise P arp t d s h =
      option_intro (OnRaise P) (conflicting arp d) tt (λ was.
        after_marking-OnRaise P _ _ (mark_device_suspicious surroundings arp.src_ip 500 s) h)

  -- If the database raises while a packet is analysed, its alerts are lost, but the detector has
  -- learnt nothing from it: the addresses, the replies and the gateway's MAC address that it knows
  -- are as before, so that the same packet is judged as it would have been.
  pub analyze_arp-raised :
      (arp : CapturedArp) (t : Trace) (d : ArpDetector) (s : Tracker) (message : String)
      → let (result, d', s') = analyze_arp env surroundings arp t d s in
        result ≡ raised message → HasLearntNothing d d' × (conflicting arp d' ≡ conflicting arp d)
  unfolding analyze_arp
  analyze_arp-raised arp t d s message e =
      let P : ArpDetector → Type 0 = λ d'. HasLearntNothing d d' in
      let d' = (analyze_arp env surroundings arp t d s).1 in
      let h =
        OnRaise-raised P (analyze_arp env surroundings arp t d s) message
          (if_intro (OnRaise P) (is_ignored d.config arp) (λ _. tt)
            (λ _.
              then_alerts-OnRaise P P (check_conflict env surroundings arp t d s)
                (λ d1 s1.
                  then_alerts (check_gateway env surroundings arp t d1 s1)
                    (check_reply env surroundings arp t))
                (check_conflict-OnRaise P arp t d s (refl, refl, refl, refl, refl))
                (check_conflict-Keeps env surroundings P arp t d s (refl, refl, refl, refl, refl)
                  (λ _. (refl, refl, refl, refl, refl)))
                (λ d1 s1 h1.
                  then_alerts-OnRaise P (λ _. Unit) (check_gateway env surroundings arp t d1 s1)
                    (check_reply env surroundings arp t) (check_gateway-OnRaise P arp t d1 s1 h1) tt
                    (λ d2 s2 _. check_reply-OnRaise P arp t d2 s2))))
          e in
      (h, conflicting-same arp d d' h.1)
