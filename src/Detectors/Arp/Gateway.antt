-- ===== src/Detectors/Arp/Gateway.antt =====
-- What the ARP detector does about the gateway's MAC address, and what an exception leaves behind.
use mathlib.Core.List.{append_assoc}
use sentinel_pi.Prelude.{
  ℕ, ◌≡◌, ◌≢◌, ◌∙◌, refl, sym, ap, String, false, Option, some, List, [], ◌∷◌, ◌++◌, eqb, eqb_refl,
  eqb_ne, string_key, if_intro, option_intro, ◌==◌,
}
use sentinel_pi.Prelude.Dict
use sentinel_pi.Models.{Alert}
use sentinel_pi.World.{Trace, Env, Result, ok, raised}
use sentinel_pi.Inventory.Tracker.{ArpEntry, Surroundings, Tracker, mark_device_suspicious}
use sentinel_pi.Detectors.Arp.{
  CapturedArp, ArpConfig, ArpDetector, is_ignored, conflicting, learn, add_claim, Outcome,
  with_alerts, then_alerts, after_marking, gateway_mac_change_alert, marking, check_conflict,
  check_gateway, check_reply, analyze_arp, poll_table, synthetic,
}

-- An alert is among those that a step gives, unless it raises.
abbrev pub IsReported : Alert → Result (List Alert) → Type 0
IsReported alert (raised message) = Unit
IsReported alert (ok alerts) =
    (before : List Alert) × (rest : List Alert) × (alerts ≡ before ++ alert ∷ rest)

-- What the detector is told of.
pub data Input : Type 0 where
  captured : CapturedArp → Trace → Input
  polled : List ArpEntry → Trace → Input

-- A step that leaves a property of the detector as it was, whatever it gives.
abbrev pub Keeps : (ArpDetector → Type 0) → Outcome → Type 0
Keeps P out = P out.1

with_alerts-Keeps :
    (P : ArpDetector → Type 0) (alerts : List Alert) (out : Outcome)
    → Keeps P out
    → Keeps P (with_alerts alerts out)
with_alerts-Keeps P alerts (raised message, d, s) h = h
with_alerts-Keeps P alerts (ok more, d, s) h = h

then_alerts-Keeps :
    (P : ArpDetector → Type 0) (out : Outcome) (f : ArpDetector → Tracker → Outcome)
    → Keeps P out
    → ((d : ArpDetector) (s : Tracker) → P d → Keeps P (f d s))
    → Keeps P (then_alerts out f)
then_alerts-Keeps P (raised message, d, s) f h next = h
then_alerts-Keeps P (ok alerts, d, s) f h next = with_alerts-Keeps P alerts (f d s) (next d s h)

after_marking-Keeps :
    (P : ArpDetector → Type 0) (alert : Alert) (d : ArpDetector) (out : Result (Option ℕ) × Tracker)
    → P d
    → Keeps P (after_marking alert d out)
after_marking-Keeps P alert d (raised message, s) h = h
after_marking-Keeps P alert d (ok score, s) h = h

-- What is reported by a step stays reported after the steps before it, and before the next.
with_alerts-IsReported :
    (alert : Alert) (alerts : List Alert) (out : Outcome)
    → IsReported alert out.0
    → IsReported alert (with_alerts alerts out).0
with_alerts-IsReported alert alerts (raised message, d, s) h = tt
with_alerts-IsReported alert alerts (ok more, d, s) (before, rest, e) = (
  alerts ++ before,
  rest,
  ap (λ xs. alerts ++ xs) e ∙ sym (append_assoc alerts before (alert ∷ rest)),
)

with_alerts-IsReported_first :
    (alert : Alert) (more : List Alert) (out : Outcome)
    → IsReported alert (with_alerts (alert ∷ more) out).0
with_alerts-IsReported_first alert more (raised message, d, s) = tt
with_alerts-IsReported_first alert more (ok alerts, d, s) = ([], more ++ alerts, refl)

pub then_alerts-first :
    (alert : Alert) (d : ArpDetector) (marked : Result (Option ℕ) × Tracker)
    (f : ArpDetector → Tracker → Outcome)
    → IsReported alert (then_alerts (after_marking alert d marked) f).0
then_alerts-first alert d (raised message, s) f = tt
then_alerts-first alert d (ok score, s) f = with_alerts-IsReported_first alert [] (f d s)

then_alerts-next :
    (P : ArpDetector → Type 0) (alert : Alert) (out : Outcome) (f : ArpDetector → Tracker → Outcome)
    → Keeps P out
    → ((d : ArpDetector) (s : Tracker) → P d → IsReported alert (f d s).0)
    → IsReported alert (then_alerts out f).0
then_alerts-next P alert (raised message, d, s) f h next = tt
then_alerts-next P alert (ok alerts, d, s) f h next =
    with_alerts-IsReported alert alerts (f d s) (next d s h)

module _ (env : Env) (surroundings : Surroundings) where
  -- The steps on any property that their changes of the state keep.
  pub check_conflict-Keeps :
      (P : ArpDetector → Type 0) (arp : CapturedArp) (t : Trace) (d : ArpDetector) (s : Tracker)
      → P d
      → ((cs : Dict.Dict String (List String)) → P (record d { conflicts = cs }))
      → Keeps P (check_conflict env surroundings arp t d s)
  unfolding check_conflict marking
  check_conflict-Keeps P arp t d s h changed =
      option_intro (Keeps P) (conflicting arp d) h (λ known.
        after_marking-Keeps P _ _ (mark_device_suspicious surroundings arp.src_ip 500 s)
          (changed (add_claim arp.src_ip arp.src_mac d.conflicts)))

  -- The detector has a configuration and knows a MAC address of the gateway.
  abbrev IsKnown : ArpConfig → String → ArpDetector → Type 0
  IsKnown config mac d = (d.config ≡ config) × (d.known_gateway_mac ≡ some mac)

  check_gateway-IsKnown :
      (config : ArpConfig) (mac : String) (arp : CapturedArp) (t : Trace) (d : ArpDetector)
      (s : Tracker)
      → IsKnown config mac d
      → Keeps (IsKnown config mac) (check_gateway env surroundings arp t d s)
  unfolding check_gateway marking
  check_gateway-IsKnown config mac arp t d s h =
      if_intro (Keeps (IsKnown config mac)) (eqb arp.src_ip d.config.gateway_ip)
        (λ _. rw h.1 (
          if_intro (Keeps (IsKnown config mac)) (eqb mac arp.src_mac) (λ _. h)
            (λ _.
              after_marking-Keeps (IsKnown config mac) _ d
                (mark_device_suspicious surroundings arp.src_ip 1000 s) h)))
        (λ _. h)

  check_reply-IsKnown :
      (config : ArpConfig) (mac : String) (arp : CapturedArp) (t : Trace) (d : ArpDetector)
      (s : Tracker)
      → IsKnown config mac d
      → Keeps (IsKnown config mac) (check_reply env surroundings arp t d s)
  unfolding check_reply learn
  check_reply-IsKnown config mac arp t d s h =
      if_intro (Keeps (IsKnown config mac)) (arp.op == 2) (λ _. h) (λ _. h)

  analyze_arp-IsKnown :
      (config : ArpConfig) (mac : String) (arp : CapturedArp) (t : Trace) (d : ArpDetector)
      (s : Tracker)
      → IsKnown config mac d
      → Keeps (IsKnown config mac) (analyze_arp env surroundings arp t d s)
  unfolding analyze_arp
  analyze_arp-IsKnown config mac arp t d s h =
      if_intro (Keeps (IsKnown config mac)) (is_ignored d.config arp) (λ _. h)
        (λ _.
          then_alerts-Keeps (IsKnown config mac) (check_conflict env surroundings arp t d s) _
            (check_conflict-Keeps (IsKnown config mac) arp t d s h (λ _. h))
            (λ d1 s1 h1.
              then_alerts-Keeps (IsKnown config mac) (check_gateway env surroundings arp t d1 s1) _
                (check_gateway-IsKnown config mac arp t d1 s1 h1)
                (λ d2 s2 h2. check_reply-IsKnown config mac arp t d2 s2 h2)))

  poll_table-IsKnown :
      (config : ArpConfig) (mac : String) (entries : List ArpEntry) (t : Trace) (d : ArpDetector)
      (s : Tracker)
      → IsKnown config mac d
      → Keeps (IsKnown config mac) (poll_table env surroundings entries t d s)
  unfolding poll_table
  poll_table-IsKnown config mac [] t d s h = h
  poll_table-IsKnown config mac (entry ∷ entries) t d s h =
      then_alerts-Keeps (IsKnown config mac)
        (analyze_arp env surroundings (synthetic env surroundings entry (env.clock t)) t d s)
        (poll_table env surroundings entries t)
        (analyze_arp-IsKnown config mac (synthetic env surroundings entry (env.clock t)) t d s h)
        (λ d1 s1 h1. poll_table-IsKnown config mac entries t d1 s1 h1)

  -- The detector and the inventory after all that they are told. What is raised is logged by the
  -- threads that call the detector, and they go on.
  unfoldable pub runs : List Input → ArpDetector × Tracker → ArpDetector × Tracker
  runs [] state = state
  runs (captured arp t ∷ inputs) (d, s) =
      let (_, d', s') = analyze_arp env surroundings arp t d s in runs inputs (d', s')
  runs (polled entries t ∷ inputs) (d, s) =
      let (_, d', s') = poll_table env surroundings entries t d s in runs inputs (d', s')

  runs-IsKnown :
      (config : ArpConfig) (mac : String) (inputs : List Input) (d : ArpDetector) (s : Tracker)
      → IsKnown config mac d
      → IsKnown config mac (runs inputs (d, s)).0
  unfolding runs
  runs-IsKnown config mac [] d s h = h
  runs-IsKnown config mac (captured arp t ∷ inputs) d s h =
      runs-IsKnown config mac inputs _ _ (analyze_arp-IsKnown config mac arp t d s h)
  runs-IsKnown config mac (polled entries t ∷ inputs) d s h =
      runs-IsKnown config mac inputs _ _ (poll_table-IsKnown config mac entries t d s h)

  check_gateway-IsReported :
      (mac : String) (arp : CapturedArp) (t : Trace) (d : ArpDetector) (s : Tracker)
      (f : ArpDetector → Tracker → Outcome)
      → d.config.gateway_ip ≡ arp.src_ip
      → d.known_gateway_mac ≡ some mac
      → mac ≢ arp.src_mac
      → IsReported
          (gateway_mac_change_alert env surroundings arp mac t)
          (then_alerts (check_gateway env surroundings arp t d s) f).0
  unfolding check_gateway marking
  check_gateway-IsReported mac arp t d s f here h ne =
      rw (check_gateway, here, h, eqb_refl arp.src_ip, eqb_ne mac arp.src_mac ne)
        (then_alerts-first (gateway_mac_change_alert env surroundings arp mac t) d
          (mark_device_suspicious surroundings arp.src_ip 1000 s) f)

  -- Once the detector knows the gateway's MAC address, it keeps it: whatever is captured and polled
  -- then, and whichever writes of the database raise, each packet from the gateway's address with
  -- another MAC address that is not ignored gives the alert of a changed gateway, or the exception
  -- of the database.
  pub runs-gateway :
      (mac : String) (inputs : List Input) (arp : CapturedArp) (t : Trace) (d : ArpDetector)
      (s : Tracker)
      → d.config.gateway_ip ≡ arp.src_ip
      → d.known_gateway_mac ≡ some mac
      → is_ignored d.config arp ≡ false
      → mac ≢ arp.src_mac
      → let (d', s') = runs inputs (d, s) in
        IsReported
          (gateway_mac_change_alert env surroundings arp mac t)
          (analyze_arp env surroundings arp t d' s').0
  unfolding analyze_arp
  runs-gateway mac inputs arp t d s here knows heard ne =
      let (d', s') = runs inputs (d, s) in
      let known = runs-IsKnown d.config mac inputs d s (refl, knows) in
      let alert = gateway_mac_change_alert env surroundings arp mac t in
      let still : is_ignored d'.config arp ≡ false =
        ap (λ config. is_ignored config arp) known.0 ∙ heard in
      if_intro (λ (out : Outcome). IsReported alert out.0) (is_ignored d'.config arp)
        (λ e. absurd cc)
        (λ _.
          then_alerts-next (IsKnown d.config mac) alert
            (check_conflict env surroundings arp t d' s')
            (λ d1 s1.
              then_alerts (check_gateway env surroundings arp t d1 s1)
                (check_reply env surroundings arp t))
            (check_conflict-Keeps (IsKnown d.config mac) arp t d' s' known (λ _. known))
            (λ d1 s1 h1.
              check_gateway-IsReported mac arp t d1 s1 (check_reply env surroundings arp t)
                (ap (λ config. config.gateway_ip) h1.0 ∙ here) h1.1 ne))
