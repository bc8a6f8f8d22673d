-- ===== src/Detectors/Profiles/Hosts/Steps.antt =====
-- One observation of a host profile, and two after each other.
use sentinel_pi.Prelude.{
  ℕ, ◌≡◌, refl, ap, String, Bool, true, Option, List, [], ◌∷◌, string_key, nat_key, pair_key,
  if_intro,
}
use sentinel_pi.Models.{Alert}
use sentinel_pi.Network.{Address, Subnet}
use sentinel_pi.World.{Trace, Env, Result, ok, raised}
use sentinel_pi.Inventory.Tracker.{Tracker, is_trusted_device}
use sentinel_pi.Detectors.Profiles.{Moment, observe, ProfileConfig, reported}
use sentinel_pi.Detectors.Profiles.Held.{IsHeld, observe-IsHeld, held-IsQuiet, observe-ok}
use sentinel_pi.Detectors.Profiles.Hosts.{
  Dimension, dimension_name, HostProfiles, Outcome, with_alerts, then_observe, profile_alert,
  observe_dimension,
}

with_alerts-keeps :
    (P : HostProfiles → Type 0) (alerts : List Alert) (out : Outcome)
    → P out.1
    → P (with_alerts alerts out).1
with_alerts-keeps P alerts (raised message, p) h = h
with_alerts-keeps P alerts (ok more, p) h = h

with_alerts-ok :
    (Q : HostProfiles → Type 0) (xs : List Alert) (out : Outcome) (alerts : List Alert)
    → (with_alerts xs out).0 ≡ ok alerts
    → ((ys : List Alert) → out.0 ≡ ok ys → Q out.1)
    → Q (with_alerts xs out).1
with_alerts-ok Q xs (raised message, p) alerts e h = absurd cc
with_alerts-ok Q xs (ok ys, p) alerts e h = h ys refl

with_alerts-none : (out : Outcome) → out.0 ≡ ok [] → (with_alerts [] out).0 ≡ ok []
with_alerts-none (raised message, p) e = absurd cc
with_alerts-none (ok ys, p) e = e

pub then_observe-keeps :
    (P : HostProfiles → Type 0) (out : Outcome) (f : HostProfiles → Outcome)
    → P out.1
    → ((p : HostProfiles) → P p → P (f p).1)
    → P (then_observe out f).1
then_observe-keeps P (raised message, p) f h next = h
then_observe-keeps P (ok alerts, p) f h next = with_alerts-keeps P alerts (f p) (next p h)

-- Two observations that give alerts.
pub then_observe-ok :
    (P Q : HostProfiles → Type 0) (out : Outcome) (f : HostProfiles → Outcome) (alerts : List Alert)
    → (then_observe out f).0 ≡ ok alerts
    → ((xs : List Alert) → out.0 ≡ ok xs → P out.1)
    → ((p : HostProfiles) (ys : List Alert) → P p → (f p).0 ≡ ok ys → Q (f p).1)
    → Q (then_observe out f).1
then_observe-ok P Q (raised message, p) f alerts e first second = absurd cc
then_observe-ok P Q (ok xs, p) f alerts e first second =
    with_alerts-ok Q xs (f p) alerts e (λ ys. second p ys (first xs refl))

-- Two observations that give nothing.
pub then_observe-none :
    (P : HostProfiles → Type 0) (out : Outcome) (f : HostProfiles → Outcome)
    → out.0 ≡ ok []
    → P out.1
    → ((p : HostProfiles) → P p → (f p).0 ≡ ok [])
    → (then_observe out f).0 ≡ ok []
then_observe-none P (raised message, p) f e h next = absurd cc
then_observe-none P (ok (a ∷ xs), p) f e h next = absurd cc
then_observe-none P (ok [], p) f e h next = with_alerts-none (f p) (next p h)

reported-ok :
    (r : Result (Option ℕ)) (alert : ℕ → Alert) (alerts : List Alert)
    → reported r alert ≡ ok alerts
    → (o : Option ℕ) × (r ≡ ok o)
reported-ok (raised message) alert alerts e = absurd cc
reported-ok (ok o) alert alerts e = (o, refl)

module _ (env : Env) (ip_address : String → Option Address) (ip_network : String → Option Subnet)
    (config : ProfileConfig) where
  pub observe_dimension-IsHeld :
      (h : String × String) (v : String) (test : Bool) (src : String) (dim : Dimension)
      (value : String) (min : ℕ) (m : Moment) (s : Tracker) (t : Trace) (p : HostProfiles)
      → IsHeld h v p
      → IsHeld h v
          (observe_dimension env ip_address ip_network config test src dim value min m s t p).1
  unfolding observe_dimension
  observe_dimension-IsHeld h v test src dim value min m s t p held =
      if_intro (λ (out : Outcome). IsHeld h v out.1) test
        (λ _.
          observe-IsHeld h (src, dimension_name dim) v value min (is_trusted_device src "" s) m p
            held)
        (λ _. held)

  -- A dimension that is looked at has its value in memory.
  abbrev IsCovered : Bool → String → Dimension → String → HostProfiles → Type 0
  IsCovered test src dim value p = test ≡ true → IsHeld (src, dimension_name dim) value p

  pub observe_dimension-ok :
      (test : Bool) (src : String) (dim : Dimension) (value : String) (min : ℕ) (m : Moment)
      (s : Tracker) (t : Trace) (p : HostProfiles) (alerts : List Alert)
      → (observe_dimension env ip_address ip_network config test src dim value min m s t p).0
        ≡ ok alerts
      → IsCovered test src dim value
          (observe_dimension env ip_address ip_network config test src dim value min m s t p).1
  unfolding observe_dimension
  observe_dimension-ok test src dim value min m s t p alerts =
      let P : Outcome → Type 0 = λ out. out.0 ≡ ok alerts → IsCovered test src dim value out.1 in
      let trusted = is_trusted_device src "" s in
      let key : String × String = (src, dimension_name dim) in
      if_intro P test
        (λ _ e _.
          let (o, good) = reported-ok (observe min trusted key value m p).0 _ alerts e in
          observe-ok key value min trusted m p o good)
        (λ off _ on. absurd cc)

  pub observe_dimension-none :
      (test : Bool) (src : String) (dim : Dimension) (value : String) (min : ℕ) (m : Moment)
      (s : Tracker) (t : Trace) (p : HostProfiles)
      → IsCovered test src dim value p
      → (observe_dimension env ip_address ip_network config test src dim value min m s t p).0
        ≡ ok []
  unfolding observe_dimension
  observe_dimension-none test src dim value min m s t p covered =
      let key : String × String = (src, dimension_name dim) in
      if_intro (λ (out : Outcome). out.0 ≡ ok []) test
        (λ on.
          ap
            (λ r.
              reported r
                (λ known. profile_alert env ip_address ip_network config src dim value known s t))
            (held-IsQuiet key value min (is_trusted_device src "" s) m p (covered on)))
        (λ _. refl)
