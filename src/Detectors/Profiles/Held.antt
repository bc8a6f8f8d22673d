-- ===== src/Detectors/Profiles/Held.antt =====
-- A value that a detector has observed stays in memory until the service is restarted.
use sentinel_pi.Prelude.{
  ℕ, ◌≡◌, refl, sym, subst, Bool, true, Option, none, List, elem, Key, if_intro, option_intro,
  Option-cases, inl, inr,
}
use sentinel_pi.Prelude.Dict
use sentinel_pi.Prelude.Dict.{Dict, get-put_self}
use sentinel_pi.World.{Result, ok, raised, Result-cases}
use sentinel_pi.Detectors.Profiles.{
  Profiles, Moment, add_value, values_of, load, observe_in, observe,
}
use sentinel_pi.Detectors.Profiles.Once.{HasValue, add_value-adds, add_value-keeps, put-HasValue}

module _ {H V : Type 0} ⦃host_key : Key H⦄ ⦃value_key : Key V⦄ where
  -- The value of a host is in memory.
  abbrev pub IsHeld : H → V → Profiles H V → Type 0
  IsHeld h v p = HasValue ⊥ v (Dict.get h p.seen)

  load-held :
      (h : H) (v : V) (m : Moment) (p : Profiles H V)
      → IsHeld h v p
      → (vs : List V) × (load h m p ≡ ok vs) × (elem v vs ≡ true)
  unfolding load
  load-held h v m p held = elim (Option-cases (Dict.get h p.seen)) [
    | inl absent ↦ absurd (subst (HasValue ⊥ v) absent held)
    | inr (vs, found) ↦ (vs, rw (load, found) refl, subst (HasValue ⊥ v) found held)
  ]

  observe_in-IsHeld :
      (h j : H) (v w : V) (min_known : ℕ) (trusted : Bool) (m : Moment) (p : Profiles H V)
      (vs : List V)
      → IsHeld h v p
      → (h ≡ j → elem v vs ≡ true)
      → IsHeld h v (observe_in min_known trusted j w m p vs).1
  unfolding observe_in
  observe_in-IsHeld h j v w min_known trusted m p vs held all =
      let P : Result (Option ℕ) × Profiles H V → Type 0 = λ out. IsHeld h v out.1 in
      let grown =
        put-HasValue ⊥ h j v (add_value w vs) p.seen held (λ e. add_value-keeps v w vs (all e)) in
      if_intro P (elem w vs) (λ _. put-HasValue ⊥ h j v vs p.seen held all)
        (λ _. option_intro P m.write_error grown (λ message. grown))

  -- What is in memory stays there until a restart, whatever is observed.
  pub observe-IsHeld :
      (h j : H) (v w : V) (min_known : ℕ) (trusted : Bool) (m : Moment) (p : Profiles H V)
      → IsHeld h v p
      → IsHeld h v (observe min_known trusted j w m p).1
  unfolding observe
  observe-IsHeld h j v w min_known trusted m p held = elim (Result-cases (load j m p)) [
    | inl (message, e) ↦ rw (observe, e) held
    | inr (vs, e) ↦
        rw (observe, e)
          (observe_in-IsHeld h j v w min_known trusted m p vs held (λ same.
            let (ws, loads, has) = load-held h v m p held in
            let here : load h m p ≡ ok vs = subst (λ i. load i m p ≡ ok vs) (sym same) e in
            let values : ws ≡ vs = cc in subst (λ us. elem v us ≡ true) values has))
  ]

  pub held-IsQuiet :
      (h : H) (v : V) (min_known : ℕ) (trusted : Bool) (m : Moment) (p : Profiles H V)
      → IsHeld h v p
      → (observe min_known trusted h v m p).0 ≡ ok none
  unfolding observe observe_in
  held-IsQuiet h v min_known trusted m p held =
      let (vs, loads, has) = load-held h v m p held in rw (observe, loads, has) refl

  load-reads :
      (h : H) (m : Moment) (p : Profiles H V)
      → m.read_error ≡ none
      → (vs : List V) × (load h m p ≡ ok vs)
  unfolding load
  load-reads h m p reads = elim (Option-cases (Dict.get h p.seen)) [
    | inl absent ↦ (values_of h p.rows, rw (load, absent, reads) refl)
    | inr (vs, found) ↦ (vs, rw (load, found) refl)
  ]

  observe_in-IsHeld_new :
      (h : H) (v : V) (min_known : ℕ) (trusted : Bool) (m : Moment) (p : Profiles H V) (vs : List V)
      → IsHeld h v (observe_in min_known trusted h v m p vs).1
  unfolding observe_in
  observe_in-IsHeld_new h v min_known trusted m p vs =
      let P : Result (Option ℕ) × Profiles H V → Type 0 = λ out. IsHeld h v out.1 in
      let held = λ (ws : List V) (has : elem v ws ≡ true).
        subst (HasValue ⊥ v) (sym (get-put_self h ws p.seen)) has in
      let added = held (add_value v vs) (add_value-adds v vs) in
      if_intro P (elem v vs) (λ has. held vs has)
        (λ _. option_intro P m.write_error added (λ message. added))

  -- Unless reading raises, a value that is observed is in memory then, whatever the write does.
  pub observe-IsHeld_new :
      (h : H) (v : V) (min_known : ℕ) (trusted : Bool) (m : Moment) (p : Profiles H V)
      → m.read_error ≡ none
      → IsHeld h v (observe min_known trusted h v m p).1
  unfolding observe
  observe-IsHeld_new h v min_known trusted m p reads =
      let (vs, loads) = load-reads h m p reads in
      rw (observe, loads) (observe_in-IsHeld_new h v min_known trusted m p vs)

  -- An observation that does not raise leaves its value in memory.
  pub observe-ok :
      (h : H) (v : V) (min_known : ℕ) (trusted : Bool) (m : Moment) (p : Profiles H V)
      (o : Option ℕ)
      → (observe min_known trusted h v m p).0 ≡ ok o
      → IsHeld h v (observe min_known trusted h v m p).1
  unfolding observe
  observe-ok h v min_known trusted m p o e = elim (Result-cases (load h m p)) [
    | inl (message, fails) ↦
        let same : (observe min_known trusted h v m p).0 ≡ raised message =
          rw (observe, fails) refl in
        absurd cc
    | inr (vs, loads) ↦ rw (observe, loads) (observe_in-IsHeld_new h v min_known trusted m p vs)
  ]
