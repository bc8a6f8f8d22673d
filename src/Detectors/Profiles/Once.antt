-- ===== src/Detectors/Profiles/Once.antt =====
-- A value of a host is reported at most once, also across restarts.
use sentinel_pi.Prelude.{
  ℕ, ◌≡◌, ◌≢◌, ◌∙◌, refl, sym, ap, subst, Bool, true, Option, none, some, List, elem, elem-head,
  elem-tail, Key, if_intro, option_intro, Option-cases, inl, inr,
}
use sentinel_pi.Prelude.Dict
use sentinel_pi.Prelude.Dict.{Dict, get-put_self, get-put_ne}
use sentinel_pi.World.{Result, ok, raised, Result-cases}
use sentinel_pi.Detectors.Profiles.{
  Profiles, Moment, add_value, values_of, insert_row, load, observe_in, observe, restart,
}

-- Nothing is reported: the observation gives no number, or raises.
abbrev pub IsQuiet : Result (Option ℕ) → Type 0
IsQuiet (raised message) = Unit
IsQuiet (ok o) = o ≡ none

module _ {V : Type 0} ⦃value_key : Key V⦄ where
  -- A set in memory has the value; `N` is said where there is none.
  abbrev pub HasValue : Type 0 → V → Option (List V) → Type 0
  HasValue N v none = N
  HasValue N v (some vs) = elem v vs ≡ true

  pub add_value-adds : (v : V) (vs : List V) → elem v (add_value v vs) ≡ true
  unfolding add_value
  add_value-adds v vs = if_intro (λ ws. elem v ws ≡ true) (elem v vs) (λ h. h) (λ _. elem-head v vs)

  pub add_value-keeps : (v w : V) (vs : List V) → elem v vs ≡ true → elem v (add_value w vs) ≡ true
  unfolding add_value
  add_value-keeps v w vs h =
      if_intro (λ ws. elem v ws ≡ true) (elem w vs) (λ _. h) (λ _. elem-tail v w vs h)

module _ {H V : Type 0} ⦃host_key : Key H⦄ ⦃value_key : Key V⦄ where
  -- The value of a host is known: in memory, if the host is there, and also in the table.
  pub record IsKnown (h : H) (v : V) (p : Profiles H V) : Type 0 where
    pub in_memory : HasValue Unit v (Dict.get h p.seen)
    pub in_table : elem v (values_of h p.rows) ≡ true

  values_of-put_self :
      (h : H) (vs : List V) (rows : Dict H (List V)) → values_of h (Dict.put h vs rows) ≡ vs
  unfolding values_of
  values_of-put_self h vs rows = rw (values_of, get-put_self h vs rows) refl

  values_of-put_ne :
      (j h : H) (vs : List V) (rows : Dict H (List V))
      → h ≢ j
      → values_of h (Dict.put j vs rows) ≡ values_of h rows
  unfolding values_of
  values_of-put_ne j h vs rows ne = rw (values_of, get-put_ne j h vs rows ne) refl

  values_of-insert_row :
      (h j : H) (v w : V) (rows : Dict H (List V))
      → elem v (values_of h rows) ≡ true
      → elem v (values_of h (insert_row j w rows)) ≡ true
  unfolding insert_row
  values_of-insert_row h j v w rows known = elim (host_key.dec h j) [
    | yes e ↦
        subst (λ i. elem v (values_of h (Dict.put i (add_value w (values_of i rows)) rows)) ≡ true)
          e
          (subst (λ vs. elem v vs ≡ true)
            (sym (values_of-put_self h (add_value w (values_of h rows)) rows))
            (add_value-keeps v w (values_of h rows) known))
    | no ne ↦
        subst (λ vs. elem v vs ≡ true)
          (sym (values_of-put_ne j h (add_value w (values_of j rows)) rows ne)) known
  ]

  insert_row-adds :
      (h : H) (v : V) (rows : Dict H (List V)) → elem v (values_of h (insert_row h v rows)) ≡ true
  unfolding insert_row
  insert_row-adds h v rows =
      subst (λ vs. elem v vs ≡ true)
        (sym (values_of-put_self h (add_value v (values_of h rows)) rows))
        (add_value-adds v (values_of h rows))

  pub put-HasValue :
      (N : Type 0) (h j : H) (v : V) (vs : List V) (seen : Dict H (List V))
      → HasValue N v (Dict.get h seen)
      → (h ≡ j → elem v vs ≡ true)
      → HasValue N v (Dict.get h (Dict.put j vs seen))
  put-HasValue N h j v vs seen old new = elim (host_key.dec h j) [
    | yes e ↦
        subst (λ i. HasValue N v (Dict.get h (Dict.put i vs seen))) e
          (subst (HasValue N v) (sym (get-put_self h vs seen)) (new e))
    | no ne ↦ subst (HasValue N v) (sym (get-put_ne j h vs seen ne)) old
  ]

  -- What is loaded of a host has its known values.
  load-known :
      (h : H) (v : V) (m : Moment) (p : Profiles H V) (vs : List V)
      → IsKnown h v p
      → load h m p ≡ ok vs
      → elem v vs ≡ true
  unfolding load
  load-known h v m p vs known e = elim (Option-cases (Dict.get h p.seen)) [
    | inl absent ↦ elim (Option-cases m.read_error) [
      | inl works ↦
          let same : load h m p ≡ ok (values_of h p.rows) = rw (load, absent, works) refl in
          let values : values_of h p.rows ≡ vs = cc in
          subst (λ ws. elem v ws ≡ true) values known.in_table
      | inr (message, fails) ↦
          let same : load h m p ≡ raised message = rw (load, absent, fails) refl in absurd cc
    ]
    | inr (ws, found) ↦
        let same : load h m p ≡ ok ws = rw (load, found) refl in
        let values : ws ≡ vs = cc in
        subst (λ us. elem v us ≡ true) values (subst (HasValue Unit v) found known.in_memory)
  ]

  observe_in-IsKnown :
      (h j : H) (v w : V) (min_known : ℕ) (trusted : Bool) (m : Moment) (p : Profiles H V)
      (vs : List V)
      → IsKnown h v p
      → (h ≡ j → elem v vs ≡ true)
      → IsKnown h v (observe_in min_known trusted j w m p vs).1
  unfolding observe_in
  observe_in-IsKnown h j v w min_known trusted m p vs known all =
      let grown =
        put-HasValue Unit h j v (add_value w vs) p.seen known.in_memory
          (λ e. add_value-keeps v w vs (all e)) in
      if_intro (λ (out : Result (Option ℕ) × Profiles H V). IsKnown h v out.1) (elem w vs)
        (λ _. record {
          in_memory = put-HasValue Unit h j v vs p.seen known.in_memory all;
          in_table = known.in_table;
        })
        (λ _.
          option_intro (λ (out : Result (Option ℕ) × Profiles H V). IsKnown h v out.1) m.write_error
            (record {
              in_memory = grown;
              in_table = values_of-insert_row h j v w p.rows known.in_table;
            })
            (λ message. record { in_memory = grown; in_table = known.in_table }))

  -- What is known stays known, whatever is observed.
  pub observe-IsKnown :
      (h j : H) (v w : V) (min_known : ℕ) (trusted : Bool) (m : Moment) (p : Profiles H V)
      → IsKnown h v p
      → IsKnown h v (observe min_known trusted j w m p).1
  unfolding observe
  observe-IsKnown h j v w min_known trusted m p known = elim (Result-cases (load j m p)) [
    | inl (message, e) ↦ rw (observe, e) known
    | inr (vs, e) ↦
        rw (observe, e)
          (observe_in-IsKnown h j v w min_known trusted m p vs known
            (λ same. load-known h v m p vs known (subst (λ i. load i m p ≡ ok vs) (sym same) e)))
  ]

  pub restart-IsKnown : (h : H) (v : V) (p : Profiles H V) → IsKnown h v p → IsKnown h v (restart p)
  unfolding restart Dict.get
  restart-IsKnown h v p known = record { in_memory = tt; in_table = known.in_table }

  -- A known value is not reported.
  pub observe-IsQuiet :
      (h : H) (v : V) (min_known : ℕ) (trusted : Bool) (m : Moment) (p : Profiles H V)
      → IsKnown h v p
      → IsQuiet (observe min_known trusted h v m p).0
  unfolding observe observe_in
  observe-IsQuiet h v min_known trusted m p known = elim (Result-cases (load h m p)) [
    | inl (message, e) ↦ rw (observe, e) tt
    | inr (vs, e) ↦ rw (observe, e, load-known h v m p vs known e) refl
  ]

  observe_in-IsKnown_new :
      (h : H) (v : V) (min_known : ℕ) (trusted : Bool) (m : Moment) (p : Profiles H V) (vs : List V)
      (others : ℕ)
      → (observe_in min_known trusted h v m p vs).0 ≡ ok (some others)
      → IsKnown h v (observe_in min_known trusted h v m p vs).1
  unfolding observe_in
  observe_in-IsKnown_new h v min_known trusted m p vs others =
      let P : Result (Option ℕ) × Profiles H V → Type 0 =
        λ out. out.0 ≡ ok (some others) → IsKnown h v out.1 in
      if_intro P (elem v vs) (λ _ e. absurd cc)
        (λ _.
          option_intro P m.write_error
            (λ _. record {
              in_memory =
                  subst (HasValue Unit v) (sym (get-put_self h (add_value v vs) p.seen))
                    (add_value-adds v vs);
              in_table = insert_row-adds h v p.rows;
            })
            (λ message e. absurd cc))

  -- A value that is reported is known from then on.
  pub observe-IsKnown_new :
      (h : H) (v : V) (min_known : ℕ) (trusted : Bool) (m : Moment) (p : Profiles H V) (others : ℕ)
      → (observe min_known trusted h v m p).0 ≡ ok (some others)
      → IsKnown h v (observe min_known trusted h v m p).1
  unfolding observe
  observe-IsKnown_new h v min_known trusted m p others e = elim (Result-cases (load h m p)) [
    | inl (message, fails) ↦
        let same : (observe min_known trusted h v m p).0 ≡ raised message =
          rw (observe, fails) refl in
        absurd cc
    | inr (vs, loads) ↦
        let same : observe min_known trusted h v m p ≡ observe_in min_known trusted h v m p vs =
          rw (observe, loads) refl in
        subst (λ (out : Result (Option ℕ) × Profiles H V). IsKnown h v out.1) (sym same)
          (observe_in-IsKnown_new h v min_known trusted m p vs others
            (ap (λ out. out.0) (sym same) ∙ e))
  ]
