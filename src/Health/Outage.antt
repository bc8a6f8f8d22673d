-- ===== src/Health/Outage.antt =====
-- An outage of a write path, from its first failure to its recovery.
use sentinel_pi.Prelude.{
  ◌+◌, String, ◌≡◌, refl, true, false, none, some, List, [], ◌∷◌, length, arith, if_intro,
  Option-cases, inl, inr,
}
use sentinel_pi.World.{HealthState, Trace, Env}
use sentinel_pi.Health.{cut, failed_state, store, mark_failed, mark_succeeded}

module _ (env : Env) where
  -- Failures in a row.
  unfoldable pub fail_all : List String → HealthState → Trace → HealthState × Trace
  fail_all [] h t = (h, t)
  fail_all (exc ∷ excs) h t = let (h', t') = mark_failed env h exc t in fail_all excs h' t'

  consecutive_failures-fail_all :
      (excs : List String) (h : HealthState) (t : Trace)
      → (fail_all excs h t).0.consecutive_failures ≡ h.consecutive_failures + length excs
  unfolding fail_all mark_failed failed_state
  consecutive_failures-fail_all [] h t = omega arith
  consecutive_failures-fail_all (exc ∷ excs) h t =
      let (h', t') = mark_failed env h exc t in
      omega (arith, consecutive_failures-fail_all excs h' t')

  -- What `mark_succeeded` tries to store.
  abbrev pub recovered : HealthState → Trace → HealthState
  recovered h t = record h {
    degraded = false;
    consecutive_failures = 0;
    recovered_at = some (env.clock t);
  }

  -- What a success does to a degraded record.
  mark_succeeded-degraded :
      (h : HealthState) (t : Trace)
      → h.degraded ≡ true
      → let (h', t') = mark_succeeded env h t in
        (h'.last_error ≡ h.last_error)
        × (h'.failed_at ≡ h.failed_at)
        × (h' ≡ (elim (env.store_error t (recovered h t)) as (λ _. HealthState) [
          | none ↦ recovered h t
          | some refused ↦ h
        ]))
  unfolding mark_succeeded store
  mark_succeeded-degraded h t d =
      if_intro
        (λ (out : HealthState × Trace).
          (out.0.last_error ≡ h.last_error)
          × (out.0.failed_at ≡ h.failed_at)
          × (out.0 ≡ (elim (env.store_error t (recovered h t)) as (λ _. HealthState) [
            | none ↦ recovered h t
            | some refused ↦ h
          ])))
        h.degraded
        (λ _. elim (Option-cases (env.store_error t (recovered h t))) [
          | inl e ↦ rw (store, e) (refl, refl, refl)
          | inr (exc, e) ↦ rw (store, e) (refl, refl, refl)
        ])
        (λ off. absurd (ground (arith, d, off)))

  -- Every failure of an outage is counted and its last error kept, at most 500 characters of it; a
  -- success that can be stored ends the outage and keeps when and why it was, and one that cannot be
  -- stored leaves the record degraded, the failures counted.
  pub outage_lem :
      (excs : List String) (exc : String) (h : HealthState) (t : Trace)
      → let (h0, t0) = fail_all excs h t in
        let (h1, t1) = mark_failed env h0 exc t0 in
        let (h2, t2) = mark_succeeded env h1 t1 in
        (h1.degraded ≡ true)
        × (h1.consecutive_failures ≡ h.consecutive_failures + length excs + 1)
        × (h1.last_error ≡ cut 500 exc)
        × (h2.last_error ≡ h1.last_error)
        × (h2.failed_at ≡ h1.failed_at)
        × (h2 ≡ (elim (env.store_error t1 (recovered h1 t1)) as (λ _. HealthState) [
          | none ↦ recovered h1 t1
          | some refused ↦ h1
        ]))
  unfolding mark_failed failed_state
  outage_lem excs exc h t =
      let (h0, t0) = fail_all excs h t in
      let (h1, t1) = mark_failed env h0 exc t0 in
      let (error, since, outcome) = mark_succeeded-degraded h1 t1 refl in
      (refl, omega (arith, consecutive_failures-fail_all excs h t), refl, error, since, outcome)
