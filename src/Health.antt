-- ===== src/Health.antt =====
-- utils/persistence_health.py: the degraded or recovered state of a write path, kept in memory and
-- in `app_state`.
pub mod Outage
use Prim.Native.String.{[], ◌∷◌}
use sentinel_pi.Prelude.{
  ℕ, zero, suc, ◌+◌, String, Bool, true, false, Option, none, some, if◌then◌else◌, List,
}
use sentinel_pi.World.{HealthState, stored_health, Trace, Env, Result, ok, raised}

unfoldable pub healthy_state : HealthState
healthy_state = record {
  degraded = false;
  consecutive_failures = 0;
  failed_at = none;
  last_error = "";
  recovered_at = none;
}

-- `text[:n]`
unfoldable pub cut : ℕ → String → String
cut zero s = []
cut (suc n) [] = []
cut (suc n) (c ∷ s) = c ∷ cut n s

module _ (env : Env) where
  unfoldable pub failed_state : String → ℕ → Trace → HealthState
  unfolding cut
  failed_state exc failures t = record {
    degraded = true;
    consecutive_failures = failures;
    failed_at = some (env.clock t);
    last_error = cut 500 exc;
    recovered_at = none;
  }

  -- What `__init__` starts from: the stored record, the healthy state where there is none, or a
  -- failed state where it cannot be read.
  unfoldable pub load : Result (Option HealthState) → Trace → HealthState
  unfolding failed_state healthy_state
  load (ok none) t = healthy_state
  load (ok (some stored)) t = stored
  load (raised exc) t = failed_state exc 1 t

  -- `_store` with a database: true if it was written. Either way the write was tried.
  unfoldable pub store : HealthState → Trace → Bool × Trace
  store state t = elim (env.store_error t state) [
    | none ↦ (true, List.◌∷◌ (stored_health state) t)
    | some exc ↦ (false, List.◌∷◌ (stored_health state) t)
  ]

  unfoldable pub mark_failed : HealthState → String → Trace → HealthState × Trace
  unfolding failed_state store
  mark_failed h exc t =
      let state = failed_state exc (h.consecutive_failures + 1) t in (state, (store state t).1)

  unfoldable pub mark_succeeded : HealthState → Trace → HealthState × Trace
  unfolding store
  mark_succeeded h t =
      let recovered = record h {
        degraded = false;
        consecutive_failures = 0;
        recovered_at = some (env.clock t);
      } in
      if h.degraded
      then (if (store recovered t).0 then recovered else h, (store recovered t).1)
      else (h, t)
