-- ===== src/Responders/Ledger.antt =====
-- What one call of `_persist`, `_run` or the expiry of an action does to the audit trail.
use sentinel_pi.Prelude.{
  String, ◌≡◌, ◌∙◌, refl, Bool, true, false, some, ◌∷◌, eqb_refl, string_key, argv_key, arith,
  Bool-cases, Option-cases, inl, inr,
}
use sentinel_pi.Models.{Datetime}
use sentinel_pi.Health.{mark_failed, mark_succeeded}
use sentinel_pi.World.{
  Status, executing, expiring, failed, intent_not_persisted, ResponderAction, HealthState, saved,
  save_failed, Trace, Env, Result, ok, raised,
}
use sentinel_pi.World.Audit.{announces, announces_domain, some_saved, audited, effects}
use sentinel_pi.Responders.{Responder}
use sentinel_pi.Responders.Manager.{finished, persist, finish_run, run_recorded, run_action}
use sentinel_pi.Responders.Lifecycle.{expire_outcome, settled, expire_action}
use sentinel_pi.Responders.Safety.{IsAnnounced, IsUndoing, IsSafe}

module _ (env : Env) (h : HealthState) where
  pub mark_failed-trace :
      (exc : String) (t : Trace) (p : ResponderAction → Bool)
      → (audited (mark_failed env h exc t).1 ≡ audited t)
        × (effects (mark_failed env h exc t).1 ≡ effects t)
        × (some_saved p (mark_failed env h exc t).1 ≡ some_saved p t)
  unfolding mark_failed audited effects some_saved
  mark_failed-trace exc t p = ground arith

  pub mark_succeeded-trace :
      (t : Trace) (p : ResponderAction → Bool)
      → (audited (mark_succeeded env h t).1 ≡ audited t)
        × (effects (mark_succeeded env h t).1 ≡ effects t)
        × (some_saved p (mark_succeeded env h t).1 ≡ some_saved p t)
  unfolding mark_succeeded audited effects some_saved
  mark_succeeded-trace t p = ground arith

abbrev pub always : ResponderAction → Bool
always a = true

-- Writing a row is no effect, and leaves the trail as audited as it was.
pub persist-trace :
    (env : Env) (db : Bool) (h : HealthState) (a : ResponderAction) (t : Trace)
    → (audited (persist env db h a t).2 ≡ audited t)
      × (effects (persist env db h a t).2 ≡ effects t)
unfolding persist audited effects
persist-trace env false h a t = (refl, refl)
persist-trace env true h a t = elim (Option-cases (env.save_error t a)) [
  | inl e ↦ rw (e, persist) (let f = mark_succeeded-trace env h (saved a ∷ t) always in (f.0, f.1))
  | inr (exc, e) ↦
      rw (e, persist) (let f = mark_failed-trace env h exc (save_failed a ∷ t) always in (f.0, f.1))
]

-- A row that was written is in the ledger.
pub persist-some_saved :
    (env : Env) (h : HealthState) (a : ResponderAction) (t : Trace) (p : ResponderAction → Bool)
    → (persist env true h a t).0 ≡ true
    → p a ≡ true
    → some_saved p (persist env true h a t).2 ≡ true
unfolding persist some_saved
persist-some_saved env h a t p written pa = elim (Option-cases (env.save_error t a)) [
  | inl e ↦ rw (e, persist) (ground (arith, mark_succeeded-trace env h (saved a ∷ t) p))
  | inr (exc, e) ↦ absurd (ground arith)
]

module _ (env : Env) (h : HealthState) (a : ResponderAction) (t : Trace) where
  -- A written EXECUTING row announces what executing the action does.
  persist-IsAnnounced :
      a.status ≡ executing
      → (persist env true h a t).0 ≡ true
      → IsAnnounced a (persist env true h a t).2
  persist-IsAnnounced e written = record {
    commands = λ argv m. persist-some_saved env h a t (announces argv) written (rw e m);
    domain =
        persist-some_saved env h a t (announces_domain a.target) written (rw e (eqb_refl a.target));
  }

  -- A written EXPIRING row announces its roll-back.
  persist-IsUndoing :
      a.status ≡ expiring
      → (persist env true h a t).0 ≡ true
      → IsUndoing a (persist env true h a t).2
  persist-IsUndoing e written = record {
    undo = λ argv m. persist-some_saved env h a t (announces argv) written (rw e m);
  }

finish_run-audited :
    (env : Env) (h : HealthState) (outcome : Result (Unit {0})) (a : ResponderAction) (t : Trace)
    → (audited (finish_run env true h outcome a t).3 ≡ audited t)
      × (effects (finish_run env true h outcome a t).3 ≡ effects t)
unfolding finish_run
finish_run-audited env h (raised exc) a t = (refl, refl)
finish_run-audited env h (ok u) a t = persist-trace env true h (finished a (env.clock t)) t

module _ (env : Env) (r : Responder) (safe : IsSafe r) where
  run_recorded-audited :
      (h : HealthState) (a : ResponderAction) (t : Trace)
      → IsAnnounced a t
      → audited t ≡ true
      → audited (run_recorded env true h a r t).3 ≡ true
  unfolding run_recorded
  run_recorded-audited h a t n k =
      let (outcome, a', t') = r.execute a t in
      (finish_run-audited env h outcome a' t').0 ∙ safe.execute_safe a t n k

  -- `_run` executes nothing that the ledger does not announce.
  pub run_action-audited :
      (h : HealthState) (a : ResponderAction) (t : Trace)
      → audited t ≡ true
      → audited (run_action env true h a r t).3 ≡ true
  unfolding run_action
  run_action-audited h a t k =
      let intent = record a { status = executing } in
      let kept = (persist-trace env true h intent t).0 ∙ k in
      elim (Bool-cases (persist env true h intent t).0) [
        | inl written ↦
            rw (written, run_action)
              (run_recorded-audited (persist env true h intent t).1 intent
                (persist env true h intent t).2 (persist-IsAnnounced env h intent t refl written)
                kept)
        | inr refused ↦ rw (refused, run_action) kept
      ]

  -- Nor does the expiry of an action.
  pub expire_action-audited :
      (h : HealthState) (now : Datetime) (previous : Status) (a : ResponderAction) (t : Trace)
      → a.status ≡ expiring
      → audited t ≡ true
      → audited (expire_action env true h now previous r a t).3 ≡ true
  unfolding expire_action
  expire_action-audited h now previous a t e k =
      let kept = (persist-trace env true h a t).0 ∙ k in
      elim (Bool-cases (persist env true h a t).0) [
        | inl written ↦
            let (_, h', t') = persist env true h a t in
            let (outcome, t'') = r.expire a t' in
            let last = settled (expire_outcome outcome) now a in
            rw (written, expire_action)
              ((persist-trace env true h' last t'').0
                ∙ safe.expire_safe a t' (persist-IsUndoing env h a t e written) kept)
        | inr refused ↦ rw (refused, expire_action) kept
      ]

pub persist-refused :
    (env : Env) (h : HealthState) (a : ResponderAction) (t : Trace) (exc : String)
    → env.save_error t a ≡ some exc
    → (persist env true h a t).0 ≡ false
unfolding persist
persist-refused env h a t exc e = ground arith

-- If the intent to execute cannot be recorded, nothing is executed, whatever the responder does.
pub run_action-refused :
    (env : Env) (db : Bool) (r : Responder) (h : HealthState) (a : ResponderAction) (t : Trace)
    (exc : String)
    → db ≡ true
    → env.save_error t (record a { status = executing }) ≡ some exc
    → ((run_action env db h a r t).0 ≡ ok false)
      × ((run_action env db h a r t).1 ≡ record a { status = failed; error = intent_not_persisted })
      × (effects (run_action env db h a r t).3 ≡ effects t)
unfolding run_action
run_action-refused env false r h a t exc ledger e = cc
run_action-refused env true r h a t exc ledger e =
    let intent = record a { status = executing } in
    rw (persist-refused env h intent t exc e, run_action)
      (refl, refl, (persist-trace env true h intent t).1)
