-- ===== src/Responders/Approvals.antt =====
-- What an operator's decision does: `approve` and `reject` on every branch.
use sentinel_pi.Prelude.{
  ℕ, ◌<◌, String, ◌≡◌, ◌∙◌, ap, refl, Bool, true, false, none, some, List, length, get_elem?,
  get_elem?-set_self, set, string_key, arith, if◌then◌else◌,
}
use sentinel_pi.Prelude.Dict
use sentinel_pi.Prelude.Dict.{Dict, get-remove_self}
use sentinel_pi.World.{
  pending, rejected, executing, intent_not_persisted, ResponderAction, Trace, Env, Result, ok,
  raised,
}
use sentinel_pi.World.Audit.{effects}
use sentinel_pi.Responders.Ledger.{persist-trace, run_action-refused}
use sentinel_pi.Responders.Manager.{
  Manager, Pending, persist, run_action, after_approval, approve_entry, approve, reject_entry,
  reject,
}

pub get_elem?_lt {ℓ} :
    {A : Type ℓ} (xs : List A) (i : ℕ) {a : A} → get_elem? xs i ≡ some a → i < length xs
get_elem?_lt List.[] i h = cc
get_elem?_lt (List.◌∷◌ x xs) ℕ.zero h = omega arith
get_elem?_lt (List.◌∷◌ x xs) (ℕ.suc i) h = let k = get_elem?_lt xs i h in omega arith

removed_if_ok :
    (env : Env) (id : String) (outcome : Result Bool) (ref : ℕ) (a : ResponderAction) (m : Manager)
    (t : Trace)
    → outcome ≡ ok true
    → Dict.get id (after_approval env outcome id ref a m t).1.pending ≡ none
unfolding after_approval
removed_if_ok env id (ok true) ref a m t e = get-remove_self id m.pending
removed_if_ok env id (ok false) ref a m t e = cc
removed_if_ok env id (raised exc) ref a m t e = cc

kept_if_refused :
    (env : Env) (id : String) (outcome : Result Bool) (ref : ℕ) (a : ResponderAction) (m : Manager)
    (t : Trace)
    → outcome ≡ ok false
    → ((after_approval env outcome id ref a m t).1.pending ≡ m.pending)
      × ((after_approval env outcome id ref a m t).1.objects
          ≡ set m.objects ref (record a { status = pending }))
      × ((after_approval env outcome id ref a m t).2 ≡ t)
unfolding after_approval
kept_if_refused env id (ok true) ref a m t e = cc
kept_if_refused env id (ok false) ref a m t e = (refl, refl, refl)
kept_if_refused env id (raised exc) ref a m t e = cc

-- A decision about an action that is not pending changes nothing.
pub unknown_action :
    (env : Env) (id : String) (m : Manager) (t : Trace)
    → Dict.get id m.pending ≡ none
    → (approve env id m t ≡ (ok none, m, t)) × (reject env id m t ≡ (none, m, t))
unfolding approve reject
unknown_action env id m t h = (rw (h, approve), rw (h, reject))

module _ (env : Env) (id : String) (m : Manager) (t : Trace) where
  module _ (entry : Pending) (a : ResponderAction) (found : Dict.get id m.pending ≡ some entry)
      (at : get_elem? m.objects entry.ref ≡ some a) where
    approve-entry : approve env id m t ≡ approve_entry env id entry a m t
    unfolding approve
    approve-entry = rw (found, at, approve)

    reject-entry : reject env id m t ≡ reject_entry env id entry a m t
    unfolding reject
    reject-entry = rw (found, at, reject)

    -- An action that ran is no longer pending: approving or rejecting it again does nothing.
    pub approve_once :
        (run_action env m.has_db m.health a entry.responder t).0 ≡ ok true
        → let (_, m', t') = approve env id m t in
          (Dict.get id m'.pending ≡ none)
          × (approve env id m' t' ≡ (ok none, m', t'))
          × (reject env id m' t' ≡ (none, m', t'))
    approve_once ran =
        let (outcome, a', h, t') = run_action env m.has_db m.health a entry.responder t in
        let gone : Dict.get id (approve env id m t).1.pending ≡ none = rw approve-entry (
          unfold approve_entry in
          removed_if_ok env id outcome entry.ref a' (record m { health = h }) t' ran) in
        let again = unknown_action env id (approve env id m t).1 (approve env id m t).2 gone in
        (gone, again.0, again.1)

    -- If the intent to execute cannot be recorded, approving runs nothing, and the action stays in
    -- the queue as PENDING.
    pub approve_refused :
        (exc : String)
        → m.has_db ≡ true
        → env.save_error t (record a { status = executing }) ≡ some exc
        → let (_, m', t') = approve env id m t in
          (effects t' ≡ effects t)
          × (Dict.get id m'.pending ≡ some entry)
          × (get_elem? m'.objects entry.ref
              ≡ some (record a { status = pending; error = intent_not_persisted }))
    approve_refused exc ledger e =
        let (outcome, a', h, t') = run_action env m.has_db m.health a entry.responder t in
        let out = run_action-refused env m.has_db entry.responder m.health a t exc ledger e in
        let kept = kept_if_refused env id outcome entry.ref a' (record m { health = h }) t' out.0 in
        rw approve-entry (
          unfold approve_entry in
          (
            ap effects kept.2 ∙ out.2,
            rw kept.0 found,
            rw (kept.1, out.1)
                (get_elem?-set_self m.objects entry.ref _ (get_elem?_lt m.objects entry.ref at)),
          ))

    -- Rejecting runs nothing. The action leaves the queue as REJECTED if its row was written, and
    -- stays in the queue as PENDING if not.
    reject_lem :
        let declined = record a { status = rejected } in
        let written = (persist env m.has_db m.health declined t).0 in
        let final = if written then declined else record a { status = pending } in
        let (outcome, m', t') = reject env id m t in
        (effects t' ≡ effects t)
        × (outcome ≡ some final)
        × (m'.pending ≡ (if written then Dict.remove id m.pending else m.pending))
        × (get_elem? m'.objects entry.ref ≡ some final)
    reject_lem =
        let declined = record a { status = rejected } in
        let kept = (persist-trace env m.has_db m.health declined t).1 in
        let placed = λ (b : ResponderAction).
          get_elem?-set_self m.objects entry.ref b (get_elem?_lt m.objects entry.ref at) in
        rw reject-entry (
          unfold reject_entry in
          (
            ground (arith, kept),
            ground arith,
            ground arith,
            ground (arith, placed declined, placed (record a { status = pending })),
          ))
