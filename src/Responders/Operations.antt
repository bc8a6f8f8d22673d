-- ===== src/Responders/Operations.antt =====
-- Every sequence of a manager's operations keeps the invariant: approving, rejecting, rolling back,
-- registering responders, and handling alerts.
use sentinel_pi.Prelude.{
  ℕ, String, ◌≡◌, ◌∙◌, refl, Bool, true, false, Option, length, length-set, get_elem?, set,
  string_key, arith, Option-cases, if_intro, inl, inr,
}
use sentinel_pi.Prelude.Dict
use sentinel_pi.Prelude.Dict.{Dict, AllValues, AllValues-put, AllValues-remove, get-AllValues}
use sentinel_pi.World.{
  pending, rejected, ResponderAction, HealthState, Trace, Env, Result, ok, raised,
}
use sentinel_pi.World.Audit.{audited}
use sentinel_pi.Responders.Ascends.{Ascends-mono}
use sentinel_pi.Responders.Ledger.{persist-trace, run_action-audited}
use sentinel_pi.Responders.Manager.{
  Manager, Pending, persist, run_action, after_approval, approve_entry, approve, reject_entry,
  reject,
}
use sentinel_pi.Responders.Safety.{IsSafe}
use sentinel_pi.Responders.Sound.{IsSound}

abbrev pub IsQueue : Dict String Pending → Type 0
IsQueue = AllValues (λ (e : Pending). IsSafe e.responder)

-- The manager with an object replaced, another health record and another queue.
pub replace :
    (m : Manager) (h : HealthState) (p : Dict String Pending) (ref : ℕ) (a : ResponderAction)
    (t t' : Trace)
    → IsSound m t
    → IsQueue p
    → audited t' ≡ true
    → IsSound (record m { health = h; pending = p; objects = set m.objects ref a }) t'
replace m h p ref a t t' s q k = record {
  ledger = s.ledger;
  responders = s.responders;
  queued = q;
  listed =
      Ascends-mono 0 0 m.recent (length m.objects) (length (set m.objects ref a)) (omega arith)
        (omega (arith, length-set m.objects ref a)) s.listed;
  audit = k;
}

module _ (env : Env) where
  after_approval-IsSound :
      (outcome : Result Bool) (action_id : String) (ref : ℕ) (a : ResponderAction) (m : Manager)
      (t t' : Trace) (h : HealthState)
      → IsSound m t
      → audited t' ≡ true
      → IsSound (after_approval env outcome action_id ref a (record m { health = h }) t').1 t'
  unfolding after_approval
  after_approval-IsSound (raised exc) action_id ref a m t t' h s k =
      replace m h m.pending ref a t t' s s.queued k
  after_approval-IsSound (ok true) action_id ref a m t t' h s k =
      replace m h _ ref a t t' s (AllValues-remove _ action_id m.pending s.queued) k
  after_approval-IsSound (ok false) action_id ref a m t t' h s k =
      replace m h m.pending ref (record a { status = pending }) t t' s s.queued k

  after_approval-trace :
      (outcome : Result Bool) (action_id : String) (ref : ℕ) (a : ResponderAction) (m : Manager)
      (t : Trace)
      → (after_approval env outcome action_id ref a m t).2 ≡ t
  unfolding after_approval
  after_approval-trace (raised exc) action_id ref a m t = refl
  after_approval-trace (ok true) action_id ref a m t = refl
  after_approval-trace (ok false) action_id ref a m t = refl

  pub approve-IsSound :
      (action_id : String) (m : Manager) (t : Trace)
      → IsSound m t
      → IsSound (approve env action_id m t).1 (approve env action_id m t).2
  unfolding approve approve_entry
  approve-IsSound action_id m t s = elim (Option-cases (Dict.get action_id m.pending)) [
    | inl missing ↦ rw (missing, approve) s
    | inr (entry, found) ↦ elim (Option-cases (get_elem? m.objects entry.ref)) [
      | inl dangling ↦ rw (found, dangling, approve) s
      | inr (a, at) ↦
          let safe = get-AllValues _ action_id m.pending entry found s.queued in
          let (outcome, a', h, t') = run_action env m.has_db m.health a entry.responder t in
          let kept : audited t' ≡ true =
            rw s.ledger (run_action-audited env entry.responder safe m.health a t s.audit) in
          rw (found, at, approve)
            (rw after_approval-trace
              (after_approval-IsSound outcome action_id entry.ref a' m t t' h s kept))
    ]
  ]

  pub reject-IsSound :
      (action_id : String) (m : Manager) (t : Trace)
      → IsSound m t
      → IsSound (reject env action_id m t).1 (reject env action_id m t).2
  unfolding reject reject_entry
  reject-IsSound action_id m t s = elim (Option-cases (Dict.get action_id m.pending)) [
    | inl missing ↦ rw (missing, reject) s
    | inr (entry, found) ↦ elim (Option-cases (get_elem? m.objects entry.ref)) [
      | inl dangling ↦ rw (found, dangling, reject) s
      | inr (a, at) ↦
          let declined = record a { status = rejected } in
          let (_, h, t') = persist env m.has_db m.health declined t in
          let kept = (persist-trace env m.has_db m.health declined t).0 ∙ s.audit in
          rw (found, at, reject)
            (if_intro (λ (out : Option ResponderAction × Manager × Trace). IsSound out.1 out.2)
              (persist env m.has_db m.health declined t).0
              (λ _.
                replace m h _ entry.ref declined t t' s
                  (AllValues-remove _ action_id m.pending s.queued) kept)
              (λ _. replace m h m.pending entry.ref _ t t' s s.queued kept))
    ]
  ]
