-- ===== src/Responders/Sound.antt =====
-- The invariant of a manager with a ledger, and that one turn of `handle` keeps it.
use sentinel_pi.Prelude.{
  ℕ, String, ◌≡◌, ◌∙◌, refl, Bool, true, false, Option, none, some, List, [], ◌∷◌, ◌++◌, length,
  length-append, string_key, arith, All, Bool-cases, if_intro, inl, inr, if◌then◌else◌,
}
use sentinel_pi.Prelude.Dict
use sentinel_pi.Prelude.Dict.{Dict, AllValues, AllValues-put, AllValues-remove, get-AllValues}
use sentinel_pi.Models.{Alert}
use sentinel_pi.World.{
  planned, pending, failed, pending_not_persisted, ResponderAction, HealthState, proposed, notified,
  observed, Trace, Env, Result, ok, raised,
}
use sentinel_pi.World.Audit.{audited}
use sentinel_pi.Responders.{Responder}
use sentinel_pi.Responders.Ascends.{Ascends, Ascends-mono}
use sentinel_pi.Responders.Ledger.{persist-trace, run_action-audited}
use sentinel_pi.Responders.Manager.{
  Manager, Pending, to_list, persist, run_action, needs_approval, publish, hold, list_run, run_now,
  gate, consider, after_observer, after_plan, after_can_handle,
}
use sentinel_pi.Responders.Safety.{IsSafe}

pub record IsSound (m : Manager) (t : Trace) : Type 0 where
  pub ledger : m.has_db ≡ true
  pub responders : All IsSafe m.responders
  pub queued : AllValues (λ (e : Pending). IsSafe e.responder) m.pending
  pub listed : Ascends 0 m.recent (length m.objects)
  pub audit : audited t ≡ true

-- What one turn of the loop of `handle` leaves: new references at most, and the invariant.
pub record IsStep (m : Manager) (refs : List ℕ) (m' : Manager) (t' : Trace) : Type 0 where
  pub sound : IsSound m' t'
  pub recent : m'.recent ≡ m.recent
  pub responders : m'.responders ≡ m.responders
  pub fresh : Ascends (length m.objects) refs (length m'.objects)

abbrev pub IsTurn : Manager → Option ℕ × Manager × Trace → Type 0
IsTurn m out = IsStep m (to_list out.0) out.1 out.2

pub stay : (m : Manager) (t : Trace) → IsSound m t → IsStep m [] m t
stay m t s = record { sound = s; recent = refl; responders = refl; fresh = omega arith }

publish-IsTurn :
    (env : Env) (a : ResponderAction) (m : Manager) (t : Trace)
    → IsSound m t
    → IsTurn m (publish env a m t)
unfolding publish
publish-IsTurn env a m t s = record {
  sound = record {
    ledger = s.ledger;
    responders = s.responders;
    queued = s.queued;
    listed =
        Ascends-mono 0 0 m.recent (length m.objects) (length (m.objects ++ a ∷ [])) (omega arith)
          (omega (arith, length-append m.objects (a ∷ []))) s.listed;
    audit = s.audit;
  };
  recent = refl;
  responders = refl;
  fresh = (omega arith, omega (arith, length-append m.objects (a ∷ [])));
}

-- A step from the manager with another health record and queue is a step from the manager.
resume :
    (m : Manager) (h : HealthState) (p : Dict String Pending) (refs : List ℕ) (m' : Manager)
    (t' : Trace)
    → IsStep (record m { health = h; pending = p }) refs m' t'
    → IsStep m refs m' t'
resume m h p refs m' t' k = record {
  sound = k.sound;
  recent = k.recent;
  responders = k.responders;
  fresh = k.fresh;
}

-- The manager with another health record and queue, at a trace that is still audited.
update :
    (m : Manager) (h : HealthState) (p : Dict String Pending) (t t' : Trace)
    → IsSound m t
    → AllValues (λ (e : Pending). IsSafe e.responder) p
    → audited t' ≡ true
    → IsSound (record m { health = h; pending = p }) t'
update m h p t t' s q k = record {
  ledger = s.ledger;
  responders = s.responders;
  queued = q;
  listed = s.listed;
  audit = k;
}

module _ (env : Env) where
  persist-audit :
      (m : Manager) (a : ResponderAction) (t : Trace)
      → IsSound m t
      → audited (persist env m.has_db m.health a t).2 ≡ true
  persist-audit m a t s = (persist-trace env m.has_db m.health a t).0 ∙ s.audit

  audited-notified :
      (b : Bool) (id : String) (t : Trace)
      → audited t ≡ true
      → audited (if b then notified id ∷ t else t) ≡ true
  unfolding audited
  audited-notified true id t h = h
  audited-notified false id t h = h

  hold-IsTurn :
      (a : ResponderAction) (r : Responder) (m : Manager) (t : Trace)
      → IsSafe r
      → IsSound m t
      → IsTurn m (hold env a r m t)
  unfolding hold
  hold-IsTurn a r m t safe s =
      let waiting = record a { status = pending } in
      let refused = record waiting { status = failed; error = pending_not_persisted } in
      let (_, h, t') = persist env m.has_db m.health waiting t in
      let kept = persist-audit m waiting t s in
      let entry : Pending = record { ref = length m.objects; responder = r } in
      let queue = Dict.put a.action_id entry m.pending in
      let t'' : Trace = if m.has_notifier then notified a.action_id ∷ t' else t' in
      elim (Bool-cases (persist env m.has_db m.health waiting t).0) [
        | inl written ↦
            rw (written, hold)
              (resume m h queue _ _ _ (
                publish-IsTurn env waiting (record m { health = h; pending = queue }) t''
                  (update m h queue t t'' s
                    (AllValues-put _ a.action_id entry m.pending safe s.queued)
                    (audited-notified m.has_notifier a.action_id t' kept))))
        | inr unwritten ↦
            rw (unwritten, hold)
              (resume m h m.pending _ _ _ (
                publish-IsTurn env refused (record m { health = h }) t'
                  (update m h m.pending t t' s s.queued kept)))
      ]

  list_run-IsTurn :
      (outcome : Result Bool) (a : ResponderAction) (m : Manager) (t : Trace)
      → IsSound m t
      → IsTurn m (list_run env outcome a m t)
  unfolding list_run
  list_run-IsTurn (raised exc) a m t s = stay m t s
  list_run-IsTurn (ok b) a m t s = publish-IsTurn env a m t s

  run_now-IsTurn :
      (a : ResponderAction) (r : Responder) (m : Manager) (t : Trace)
      → IsSafe r
      → IsSound m t
      → IsTurn m (run_now env a r m t)
  run_now-IsTurn a r m t safe s =
      let (outcome, a', h, t') = run_action env m.has_db m.health a r t in
      let kept : audited t' ≡ true =
        rw s.ledger (run_action-audited env r safe m.health a t s.audit) in
      resume m h m.pending _ _ _ (
        unfold run_now in
        list_run-IsTurn outcome a' (record m { health = h }) t'
          (update m h m.pending t t' s s.queued kept))

  gate-IsTurn :
      (alert : Alert) (a : ResponderAction) (r : Responder) (m : Manager) (t : Trace)
      → IsSafe r
      → IsSound m t
      → IsTurn m (gate env alert a r m t)
  unfolding gate
  gate-IsTurn alert a r m t safe s =
      if_intro (IsTurn m) m.config.dry_run (λ _. publish-IsTurn env a m t s)
        (λ _.
          if_intro (IsTurn m) (needs_approval env m.config alert) (λ _. hold-IsTurn a r m t safe s)
            (λ _. run_now-IsTurn a r m t safe s))

  consider-IsTurn :
      (alert : Alert) (a : ResponderAction) (r : Responder) (m : Manager) (t : Trace)
      → IsSafe r
      → IsSound m t
      → IsTurn m (consider env alert a r m t)
  unfolding consider
  consider-IsTurn alert proposal r m t safe s =
      let a = record proposal {
        dry_run = m.config.dry_run;
        alert_id = alert.alert_id;
        status = planned;
      } in
      let (_, h, t') = persist env m.has_db m.health a t in
      let s' = update m h m.pending t t' s s.queued (persist-audit m a t s) in
      let m' = record m { health = h } in
      if_intro (IsTurn m) (persist env m.has_db m.health a t).0
        (λ _. resume m h m.pending _ _ _ (gate-IsTurn alert a r m' t' safe s'))
        (λ _. resume m h m.pending _ _ _ (publish-IsTurn env _ m' t' s'))

  -- Events that are no effects leave the invariant alone.
  note_sound : (m : Manager) (t t' : Trace) → audited t' ≡ audited t → IsSound m t → IsSound m t'
  note_sound m t t' e s = update m m.health m.pending t t' s s.queued (e ∙ s.audit)

  after_observer-IsTurn :
      (outcome : Option String) (alert : Alert) (a : ResponderAction) (r : Responder) (m : Manager)
      (t : Trace)
      → IsSafe r
      → IsSound m t
      → IsTurn m (after_observer env outcome alert a r m t)
  unfolding after_observer
  after_observer-IsTurn (some exc) alert a r m t safe s = stay m t s
  after_observer-IsTurn none alert a r m t safe s = consider-IsTurn alert a r m t safe s

  after_plan-IsTurn :
      (outcome : Result (Option ResponderAction)) (alert : Alert) (r : Responder) (m : Manager)
      (t : Trace)
      → IsSafe r
      → IsSound m t
      → IsTurn m (after_plan env outcome alert r m t)
  unfolding after_plan audited
  after_plan-IsTurn (raised exc) alert r m t safe s = stay m t s
  after_plan-IsTurn (ok none) alert r m t safe s = stay m t s
  after_plan-IsTurn (ok (some a)) alert r m t safe s =
      if_intro (IsTurn m) m.has_observer
        (λ _.
          after_observer-IsTurn _ alert a r m _ safe
            (note_sound m t (observed r.name ∷ proposed a ∷ t) refl s))
        (λ _. consider-IsTurn alert a r m _ safe (note_sound m t (proposed a ∷ t) refl s))

  pub after_can_handle-IsTurn :
      (outcome : Result Bool) (alert : Alert) (r : Responder) (m : Manager) (t : Trace)
      → IsSafe r
      → IsSound m t
      → IsTurn m (after_can_handle env outcome alert r m t)
  unfolding after_can_handle
  after_can_handle-IsTurn (raised exc) alert r m t safe s = stay m t s
  after_can_handle-IsTurn (ok false) alert r m t safe s = stay m t s
  after_can_handle-IsTurn (ok true) alert r m t safe s =
      after_plan-IsTurn (r.plan alert t) alert r m t safe s
