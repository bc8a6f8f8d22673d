-- ===== src/Responders/Rollback.antt =====
-- `reconcile_expired` and `add_responder` keep the invariant. The references that are due differ from
-- one another, so each action is still EXPIRING when its turn comes, and its row says so.
use sentinel_pi.Prelude.{
  ℕ, String, ◌≡◌, true, List, [], ◌∷◌, ◌++◌, length, get_elem?, set, string_key, arith, All-append,
  Option-cases, if_intro, inl, inr,
}
use sentinel_pi.Prelude.Dict
use sentinel_pi.Prelude.Dict.{Dict, AllValues, AllValues-put, get-AllValues}
use sentinel_pi.Models.{Datetime}
use sentinel_pi.World.{Status, Trace, Env}
use sentinel_pi.World.Audit.{audited}
use sentinel_pi.Responders.{Responder}
use sentinel_pi.Responders.Ascends.{Ascends, Ascends-mono, Ascends-ne}
use sentinel_pi.Responders.Ledger.{expire_action-audited}
use sentinel_pi.Responders.Lifecycle.{
  by_name, due_actions, mark_expiring, expire_action, expire_due, reconcile_expired, bind_pending,
  add_responder,
}
use sentinel_pi.Responders.Manager.{Manager}
use sentinel_pi.Responders.Operations.{replace}
use sentinel_pi.Responders.Safety.{IsSafe}
use sentinel_pi.Responders.Sound.{IsSound}
use sentinel_pi.Responders.Marking.{
  refs_of, AllMarked, mark_expiring-AllMarked, AllMarked-set, due_actions-Ascends,
  length-mark_expiring, by_name-AllValues,
}

module _ (env : Env) where
  expire_due-IsSound :
      (now : Datetime) (d : Dict String Responder) (lo : ℕ) (due : List (ℕ × Status)) (hi : ℕ)
      (m : Manager) (t : Trace)
      → AllValues IsSafe d
      → Ascends lo (refs_of due) hi
      → AllMarked m.objects due
      → IsSound m t
      → IsSound (expire_due env now d due m t).1 (expire_due env now d due m t).2
  unfolding expire_due
  expire_due-IsSound now d lo [] hi m t ds asc marks s = s
  expire_due-IsSound now d lo ((ref, previous) ∷ due) hi m t ds asc marks s =
      elim (Option-cases (get_elem? m.objects ref)) [
        | inl missing ↦
            rw (missing, expire_due) (expire_due-IsSound now d _ due hi m t ds asc.1 marks.1 s)
        | inr (a, at) ↦ elim (Option-cases (Dict.get a.responder d)) [
          | inl unknown ↦
              rw (at, unknown, expire_due)
                (expire_due-IsSound now d _ due hi m t ds asc.1 marks.1 s)
          | inr (r, known) ↦
              let safe = get-AllValues _ a.responder d r known ds in
              let (done, a', h, t') = expire_action env m.has_db m.health now previous r a t in
              let kept : audited t' ≡ true = rw s.ledger (
                expire_action-audited env r safe m.health now previous a t (marks.0 a at)
                  s.audit) in
              let m' = record m { objects = set m.objects ref a'; health = h } in
              rw (at, known, expire_due)
                (expire_due-IsSound now d _ due hi m' t' ds asc.1
                  (AllMarked-set due m.objects ref a' (Ascends-ne ref _ hi asc.1) marks.1)
                  (replace m h m.pending ref a' t t' s s.queued kept))
        ]
      ]

  pub reconcile_expired-IsSound :
      (now : Datetime) (m : Manager) (t : Trace)
      → IsSound m t
      → IsSound (reconcile_expired env now m t).1 (reconcile_expired env now m t).2
  unfolding reconcile_expired
  reconcile_expired-IsSound now m t s =
      let d = by_name m.responders [] in
      let due = due_actions now d m.objects m.recent in
      let m' = record m { objects = mark_expiring due m.objects } in
      expire_due-IsSound now d 0 due (length m.objects) m' t
        (by_name-AllValues m.responders [] s.responders tt)
        (due_actions-Ascends now d m.objects 0 m.recent (length m.objects) s.listed)
        (mark_expiring-AllMarked due m.objects)
        (record {
          ledger = s.ledger;
          responders = s.responders;
          queued = s.queued;
          listed =
              Ascends-mono 0 0 m.recent (length m.objects) (length m'.objects) (omega arith)
                (omega (arith, length-mark_expiring due m.objects)) s.listed;
          audit = s.audit;
        })

  bind_pending-IsSound :
      (r : Responder) (unbound : Dict String ℕ) (m : Manager) (t : Trace)
      → IsSafe r
      → IsSound m t
      → IsSound (bind_pending env r unbound m) t
  unfolding bind_pending
  bind_pending-IsSound r [] m t safe s = s
  bind_pending-IsSound r ((action_id, ref) ∷ unbound) m t safe s =
      bind_pending-IsSound r unbound _ t safe (
        if_intro (λ (m' : Manager). IsSound m' t) _
          (λ _. record {
            ledger = s.ledger;
            responders = s.responders;
            queued = AllValues-put _ action_id _ m.pending safe s.queued;
            listed = s.listed;
            audit = s.audit;
          })
          (λ _. s))

  pub add_responder-IsSound :
      (r : Responder) (m : Manager) (t : Trace)
      → IsSafe r
      → IsSound m t
      → IsSound (add_responder env r m t).0 (add_responder env r m t).1
  unfolding add_responder
  add_responder-IsSound r m t safe s =
      let m' = record m { responders = m.responders ++ r ∷ [] } in
      reconcile_expired-IsSound (env.clock t) _ t (
        bind_pending-IsSound r m.unbound_pending m' t safe (record {
          ledger = s.ledger;
          responders = All-append IsSafe m.responders (r ∷ []) s.responders (safe, tt);
          queued = s.queued;
          listed = s.listed;
          audit = s.audit;
        }))
