-- ===== src/Responders/Handles.antt =====
-- `handle` keeps the invariant of the manager: the loop over the responders, turn by turn.
use sentinel_pi.Prelude.{ℕ, ◌-◌, ◌∙◌, List, [], ◌∷◌, ◌++◌, length, string_key, All, if_intro}
use sentinel_pi.Models.{Alert}
use sentinel_pi.World.{Trace, Env}
use sentinel_pi.Responders.{Responder}
use sentinel_pi.Responders.Ascends.{Ascends, Ascends-append, Ascends-drop}
use sentinel_pi.Responders.Manager.{Manager, to_list, max_recent, handle_one, handle_all, handle}
use sentinel_pi.Responders.Safety.{IsSafe}
use sentinel_pi.Responders.Sound.{IsSound, IsStep, stay, after_can_handle-IsTurn}

module _ (env : Env) where
  -- One turn after another.
  then-IsStep :
      (m m' m'' : Manager) (refs refs' : List ℕ) (t' t'' : Trace)
      → IsStep m refs m' t'
      → IsStep m' refs' m'' t''
      → IsStep m (refs ++ refs') m'' t''
  then-IsStep m m' m'' refs refs' t' t'' k l = record {
    sound = l.sound;
    recent = l.recent ∙ k.recent;
    responders = l.responders ∙ k.responders;
    fresh = Ascends-append _ refs _ refs' _ k.fresh l.fresh;
  }

  handle_all-IsStep :
      (alert : Alert) (rs : List Responder) (m : Manager) (t : Trace)
      → All IsSafe rs
      → IsSound m t
      → IsStep m
          (handle_all env alert rs m t).0
          (handle_all env alert rs m t).1
          (handle_all env alert rs m t).2
  unfolding handle_all handle_one
  handle_all-IsStep alert [] m t safe s = stay m t s
  handle_all-IsStep alert (r ∷ rs) m t safe s =
      let k = after_can_handle-IsTurn env (r.can_handle alert) alert r m t safe.0 s in
      let (outcome, m', t') = handle_one env alert r m t in
      let l = handle_all-IsStep alert rs m' t' safe.1 k.sound in
      then-IsStep m m' _ (to_list outcome) _ t' _ k l

  -- `handle` keeps the invariant.
  pub handle-IsSound :
      (alert : Alert) (m : Manager) (t : Trace)
      → IsSound m t
      → IsSound (handle env alert m t).1 (handle env alert m t).2
  unfolding handle
  handle-IsSound alert m t s =
      let (refs, m', t') = handle_all env alert m.responders m t in
      let k = handle_all-IsStep alert m.responders m t s.responders s in
      let listed : Ascends 0 (m'.recent ++ refs) (length m'.objects) =
        rw k.recent (
          Ascends-append 0 m.recent (length m.objects) refs (length m'.objects) s.listed k.fresh) in
      if_intro (λ (out : List ℕ × Manager × Trace). IsSound out.1 out.2) m.config.enabled
        (λ _. record {
          ledger = k.sound.ledger;
          responders = k.sound.responders;
          queued = k.sound.queued;
          listed = Ascends-drop (length (m'.recent ++ refs) - max_recent) 0 _ _ listed;
          audit = k.sound.audit;
        })
        (λ _. s)
