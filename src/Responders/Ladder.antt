-- ===== src/Responders/Ladder.antt =====
-- The safety ladder of `handle`: the settings under which an alert changes nothing on the network,
-- and what is listed of it.
use sentinel_pi.Prelude.{
  ℕ, ◌≤◌, String, ◌≡◌, ◌∙◌, refl, Bool, true, false, not, ◌||◌, Option, none, some, List, [], ◌∷◌,
  ◌++◌, length, length-last_n, string_key, arith, if_intro, if◌then◌else◌,
}
use sentinel_pi.Models.{Alert}
use sentinel_pi.World.{
  planned, pending, ResponderAction, proposed, notified, observed, Trace, Env, Result, ok, raised,
}
use sentinel_pi.World.Audit.{effects}
use sentinel_pi.Responders.{ResponseConfig, Responder}
use sentinel_pi.Responders.Ledger.{persist-trace}
use sentinel_pi.Responders.Manager.{
  Manager, max_recent, persist, needs_approval, publish, hold, gate, consider, after_observer,
  after_plan, after_can_handle, handle_one, handle_all, handle,
}

-- The master switch is off, or dry-run is on, or the alert's category must be approved.
abbrev pub holds_back : Env → ResponseConfig → Alert → Bool
holds_back env rc alert = not rc.enabled || rc.dry_run || needs_approval env rc alert

-- A turn of the loop that had no effects and changed no setting.
record IsQuiet (m : Manager) (t : Trace) (out : Manager × Trace) : Type 0 where
  config : out.0.config ≡ m.config
  still : effects out.1 ≡ effects t

abbrev IsQuietTurn : Manager → Trace → Option ℕ × Manager × Trace → Type 0
IsQuietTurn m t out = IsQuiet m t (out.1, out.2)

module _ (env : Env) (alert : Alert) where
  publish-IsQuiet :
      (a : ResponderAction) (m m' : Manager) (t t' : Trace)
      → m'.config ≡ m.config
      → effects t' ≡ effects t
      → IsQuietTurn m t (publish env a m' t')
  unfolding publish
  publish-IsQuiet a m m' t t' c e = record { config = c; still = e }

  notified-effects :
      (b : Bool) (id : String) (t : Trace) → effects (if b then notified id ∷ t else t) ≡ effects t
  unfolding effects
  notified-effects true id t = refl
  notified-effects false id t = refl

  hold-IsQuiet :
      (a : ResponderAction) (r : Responder) (m : Manager) (t : Trace)
      → IsQuietTurn m t (hold env a r m t)
  unfolding hold
  hold-IsQuiet a r m t =
      let waiting = record a { status = pending } in
      let (_, h, t') = persist env m.has_db m.health waiting t in
      let kept = (persist-trace env m.has_db m.health waiting t).1 in
      if_intro (IsQuietTurn m t) (persist env m.has_db m.health waiting t).0
        (λ _.
          publish-IsQuiet waiting m _ t _ refl
            (notified-effects m.has_notifier a.action_id t' ∙ kept))
        (λ _. publish-IsQuiet _ m _ t t' refl kept)

  gate-IsQuiet :
      (a : ResponderAction) (r : Responder) (m : Manager) (t : Trace)
      → (m.config.dry_run || needs_approval env m.config alert) ≡ true
      → IsQuietTurn m t (gate env alert a r m t)
  unfolding gate
  gate-IsQuiet a r m t h =
      if_intro (IsQuietTurn m t) m.config.dry_run (λ _. publish-IsQuiet a m m t t refl refl)
        (λ armed.
          if_intro (IsQuietTurn m t) (needs_approval env m.config alert) (λ _. hold-IsQuiet a r m t)
            (λ trusted. absurd (ground arith)))

  consider-IsQuiet :
      (a : ResponderAction) (r : Responder) (m : Manager) (t : Trace)
      → (m.config.dry_run || needs_approval env m.config alert) ≡ true
      → IsQuietTurn m t (consider env alert a r m t)
  unfolding consider
  consider-IsQuiet proposal r m t h =
      let a = record proposal {
        dry_run = m.config.dry_run;
        alert_id = alert.alert_id;
        status = planned;
      } in
      let (_, h', t') = persist env m.has_db m.health a t in
      let kept = (persist-trace env m.has_db m.health a t).1 in
      if_intro (IsQuietTurn m t) (persist env m.has_db m.health a t).0
        (λ _.
          let q = gate-IsQuiet a r (record m { health = h' }) t' h in
          record { config = q.config; still = q.still ∙ kept })
        (λ _. publish-IsQuiet _ m _ t t' refl kept)

  skip-IsQuiet : (m : Manager) (t : Trace) → IsQuiet m t (m, t)
  skip-IsQuiet m t = record { config = refl; still = refl }

  after_observer-IsQuiet :
      (outcome : Option String) (a : ResponderAction) (r : Responder) (m : Manager) (t : Trace)
      → (m.config.dry_run || needs_approval env m.config alert) ≡ true
      → IsQuietTurn m t (after_observer env outcome alert a r m t)
  unfolding after_observer
  after_observer-IsQuiet (some exc) a r m t h = skip-IsQuiet m t
  after_observer-IsQuiet none a r m t h = consider-IsQuiet a r m t h

  after_plan-IsQuiet :
      (outcome : Result (Option ResponderAction)) (r : Responder) (m : Manager) (t : Trace)
      → (m.config.dry_run || needs_approval env m.config alert) ≡ true
      → IsQuietTurn m t (after_plan env outcome alert r m t)
  unfolding after_plan effects
  after_plan-IsQuiet (raised exc) r m t h = skip-IsQuiet m t
  after_plan-IsQuiet (ok none) r m t h = skip-IsQuiet m t
  after_plan-IsQuiet (ok (some a)) r m t h =
      if_intro (IsQuietTurn m t) m.has_observer
        (λ _.
          let q =
            after_observer-IsQuiet (env.activity_error (proposed a ∷ t) r.name) a r m
              (observed r.name ∷ proposed a ∷ t) h in
          record { config = q.config; still = q.still })
        (λ _.
          let q = consider-IsQuiet a r m (proposed a ∷ t) h in
          record { config = q.config; still = q.still })

  after_can_handle-IsQuiet :
      (outcome : Result Bool) (r : Responder) (m : Manager) (t : Trace)
      → (m.config.dry_run || needs_approval env m.config alert) ≡ true
      → IsQuietTurn m t (after_can_handle env outcome alert r m t)
  unfolding after_can_handle
  after_can_handle-IsQuiet (raised exc) r m t h = skip-IsQuiet m t
  after_can_handle-IsQuiet (ok false) r m t h = skip-IsQuiet m t
  after_can_handle-IsQuiet (ok true) r m t h = after_plan-IsQuiet (r.plan alert t) r m t h

  handle_all-IsQuiet :
      (rs : List Responder) (m : Manager) (t : Trace)
      → (m.config.dry_run || needs_approval env m.config alert) ≡ true
      → IsQuiet m t ((handle_all env alert rs m t).1, (handle_all env alert rs m t).2)
  unfolding handle_all handle_one
  handle_all-IsQuiet [] m t h = skip-IsQuiet m t
  handle_all-IsQuiet (r ∷ rs) m t h =
      let q = after_can_handle-IsQuiet (r.can_handle alert) r m t h in
      let (_, m', t') = handle_one env alert r m t in
      let q' = handle_all-IsQuiet rs m' t' (rw q.config h) in
      record { config = q'.config ∙ q.config; still = q'.still ∙ q.still }

  -- With the master switch off, in dry-run, or for a category that needs approval, handling an alert
  -- runs no command and sinkholes no domain, whatever the responders are.
  pub handle-inert :
      (m : Manager) (t : Trace)
      → holds_back env m.config alert ≡ true
      → effects (handle env alert m t).2 ≡ effects t
  unfolding handle
  handle-inert m t h =
      if_intro (λ (out : List ℕ × Manager × Trace). effects out.2 ≡ effects t) m.config.enabled
        (λ on. (handle_all-IsQuiet m.responders m t (ground arith)).still) (λ off. refl)

  -- With the master switch off nothing is even planned: no event, no action, the same manager.
  pub handle_disabled :
      (m : Manager) (t : Trace) → m.config.enabled ≡ false → handle env alert m t ≡ ([], m, t)
  unfolding handle
  handle_disabled m t off =
      if_intro (λ (out : List ℕ × Manager × Trace). out ≡ ([], m, t)) m.config.enabled
        (λ on. absurd (ground arith)) (λ _. refl)

-- The recent list never holds more than its 200 actions.
length-handle :
    (env : Env) (alert : Alert) (m : Manager) (t : Trace)
    → length m.recent ≤ max_recent
    → length (handle env alert m t).1.recent ≤ max_recent
unfolding handle
length-handle env alert m t h =
    let (refs, m', t') = handle_all env alert m.responders m t in
    if_intro (λ (out : List ℕ × Manager × Trace). length out.1.recent ≤ max_recent) m.config.enabled
      (λ _. omega (arith, length-last_n max_recent (m'.recent ++ refs))) (λ _. h)
