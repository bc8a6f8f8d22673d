-- ===== src/Responders/Manager.antt =====
-- responders/manager.py: which planned actions run, and when. The action objects live in a heap,
-- since the queue of approvals and the recent list share them; a reference is a position in it.
-- Locks are not modelled: each operation is one step.
use sentinel_pi.Prelude.{
  ℕ, ◌+◌, String, Bool, true, false, ◌&&◌, not, Option, none, some, List, [], ◌∷◌, ◌++◌, length,
  get_elem?, set, extend_right, ltb, string_key, elem, if◌then◌else◌,
}
use sentinel_pi.Prelude.Dict
use sentinel_pi.Prelude.Dict.{Dict}
use sentinel_pi.Models.{Alert, Datetime, seconds, category_value}
use sentinel_pi.Health.{mark_failed, mark_succeeded}
use sentinel_pi.Responders.{ResponseConfig, Responder}
use sentinel_pi.World.{
  planned, pending, executing, executed, failed, rejected, plan_not_persisted,
  pending_not_persisted, intent_not_persisted, ResponderAction, HealthState, saved, save_failed,
  proposed, notified, observed, Trace, Env, Result, ok, raised,
}

-- An action that awaits approval, and its responder.
pub record Pending : Type 0 where
  pub ref : ℕ
  pub responder : Responder

pub record Manager : Type 0 where
  pub has_db : Bool
  pub config : ResponseConfig
  pub responders : List Responder
  pub objects : List ResponderAction
  pub recent : List ℕ
  pub pending : Dict String Pending
  pub unbound_pending : Dict String ℕ
  pub has_notifier : Bool
  pub has_observer : Bool
  pub health : HealthState

-- `deque(maxlen=200)`
abbrev pub max_recent : ℕ
max_recent = 200

-- The action as `_run` leaves it when `execute` has returned.
unfoldable pub finished : ResponderAction → Datetime → ResponderAction
finished a now = record a {
  status = if a.success then executed else failed;
  expires_at =
      if a.success && ltb 0 a.duration_seconds
      then some (now + seconds a.duration_seconds)
      else a.expires_at;
}

abbrev pub to_list : Option ℕ → List ℕ
to_list none = []
to_list (some r) = r ∷ []

module _ (env : Env) where
  -- `_persist`: whether the row is in the database, or there is none to write to.
  unfoldable pub persist : Bool → HealthState → ResponderAction → Trace → Bool × HealthState × Trace
  persist false h a t = (true, h, t)
  persist true h a t = elim (env.save_error t a) [
    | none ↦ let (h', t') = mark_succeeded env h (saved a ∷ t) in (true, h', t')
    | some exc ↦ let (h', t') = mark_failed env h exc (save_failed a ∷ t) in (false, h', t')
  ]

  -- `_run` after `execute`, which returned or raised. The last row may fail to be written; the
  -- action then has its outcome in memory alone.
  unfoldable pub finish_run :
      Bool
      → HealthState
      → Result (Unit {0})
      → ResponderAction
      → Trace
      → Result Bool × ResponderAction × HealthState × Trace
  unfolding finished
  finish_run db h (raised exc) a t = (raised exc, a, h, t)
  finish_run db h (ok _) a t =
      let a' = finished a (env.clock t) in
      let (_, h', t') = persist db h a' t in (ok true, a', h', t')

  -- `_run` after the intent is recorded.
  unfoldable pub run_recorded :
      Bool
      → HealthState
      → ResponderAction
      → Responder
      → Trace
      → Result Bool × ResponderAction × HealthState × Trace
  run_recorded db h a responder t =
      let (outcome, a', t') = responder.execute a t in finish_run db h outcome a' t'

  -- `_run`: `ok false` if the intent could not be recorded, and nothing was executed.
  unfoldable pub run_action :
      Bool
      → HealthState
      → ResponderAction
      → Responder
      → Trace
      → Result Bool × ResponderAction × HealthState × Trace
  run_action db h a responder t =
      let intent = record a { status = executing } in
      let (written, h', t') = persist db h intent t in
      if written
      then run_recorded db h' intent responder t'
      else (ok false, record intent { status = failed; error = intent_not_persisted }, h', t')

  unfoldable pub needs_approval : ResponseConfig → Alert → Bool
  needs_approval rc alert =
      rc.require_approval && not (elem (category_value alert.category) rc.auto_execute_categories)

  -- The new action joins the heap; its reference is returned.
  unfoldable pub publish : ResponderAction → Manager → Trace → Option ℕ × Manager × Trace
  publish a m t = (some (length m.objects), record m { objects = m.objects ++ a ∷ [] }, t)

  -- The branch of `handle` that holds an action for approval.
  unfoldable pub hold : ResponderAction → Responder → Manager → Trace → Option ℕ × Manager × Trace
  unfolding publish
  hold a responder m t =
      let waiting = record a { status = pending } in
      let (written, h, t') = persist m.has_db m.health waiting t in
      let m' = record m { health = h } in
      let refused = record waiting { status = failed; error = pending_not_persisted } in
      let entry : Pending = record { ref = length m.objects; responder = responder } in
      let t'' = if m.has_notifier then notified a.action_id ∷ t' else t' in
      if written
      then publish waiting (record m' { pending = Dict.put a.action_id entry m.pending }) t''
      else publish refused m' t'

  -- What `handle` does with the outcome of `_run`: if the responder raised, the action is not listed.
  unfoldable pub list_run :
      Result Bool → ResponderAction → Manager → Trace → Option ℕ × Manager × Trace
  unfolding publish
  list_run (raised exc) a m t = (none, m, t)
  list_run (ok _) a m t = publish a m t

  -- The branch of `handle` that executes.
  unfoldable pub run_now :
      ResponderAction → Responder → Manager → Trace → Option ℕ × Manager × Trace
  unfolding list_run
  run_now a responder m t =
      let (outcome, a', h, t') = run_action m.has_db m.health a responder t in
      list_run outcome a' (record m { health = h }) t'

  -- `handle` for a planned action whose plan is recorded.
  unfoldable pub gate :
      Alert → ResponderAction → Responder → Manager → Trace → Option ℕ × Manager × Trace
  unfolding publish
  gate alert a responder m t =
      if m.config.dry_run
      then publish a m t
      else if needs_approval m.config alert
      then hold a responder m t
      else run_now a responder m t

  -- `handle` for an action that `plan` returned.
  unfoldable pub consider :
      Alert → ResponderAction → Responder → Manager → Trace → Option ℕ × Manager × Trace
  unfolding publish
  consider alert proposal responder m t =
      let a = record proposal {
        dry_run = m.config.dry_run;
        alert_id = alert.alert_id;
        status = planned;
      } in
      let (written, h, t') = persist m.has_db m.health a t in
      let m' = record m { health = h } in
      if written
      then gate alert a responder m' t'
      else publish (record a { status = failed; error = plan_not_persisted }) m' t'

  -- After the activity callback, which raised or not.
  unfoldable pub after_observer :
      Option String
      → Alert
      → ResponderAction
      → Responder
      → Manager
      → Trace
      → Option ℕ × Manager × Trace
  after_observer (some exc) alert a responder m t = (none, m, t)
  after_observer none alert a responder m t = consider alert a responder m t

  -- What `handle` does with the outcome of `plan`.
  unfoldable pub after_plan :
      Result (Option ResponderAction)
      → Alert
      → Responder
      → Manager
      → Trace
      → Option ℕ × Manager × Trace
  unfolding after_observer
  after_plan (raised exc) alert responder m t = (none, m, t)
  after_plan (ok none) alert responder m t = (none, m, t)
  after_plan (ok (some a)) alert responder m t =
      let t' = proposed a ∷ t in
      if m.has_observer
      then after_observer (env.activity_error t' responder.name) alert a responder m
          (observed responder.name ∷ t')
      else consider alert a responder m t'

  -- What it does with the outcome of `can_handle`.
  unfoldable pub after_can_handle :
      Result Bool → Alert → Responder → Manager → Trace → Option ℕ × Manager × Trace
  after_can_handle (raised exc) alert responder m t = (none, m, t)
  after_can_handle (ok false) alert responder m t = (none, m, t)
  after_can_handle (ok true) alert responder m t =
      after_plan (responder.plan alert t) alert responder m t

  -- The body of the loop of `handle`, with its `except`: none if no action is listed.
  unfoldable pub handle_one : Alert → Responder → Manager → Trace → Option ℕ × Manager × Trace
  unfolding after_can_handle after_plan
  handle_one alert responder m t = after_can_handle (responder.can_handle alert) alert responder m t

  -- The loop of `handle` over the responders: the references of the actions, in order.
  unfoldable pub handle_all : Alert → List Responder → Manager → Trace → List ℕ × Manager × Trace
  handle_all alert [] m t = ([], m, t)
  handle_all alert (responder ∷ responders) m t =
      let (outcome, m', t') = handle_one alert responder m t in
      let (refs, m'', t'') = handle_all alert responders m' t' in
      (to_list outcome ++ refs, m'', t'')

  unfoldable pub handle : Alert → Manager → Trace → List ℕ × Manager × Trace
  handle alert m t =
      let (refs, m', t') = handle_all alert m.responders m t in
      if m.config.enabled
      then (refs, record m' { recent = extend_right max_recent m'.recent refs }, t')
      else ([], m, t)

  -- What `approve` does with the outcome of `_run`.
  unfoldable pub after_approval :
      Result Bool
      → String
      → ℕ
      → ResponderAction
      → Manager
      → Trace
      → Result (Option ResponderAction) × Manager × Trace
  after_approval (raised exc) action_id ref a m t =
      (raised exc, record m { objects = set m.objects ref a }, t)
  after_approval (ok true) action_id ref a m t = (
    ok (some a),
    record m { objects = set m.objects ref a; pending = Dict.remove action_id m.pending },
    t,
  )
  after_approval (ok false) action_id ref a m t =
      let kept = record a { status = pending } in
      (ok (some kept), record m { objects = set m.objects ref kept }, t)

  unfoldable pub approve_entry :
      String
      → Pending
      → ResponderAction
      → Manager
      → Trace
      → Result (Option ResponderAction) × Manager × Trace
  unfolding after_approval
  approve_entry action_id entry a m t =
      let (outcome, a', h, t') = run_action m.has_db m.health a entry.responder t in
      after_approval outcome action_id entry.ref a' (record m { health = h }) t'

  unfoldable pub approve :
      String → Manager → Trace → Result (Option ResponderAction) × Manager × Trace
  approve action_id m t = elim (Dict.get action_id m.pending) [
    | none ↦ (ok none, m, t)
    | some entry ↦ elim (get_elem? m.objects entry.ref) [
      | none ↦ (ok none, m, t)
      | some a ↦ approve_entry action_id entry a m t
    ]
  ]

  unfoldable pub reject_entry :
      String
      → Pending
      → ResponderAction
      → Manager
      → Trace
      → Option ResponderAction × Manager × Trace
  reject_entry action_id entry a m t =
      let declined = record a { status = rejected } in
      let kept = record a { status = pending } in
      let (written, h, t') = persist m.has_db m.health declined t in
      let m' = record m { health = h } in
      if written
      then (
        some declined,
        record m' {
          objects = set m.objects entry.ref declined;
          pending = Dict.remove action_id m.pending;
        },
        t',
      )
      else (some kept, record m' { objects = set m.objects entry.ref kept }, t')

  unfoldable pub reject : String → Manager → Trace → Option ResponderAction × Manager × Trace
  reject action_id m t = elim (Dict.get action_id m.pending) [
    | none ↦ (none, m, t)
    | some entry ↦ elim (get_elem? m.objects entry.ref) [
      | none ↦ (none, m, t)
      | some a ↦ reject_entry action_id entry a m t
    ]
  ]
