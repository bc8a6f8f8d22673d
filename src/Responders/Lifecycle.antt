-- ===== src/Responders/Lifecycle.antt =====
-- responders/manager.py: the rest of a manager's life. Loading the ledger at startup, registering
-- responders, rolling back what is due, and the two lists that the dashboard reads.
use sentinel_pi.Prelude.{
  ℕ, zero, suc, ◌+◌, String, Bool, true, false, ◌&&◌, Option, none, some, List, [], ◌∷◌, ◌++◌,
  length, get_elem?, set, push_right, last_n, leb, string_key, eqb, if◌then◌else◌,
}
use sentinel_pi.Prelude.Dict
use sentinel_pi.Prelude.Dict.{Dict}
use sentinel_pi.Models.{Datetime}
use sentinel_pi.Health.{load}
use sentinel_pi.Responders.{ResponseConfig, Responder}
use sentinel_pi.Responders.Manager.{Manager, Pending, max_recent, persist}
use sentinel_pi.World.{
  Status, pending, executed, expiring, expired, expiration_failed, ActionError, no_error,
  exception_text, ResponderAction, HealthState, Trace, Env, Result, ok, raised,
}

-- `{responder.name: responder for responder in self._responders}`: a later one of a name wins.
unfoldable pub by_name : List Responder → Dict String Responder → Dict String Responder
by_name [] d = d
by_name (r ∷ rs) d = by_name rs (Dict.put r.name r d)

-- `action.status in {EXECUTED, EXPIRING, EXPIRATION_FAILED}`
abbrev pub is_timed : Status → Bool
is_timed executed = true
is_timed expiring = true
is_timed expiration_failed = true
is_timed _ = false

-- `action.expires_at is not None and action.expires_at <= current`
abbrev pub has_passed : Option Datetime → Datetime → Bool
has_passed none current = false
has_passed (some at) current = leb at current

-- The conditions on the action itself; due_actions has the rest.
abbrev pub is_due : ResponderAction → Datetime → Bool
is_due a current = is_timed a.status && has_passed a.expires_at current

-- The list `due`: references with the status that they had.
unfoldable pub due_actions :
    Datetime → Dict String Responder → List ResponderAction → List ℕ → List (ℕ × Status)
due_actions current responders objects [] = []
due_actions current responders objects (ref ∷ refs) =
    let rest = due_actions current responders objects refs in
    elim (get_elem? objects ref) [
      | none ↦ rest
      | some a ↦ elim (Dict.get a.responder responders) [
        | none ↦ rest
        | some responder ↦ if is_due a current then (ref, a.status) ∷ rest else rest
      ]
    ]

-- `for action, _ in due: action.status = EXPIRING`
unfoldable pub mark_expiring : List (ℕ × Status) → List ResponderAction → List ResponderAction
mark_expiring [] objects = objects
mark_expiring ((ref, _) ∷ due) objects = elim (get_elem? objects ref) [
  | none ↦ mark_expiring due objects
  | some a ↦ mark_expiring due (set objects ref (record a { status = expiring }))
]

-- What `expire` reported, an exception included.
abbrev pub expire_outcome : Result (Bool × ActionError) → Bool × ActionError
expire_outcome (ok r) = r
expire_outcome (raised exc) = (false, exception_text exc)

-- The action as `reconcile_expired` leaves it when `expire` has reported.
unfoldable pub settled : Bool × ActionError → Datetime → ResponderAction → ResponderAction
settled (success, error) now a =
    if success
    then record a { expired_at = some now; status = expired; error = no_error }
    else record a { expired_at = some now; status = expiration_failed; error = error }

module _ (env : Env) where
  -- The body of the loop of `reconcile_expired`: the action, and whether it was counted.
  unfoldable pub expire_action :
      Bool
      → HealthState
      → Datetime
      → Status
      → Responder
      → ResponderAction
      → Trace
      → Bool × ResponderAction × HealthState × Trace
  expire_action db h current previous responder a t =
      let (written, h', t') = persist env db h a t in
      let (outcome, t'') = responder.expire a t' in
      let a' = settled (expire_outcome outcome) current a in
      let (_, h'', t''') = persist env db h' a' t'' in
      if written
      then ((expire_outcome outcome).0, a', h'', t''')
      else (false, record a { status = previous }, h', t')

  -- The loop: how many actions have expired.
  unfoldable pub expire_due :
      Datetime → Dict String Responder → List (ℕ × Status) → Manager → Trace → ℕ × Manager × Trace
  expire_due current responders [] m t = (0, m, t)
  expire_due current responders ((ref, previous) ∷ due) m t = elim (get_elem? m.objects ref) [
    | none ↦ expire_due current responders due m t
    | some a ↦ elim (Dict.get a.responder responders) [
      | none ↦ expire_due current responders due m t
      | some responder ↦
          let (success, a', h, t') =
            expire_action m.has_db m.health current previous responder a t in
          let (n, m', t'') =
            expire_due current responders due
              (record m { objects = set m.objects ref a'; health = h }) t' in
          (if success then n + 1 else n, m', t'')
    ]
  ]

  -- `reconcile_expired`, at the time that the caller gives or reads.
  unfoldable pub reconcile_expired : Datetime → Manager → Trace → ℕ × Manager × Trace
  reconcile_expired current m t =
      let responders = by_name m.responders [] in
      let due = due_actions current responders m.objects m.recent in
      expire_due current responders due (record m { objects = mark_expiring due m.objects }) t

  -- The loop of `add_responder` over the loaded approvals that no responder has claimed.
  unfoldable pub bind_pending : Responder → Dict String ℕ → Manager → Manager
  bind_pending r [] m = m
  bind_pending r ((action_id, ref) ∷ unbound) m =
      let mine = elim (get_elem? m.objects ref) as (λ _. Bool) [
        | none ↦ false
        | some a ↦ eqb a.responder r.name
      ] in
      let entry : Pending = record { ref = ref; responder = r } in
      bind_pending r unbound (
        if mine
        then record m {
          pending = Dict.put action_id entry m.pending;
          unbound_pending = Dict.remove action_id m.unbound_pending;
        }
        else m)

  unfoldable pub add_responder : Responder → Manager → Trace → Manager × Trace
  add_responder r m t =
      let m' =
        bind_pending r m.unbound_pending (record m { responders = m.responders ++ r ∷ [] }) in
      let (_, m'', t') = reconcile_expired (env.clock t) m' t in (m'', t')

abbrev pub is_pending : Status → Bool
is_pending pending = true
is_pending _ = false

-- One row of the loop of `_load_actions`; none for a row that does not parse.
unfoldable pub load_row : Option ResponderAction → Manager → Manager
load_row none m = m
load_row (some a) m =
    let ref = length m.objects in
    let m' = record m {
      objects = m.objects ++ a ∷ [];
      recent = push_right max_recent m.recent ref;
    } in
    if is_pending a.status
    then record m' { unbound_pending = Dict.put a.action_id ref m.unbound_pending }
    else m'

unfoldable pub load_rows : List (Option ResponderAction) → Manager → Manager
load_rows [] m = m
load_rows (row ∷ rows) m = load_rows rows (load_row row m)

abbrev pub empty_manager : Bool → ResponseConfig → HealthState → Manager
empty_manager db rc h = record {
  has_db = db;
  config = rc;
  responders = [];
  objects = [];
  recent = [];
  pending = [];
  unbound_pending = [];
  has_notifier = false;
  has_observer = false;
  health = h;
}

-- `__init__`: what the stored health reads, and the rows of `get_response_actions`, oldest first, or
-- none if that call raises.
unfoldable pub init :
    Env
    → ResponseConfig
    → Option (Result (Option HealthState) × Option (List (Option ResponderAction)))
    → Trace
    → Manager
init env rc none t = empty_manager false rc (load env (ok none) t)
init env rc (some (stored, none)) t = empty_manager true rc (load env stored t)
init env rc (some (stored, some rows)) t =
    load_rows rows (empty_manager true rc (load env stored t))

-- The actions behind references.
unfoldable pub resolve : List ResponderAction → List ℕ → List ResponderAction
resolve objects [] = []
resolve objects (ref ∷ refs) = elim (get_elem? objects ref) [
  | none ↦ resolve objects refs
  | some a ↦ a ∷ resolve objects refs
]

-- `items[-limit:]`; a limit of 0 means the whole list, as `items[-0:]` does.
unfoldable pub recent_actions : ℕ → Manager → List ResponderAction
unfolding resolve
recent_actions zero m = resolve m.objects m.recent
recent_actions (suc n) m = last_n (suc n) (resolve m.objects m.recent)

unfoldable pub pending_refs : Dict String Pending → List ℕ
pending_refs [] = []
pending_refs ((_, entry) ∷ d) = entry.ref ∷ pending_refs d

unfoldable pub pending_actions : Manager → List ResponderAction
unfolding resolve pending_refs
pending_actions m = resolve m.objects (pending_refs m.pending)
