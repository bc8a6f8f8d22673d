-- ===== src/Responders/Commands.antt =====
-- What the shared loop over an action's commands reports, and what becomes of an action that failed.
use sentinel_pi.Prelude.{
  ℕ, ◌+◌, ◌≤◌, String, ◌≡◌, ◌↔◌, refl, Bool, true, false, Option, none, some, List, [], ◌∷◌, map,
  length, get_elem?, elem, ltb, leb, ◌&&◌, arith, nat_key, string_key, Option-cases, Bool-cases,
  inl, inr,
}
use sentinel_pi.Prelude.Dict
use sentinel_pi.Prelude.Dict.{Dict}
use sentinel_pi.Models.{Datetime, seconds}
use sentinel_pi.World.{Argv, ResponderAction, ran, Trace, Env}
use sentinel_pi.World.Audit.{effects}
use sentinel_pi.Responders.{Responder, command_error, run_commands}
use sentinel_pi.Responders.Lifecycle.{is_due, due_actions}
use sentinel_pi.Responders.Manager.{finished}

-- The trace after running all the commands.
abbrev pub ran_all : List Argv → Trace → Trace
ran_all [] t = t
ran_all (argv ∷ cs) t = ran_all cs (ran argv ∷ t)

-- Each command succeeds at the point where it is run.
abbrev pub AllSucceed : Env → List Argv → Trace → Type 0
AllSucceed env [] t = Unit
AllSucceed env (argv ∷ cs) t = (command_error env argv t ≡ none) × AllSucceed env cs (ran argv ∷ t)

module _ (env : Env) where
  -- If every command succeeds, all of them are run in order and the action succeeds.
  pub run_commands-succeed :
      (cs : List Argv) (a : ResponderAction) (t : Trace)
      → AllSucceed env cs t
      → run_commands env cs a t ≡ (record a { executed = true; success = true }, ran_all cs t)
  unfolding run_commands
  run_commands-succeed [] a t h = refl
  run_commands-succeed (argv ∷ cs) a t h =
      rw (h.0, run_commands) (run_commands-succeed cs a (ran argv ∷ t) h.1)

  -- The loop reports success exactly if every command succeeded; it runs each command at most once.
  run_commands_lem :
      (cs : List Argv) (a : ResponderAction) (t : Trace)
      → let (a', t') = run_commands env cs a t in
        (a'.executed ≡ true)
        × ((a'.success ≡ true) ↔ AllSucceed env cs t)
        × (effects t' ≤ effects t + length cs)
  unfolding run_commands effects
  run_commands_lem [] a t = (refl, ((λ _. tt), (λ _. refl)), omega arith)
  run_commands_lem (argv ∷ cs) a t = elim (Option-cases (command_error env argv t)) [
    | inl e ↦
        let (x, y, z) = run_commands_lem cs a (ran argv ∷ t) in
        rw (e, run_commands) (x, ((λ h. (refl, y.0 h)), (λ h. y.1 h.1)), omega (arith, z))
    | inr (error, e) ↦
        rw (e, run_commands)
          (refl, ((λ h. absurd (ground arith)), (λ h. absurd (ground arith))), omega arith)
  ]

-- The action is due, and its responder is registered.
abbrev expires : Datetime → Dict String Responder → Option ResponderAction → Bool
expires current responders none = false
expires current responders (some a) = elim (Dict.get a.responder responders) [
  | none ↦ false
  | some responder ↦ is_due a current
]

due_actions-elem :
    (current : Datetime) (responders : Dict String Responder) (objects : List ResponderAction)
    (refs : List ℕ) (ref : ℕ)
    → elem ref (map (λ due. due.0) (due_actions current responders objects refs))
      ≡ (elem ref refs && expires current responders (get_elem? objects ref))
unfolding due_actions
due_actions-elem current responders objects [] ref = refl
due_actions-elem current responders objects (r ∷ refs) ref =
    let rest = due_actions-elem current responders objects refs ref in
    elim (Option-cases (get_elem? objects r)) [
      | inl e ↦ rw (e, due_actions) (ground (arith, rest, e))
      | inr (a, e) ↦ elim (Option-cases (Dict.get a.responder responders)) [
        | inl f ↦ rw (e, f, due_actions) (ground (arith, rest, e, f))
        | inr (responder, f) ↦ elim (Bool-cases (is_due a current)) [
          | inl g ↦ rw (e, f, g, due_actions) (ground (arith, rest, e, f, g))
          | inr g ↦ rw (e, f, g, due_actions) (ground (arith, rest, e, f, g))
        ]
      ]
    ]

abbrev pub is_registered : String → Dict String Responder → Bool
is_registered name responders = elim (Dict.get name responders) [
  | none ↦ false
  | some responder ↦ true
]

-- An action without an expiry that has just been run is on the list of actions to roll back at a
-- later time exactly if it is one of the recent actions, its responder is registered, it succeeded,
-- it has a duration and that duration has passed.
pub due_actions-finished :
    (a : ResponderAction) (now later : Datetime) (responders : Dict String Responder)
    (objects : List ResponderAction) (recent : List ℕ) (ref : ℕ)
    → a.expires_at ≡ none
    → get_elem? objects ref ≡ some (finished a now)
    → elem ref (map (λ due. due.0) (due_actions later responders objects recent)) ≡ (
        elem ref recent
        && is_registered a.responder responders
        && a.success
        && ltb 0 a.duration_seconds
        && leb (now + seconds a.duration_seconds) later)
unfolding finished
due_actions-finished a now later responders objects recent ref e at =
    rw (due_actions-elem later responders objects recent ref, at)
      (elim (Option-cases (Dict.get a.responder responders)) [
        | inl f ↦ rw (f, expires) (ground (arith, f))
        | inr (responder, f) ↦ rw (f, expires) (ground (arith, e, f))
      ])
