-- ===== src/Responders/Safety.antt =====
-- What a responder promises its manager, and that the four responders keep the promise: an effect
-- of `execute` or `expire` is announced by a row that is already in the ledger.
use sentinel_pi.Prelude.{
  ◌≡◌, refl, Bool, true, List, [], ◌∷◌, elem, elem-head, elem-tail, string_key, argv_key, arith,
}
use sentinel_pi.World.{Argv, ResponderAction, ran, Trace, Env}
use sentinel_pi.World.Audit.{announces, undoes, announces_domain, some_saved, audited}
use sentinel_pi.Responders.{Responder, run_commands}

-- The ledger announces all that executing the action may do.
pub record IsAnnounced (a : ResponderAction) (t : Trace) : Type 0 where
  pub commands : (argv : Argv) → elem argv a.commands ≡ true → some_saved (announces argv) t ≡ true
  pub domain : some_saved (announces_domain a.target) t ≡ true

-- The ledger announces the roll-back of the action.
pub record IsUndoing (a : ResponderAction) (t : Trace) : Type 0 where
  pub undo :
      (argv : Argv) → undoes a.rollback_commands argv ≡ true → some_saved (announces argv) t ≡ true

pub record IsSafe (r : Responder) : Type 0 where
  pub execute_safe :
      (a : ResponderAction) (t : Trace)
      → IsAnnounced a t
      → audited t ≡ true
      → audited (r.execute a t).2 ≡ true
  pub expire_safe :
      (a : ResponderAction) (t : Trace)
      → IsUndoing a t
      → audited t ≡ true
      → audited (r.expire a t).1 ≡ true

some_saved-ran :
    (p : ResponderAction → Bool) (argv : Argv) (t : Trace)
    → some_saved p (ran argv ∷ t) ≡ some_saved p t
unfolding some_saved
some_saved-ran p argv t = refl

pub audited-ran :
    (argv : Argv) (t : Trace)
    → some_saved (announces argv) t ≡ true
    → audited t ≡ true
    → audited (ran argv ∷ t) ≡ true
unfolding audited
audited-ran argv t h k = rw (h, k)

-- The trace is audited, and the ledger announces every command that passes a test.
pub record Covers (p : Argv → Bool) (t : Trace) : Type 0 where
  pub announced : (argv : Argv) → p argv ≡ true → some_saved (announces argv) t ≡ true
  pub audit : audited t ≡ true

pub Covers-ran :
    (p : Argv → Bool) (argv : Argv) (t : Trace)
    → p argv ≡ true
    → Covers p t
    → Covers p (ran argv ∷ t)
Covers-ran p argv t h c = record {
  announced = λ other k. rw some_saved-ran (c.announced other k);
  audit = audited-ran argv t (c.announced argv h) c.audit;
}

module _ (env : Env) where
  -- The shared loop runs commands of its list alone.
  pub run_commands-audited :
      (cs : List Argv) (a : ResponderAction) (t : Trace)
      → ((argv : Argv) → elem argv cs ≡ true → some_saved (announces argv) t ≡ true)
      → audited t ≡ true
      → audited (run_commands env cs a t).1 ≡ true
  unfolding run_commands
  run_commands-audited [] a t h k = k
  run_commands-audited (argv ∷ cs) a t h k =
      let here = audited-ran argv t (h argv (elem-head argv cs)) k in
      ground (
        arith,
        here,
        run_commands-audited cs a (ran argv ∷ t)
            (λ c m. rw some_saved-ran (h c (elem-tail c argv cs m))) here,
      )
