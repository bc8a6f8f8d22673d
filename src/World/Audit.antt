-- ===== src/World/Audit.antt =====
-- The audit trail that ADR 0002 asks for: nothing is done to the network unless a committed row of
-- the response ledger already announces it.
use sentinel_pi.Prelude.{
  ℕ, suc, String, Bool, true, false, ◌&&◌, ◌||◌, List, [], ◌∷◌, elem, eqb, argv_key, string_key,
}
use sentinel_pi.World.{
  Argv, Status, executing, expiring, ResponderAction, saved, ran, sinkholed, Trace,
}

-- The commands that ask whether the rules of roll-back commands are there: `-C` for their flag.
abbrev pub checks : List Argv → List Argv
checks [] = []
checks ((program ∷ _ ∷ rest) ∷ commands) = (program ∷ "-C" ∷ rest) ∷ checks commands
checks (_ ∷ commands) = checks commands

-- nft lists the output or the input chain, or deletes a rule of one of them by its handle.
abbrev pub is_nft_undo : Argv → Bool
is_nft_undo (a ∷ b ∷ c ∷ d ∷ e ∷ f ∷ chain ∷ []) =
    eqb (a ∷ b ∷ c ∷ d ∷ e ∷ f ∷ []) ("nft" ∷ "-a" ∷ "list" ∷ "chain" ∷ "inet" ∷ "filter" ∷ [])
    && elem chain ("output" ∷ "input" ∷ [])
is_nft_undo (a ∷ b ∷ c ∷ d ∷ e ∷ chain ∷ g ∷ handle ∷ []) =
    eqb (a ∷ b ∷ c ∷ d ∷ e ∷ g ∷ []) ("nft" ∷ "delete" ∷ "rule" ∷ "inet" ∷ "filter" ∷ "handle" ∷ [])
    && elem chain ("output" ∷ "input" ∷ [])
is_nft_undo _ = false

-- A command that takes part in the roll-back of an action with these roll-back commands.
abbrev pub undoes : List Argv → Argv → Bool
undoes commands argv = elem argv commands || elem argv (checks commands) || is_nft_undo argv

abbrev pub announces_as : Status → List Argv → List Argv → Argv → Bool
announces_as executing commands undo argv = elem argv commands
announces_as expiring commands undo argv = undoes undo argv
announces_as _ commands undo argv = false

-- A row announces a command: an EXECUTING row its own commands, an EXPIRING row the roll-back of its
-- action.
abbrev pub announces : Argv → ResponderAction → Bool
announces argv a = announces_as a.status a.commands a.rollback_commands argv

abbrev pub sinkholes_as : Status → String → String → Bool
sinkholes_as executing target domain = eqb domain target
sinkholes_as _ target domain = false

-- An EXECUTING row announces the sinkholing of its target.
abbrev pub announces_domain : String → ResponderAction → Bool
announces_domain domain a = sinkholes_as a.status a.target domain

-- Some committed row passes a test.
unfoldable pub some_saved : (ResponderAction → Bool) → Trace → Bool
some_saved p [] = false
some_saved p (saved a ∷ t) = p a || some_saved p t
some_saved p (_ ∷ t) = some_saved p t

-- Every effect of the trace was announced by a row that was committed before it.
unfoldable pub audited : Trace → Bool
audited [] = true
audited (ran argv ∷ t) = some_saved (announces argv) t && audited t
audited (sinkholed domain ∷ t) = some_saved (announces_domain domain) t && audited t
audited (_ ∷ t) = audited t

-- How many effects there were.
unfoldable pub effects : Trace → ℕ
effects [] = 0
effects (ran argv ∷ t) = suc (effects t)
effects (sinkholed domain ∷ t) = suc (effects t)
effects (_ ∷ t) = effects t
