-- ===== src/Responders/Runs.antt =====
-- A manager's life as a sequence of operations, from its start on the rows of the ledger, and the
-- audit of everything that it does.
use sentinel_pi.Prelude.{
  ◌+◌, String, ◌≡◌, refl, Bool, true, Option, none, some, List, [], ◌∷◌, ◌++◌, length,
  length-append, ◌-◌, arith, All, if_intro, ◌⊎◌, inl, inr, subst, sym,
}
use sentinel_pi.Models.{Alert, Datetime}
use sentinel_pi.World.{ResponderAction, HealthState, Trace, Env, Result}
use sentinel_pi.World.Audit.{audited}
use sentinel_pi.Responders.{ResponseConfig, Responder}
use sentinel_pi.Responders.Ascends.{Ascends, Ascends-append, Ascends-drop}
use sentinel_pi.Responders.Lifecycle.{
  reconcile_expired, add_responder, is_pending, load_row, load_rows, init,
}
use sentinel_pi.Responders.Manager.{Manager, max_recent, handle, approve, reject}
use sentinel_pi.Responders.Operations.{approve-IsSound, reject-IsSound}
use sentinel_pi.Responders.Rollback.{reconcile_expired-IsSound, add_responder-IsSound}
use sentinel_pi.Responders.Safety.{IsSafe}
use sentinel_pi.Network.{Address}
use sentinel_pi.Responders.ArpRestore
use sentinel_pi.Responders.DnsSinkhole
use sentinel_pi.Responders.Firewall
use sentinel_pi.Responders.KillSwitch
use sentinel_pi.Responders.Keeps.{
  firewall-IsSafe, sinkhole-IsSafe, arp_restore-IsSafe, killswitch-IsSafe,
}
use sentinel_pi.Responders.Sound.{IsSound}
use sentinel_pi.Responders.Handles.{handle-IsSound}

pub data Operation : Type 0 where
  handle_alert : Alert → Operation
  approve_action : String → Operation
  reject_action : String → Operation
  reconcile_at : Datetime → Operation
  register : Responder → Operation
  -- `set_pending_notifier`, `set_activity_callback`
  listen : (has_notifier has_observer : Bool) → Operation

abbrev pub IsSafeOperation : Operation → Type 0
IsSafeOperation (register r) = IsSafe r
IsSafeOperation _ = Unit

module _ (env : Env) where
  unfoldable pub perform : Operation → Manager → Trace → Manager × Trace
  perform (handle_alert alert) m t = let (_, m', t') = handle env alert m t in (m', t')
  perform (approve_action id) m t = let (_, m', t') = approve env id m t in (m', t')
  perform (reject_action id) m t = let (_, m', t') = reject env id m t in (m', t')
  perform (reconcile_at now) m t = let (_, m', t') = reconcile_expired env now m t in (m', t')
  perform (register r) m t = add_responder env r m t
  perform (listen n o) m t = (record m { has_notifier = n; has_observer = o }, t)

  unfoldable pub perform_all : List Operation → Manager → Trace → Manager × Trace
  perform_all [] m t = (m, t)
  perform_all (op ∷ ops) m t = let (m', t') = perform op m t in perform_all ops m' t'

  perform-IsSound :
      (op : Operation) (m : Manager) (t : Trace)
      → IsSafeOperation op
      → IsSound m t
      → IsSound (perform op m t).0 (perform op m t).1
  unfolding perform
  perform-IsSound (handle_alert alert) m t safe s = handle-IsSound env alert m t s
  perform-IsSound (approve_action id) m t safe s = approve-IsSound env id m t s
  perform-IsSound (reject_action id) m t safe s = reject-IsSound env id m t s
  perform-IsSound (reconcile_at now) m t safe s = reconcile_expired-IsSound env now m t s
  perform-IsSound (register r) m t safe s = add_responder-IsSound env r m t safe s
  perform-IsSound (listen n o) m t safe s = record {
    ledger = s.ledger;
    responders = s.responders;
    queued = s.queued;
    listed = s.listed;
    audit = s.audit;
  }

  perform_all-IsSound :
      (ops : List Operation) (m : Manager) (t : Trace)
      → All IsSafeOperation ops
      → IsSound m t
      → IsSound (perform_all ops m t).0 (perform_all ops m t).1
  unfolding perform_all
  perform_all-IsSound [] m t safe s = s
  perform_all-IsSound (op ∷ ops) m t safe s =
      perform_all-IsSound ops _ _ safe.1 (perform-IsSound op m t safe.0 s)

-- Loading.

record IsLoaded (m : Manager) : Type 0 where
  ledger : m.has_db ≡ true
  responders : m.responders ≡ []
  queue : m.pending ≡ []
  listed : Ascends 0 m.recent (length m.objects)

load_row-IsLoaded :
    (row : Option ResponderAction) (m : Manager) → IsLoaded m → IsLoaded (load_row row m)
unfolding load_row
load_row-IsLoaded none m l = l
load_row-IsLoaded (some a) m l =
    let grown = m.objects ++ a ∷ [] in
    let size : length grown ≡ length m.objects + 1 = length-append m.objects (a ∷ []) in
    let listed : Ascends 0 (m.recent ++ length m.objects ∷ []) (length grown) =
      Ascends-append 0 m.recent (length m.objects) (length m.objects ∷ []) (length grown) l.listed
        (omega arith, omega arith) in
    let kept =
      Ascends-drop (length (m.recent ++ length m.objects ∷ []) - max_recent) 0 _ _ listed in
    if_intro IsLoaded (is_pending a.status)
      (λ _. record { ledger = l.ledger; responders = l.responders; queue = l.queue; listed = kept })
      (λ _. record { ledger = l.ledger; responders = l.responders; queue = l.queue; listed = kept })

load_rows-IsLoaded :
    (rows : List (Option ResponderAction)) (m : Manager) → IsLoaded m → IsLoaded (load_rows rows m)
unfolding load_rows
load_rows-IsLoaded [] m l = l
load_rows-IsLoaded (row ∷ rows) m l = load_rows-IsLoaded rows _ (load_row-IsLoaded row m l)

IsLoaded-IsSound : (m : Manager) (t : Trace) → IsLoaded m → audited t ≡ true → IsSound m t
IsLoaded-IsSound m t l k = record {
  ledger = l.ledger;
  responders = rw l.responders tt;
  queued = rw l.queue tt;
  listed = l.listed;
  audit = k;
}

init-IsSound :
    (env : Env) (rc : ResponseConfig) (stored : Result (Option HealthState))
    (rows : Option (List (Option ResponderAction))) (t : Trace)
    → audited t ≡ true
    → IsSound (init env rc (some (stored, rows)) t) t
unfolding init
init-IsSound env rc stored none t k =
    IsLoaded-IsSound _ t
      (record { ledger = refl; responders = refl; queue = refl; listed = omega arith }) k
init-IsSound env rc stored (some rows) t k =
    IsLoaded-IsSound _ t
      (load_rows-IsLoaded rows _
        (record { ledger = refl; responders = refl; queue = refl; listed = omega arith }))
      k

-- The responders that the program has.
abbrev pub IsBuiltIn : Env → (String → Option Address) → ResponseConfig → Responder → Type 0
IsBuiltIn env ip_address rc r =
    (r ≡ Firewall.responder env ip_address rc)
    ⊎ (r ≡ DnsSinkhole.responder env ip_address rc)
    ⊎ (r ≡ ArpRestore.responder env rc)
    ⊎ (r ≡ KillSwitch.responder env rc)

IsBuiltIn-IsSafe :
    (env : Env) (ip_address : String → Option Address) (rc : ResponseConfig) (r : Responder)
    → IsBuiltIn env ip_address rc r
    → IsSafe r
IsBuiltIn-IsSafe env ip_address rc r (inl e) =
    subst IsSafe (sym e) (firewall-IsSafe env ip_address rc)
IsBuiltIn-IsSafe env ip_address rc r (inr (inl e)) =
    subst IsSafe (sym e) (sinkhole-IsSafe env ip_address rc)
IsBuiltIn-IsSafe env ip_address rc r (inr (inr (inl e))) =
    subst IsSafe (sym e) (arp_restore-IsSafe env rc)
IsBuiltIn-IsSafe env ip_address rc r (inr (inr (inr e))) =
    subst IsSafe (sym e) (killswitch-IsSafe env rc)

-- The operation registers no other responder.
abbrev pub IsBuiltInOperation :
    Env → (String → Option Address) → ResponseConfig → Operation → Type 0
IsBuiltInOperation env ip_address rc (register r) = IsBuiltIn env ip_address rc r
IsBuiltInOperation env ip_address rc _ = Unit

IsBuiltInOperation-IsSafeOperation :
    (env : Env) (ip_address : String → Option Address) (rc : ResponseConfig) (ops : List Operation)
    → All (IsBuiltInOperation env ip_address rc) ops
    → All IsSafeOperation ops
IsBuiltInOperation-IsSafeOperation env ip_address rc [] h = tt
IsBuiltInOperation-IsSafeOperation env ip_address rc (op ∷ ops) h =
    (one op h.0, IsBuiltInOperation-IsSafeOperation env ip_address rc ops h.1)
  where
    one : (op : Operation) → IsBuiltInOperation env ip_address rc op → IsSafeOperation op
    one (handle_alert alert) h = tt
    one (approve_action id) h = tt
    one (reject_action id) h = tt
    one (reconcile_at now) h = tt
    one (register r) h = IsBuiltIn-IsSafe env ip_address rc r h
    one (listen n o) h = tt

-- From the start on a database, whatever its rows are, whatever the writes and the commands do, and
-- whatever operations follow with the four responders of the program, every command and every
-- sinkholed domain of the trace was announced by a row that had been committed before it. An
-- EXECUTING row announces the commands and the target of its action; an EXPIRING row the roll-back
-- commands of its action, the checks for their rules, and the listing of a chain and the deletion
-- of a rule by its handle with nft (which handle, the row does not say).
pub perform_all-audited :
    (env : Env) (ip_address : String → Option Address) (rc : ResponseConfig)
    (stored : Result (Option HealthState)) (rows : Option (List (Option ResponderAction)))
    (ops : List Operation)
    → All (IsBuiltInOperation env ip_address rc) ops
    → audited (perform_all env ops (init env rc (some (stored, rows)) []) []).1 ≡ true
perform_all-audited env ip_address rc stored rows ops ours =
    (perform_all-IsSound env ops _ []
      (IsBuiltInOperation-IsSafeOperation env ip_address rc ops ours)
      (init-IsSound env rc stored rows [] (unfold audited in refl))).audit
