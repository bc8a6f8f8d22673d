-- ===== src/Responders/Blocks.antt =====
-- The firewall responder against an iptables: expiry takes out again what execution put in.
use text.Mathlib.TextEquality.{eq_iff}
use sentinel_pi.Prelude.{
  ◌+◌, ◌<◌, String, ◌≡◌, ◌≢◌, refl, ap, sym, ◌∙◌, Bool, true, false, Option, none, some, List, [],
  ◌∷◌, string_key, argv_key, eqb_refl, eqb_ne, eqb, if◌then◌else◌, arith, inl, inr,
}
use sentinel_pi.Models.{Alert}
use sentinel_pi.Network.{Address}
use sentinel_pi.World.{
  Argv, ActionError, no_error, ResponderAction, ran, Trace, Env, Result, ok, raised,
}
use sentinel_pi.Responders.{ResponseConfig, command_error, run_commands}
use sentinel_pi.Responders.Commands.{run_commands-succeed}
use sentinel_pi.Responders.Firewall.{
  is_nftables, Expiry, check_argv, after_check, expire_one, expire_iptables, plan, execute, expire,
}
use sentinel_pi.Responders.Iptables.{
  in_force, IsDrop, is_ipv4, IsIptables, out_rule, in_rule, in_force-check, in_force-insert,
  in_force-delete,
}

first_word : Argv → String
first_word [] = ""
first_word (w ∷ ws) = w

rules_differ : (ip : String) → out_rule ip ≢ in_rule ip
unfolding first_word
rules_differ ip e = ground (arith, eq_iff "OUTPUT" "INPUT", ap first_word e)

plan-commands :
    (env : Env) (ip_address : String → Option Address) (rc : ResponseConfig) (alert : Alert)
    (t : Trace) (a : ResponderAction)
    → is_nftables rc ≡ false
    → plan env ip_address rc alert t ≡ some a
    → (a.commands
        ≡ ("iptables" ∷ "-I" ∷ out_rule a.target) ∷ ("iptables" ∷ "-I" ∷ in_rule a.target) ∷ [])
      × (a.rollback_commands
          ≡ ("iptables" ∷ "-D" ∷ out_rule a.target) ∷ ("iptables" ∷ "-D" ∷ in_rule a.target) ∷ [])
unfolding plan
plan-commands env ip_address rc alert t a e p = ground arith

module _ (env : Env) (ip_address : String → Option Address)
    (tables : IsIptables ip_address env) where
  insert_succeeds :
      (rule : Argv) (t : Trace)
      → IsDrop ip_address rule
      → command_error env ("iptables" ∷ "-I" ∷ rule) t ≡ none
  unfolding command_error
  insert_succeeds rule t d = ground (arith, tables.inserts rule t d)

  -- Expiring a rule that is in force checks it and deletes it.
  delete_present :
      (rule : Argv) (t : Trace)
      → IsDrop ip_address rule
      → 0 < in_force rule t
      → expire_one env ("iptables" ∷ "-D" ∷ rule) t
        ≡ (ok none, ran ("iptables" ∷ "-D" ∷ rule) ∷ ran ("iptables" ∷ "-C" ∷ rule) ∷ t)
  unfolding expire_one check_argv after_check
  delete_present rule t d h =
      let checked = ran ("iptables" ∷ "-C" ∷ rule) ∷ t in
      let found = tables.finds rule t d h in
      let deleted = tables.deletes rule checked d (rw (in_force-check rule rule t) h) in
      ground (arith, found, deleted)

  expire_step :
      (argv : Argv) (rest : List Argv) (t t' : Trace)
      → expire_one env argv t ≡ (ok none, t')
      → expire_iptables env (argv ∷ rest) t ≡ expire_iptables env rest t'
  unfolding expire_iptables
  expire_step argv rest t t' e =
      ap
        (λ (o : Result (Option (Bool × ActionError)) × Trace). elim o.0 as (λ _. Expiry) [
          | raised exc ↦ (raised exc, o.1)
          | ok none ↦ expire_iptables env rest o.1
          | ok (some result) ↦ (ok result, o.1)
        ])
        e

  module _ (rc : ResponseConfig) (a : ResponderAction) (t : Trace)
      (reachable : is_ipv4 (ip_address a.target) ≡ true) where
    out-IsDrop : IsDrop ip_address (out_rule a.target)
    out-IsDrop = (a.target, reachable, inl refl)

    in-IsDrop : IsDrop ip_address (in_rule a.target)
    in-IsDrop = (a.target, reachable, inr refl)

    abbrev out_argv : Argv
    out_argv = "iptables" ∷ "-I" ∷ out_rule a.target

    abbrev in_argv : Argv
    in_argv = "iptables" ∷ "-I" ∷ in_rule a.target

    abbrev blocked : Trace
    blocked = ran in_argv ∷ ran out_argv ∷ t

    abbrev undo : List Argv
    undo = ("iptables" ∷ "-D" ∷ out_rule a.target) ∷ ("iptables" ∷ "-D" ∷ in_rule a.target) ∷ []

    abbrev undo_in : Argv
    undo_in = "iptables" ∷ "-D" ∷ in_rule a.target

    -- The trace after the expiry of both rules.
    abbrev unblocked : Trace
    unblocked =
        ran ("iptables" ∷ "-D" ∷ in_rule a.target)
        ∷ ran ("iptables" ∷ "-C" ∷ in_rule a.target)
        ∷ ran ("iptables" ∷ "-D" ∷ out_rule a.target)
        ∷ ran ("iptables" ∷ "-C" ∷ out_rule a.target)
        ∷ blocked

    execute-block :
        a.commands ≡ out_argv ∷ in_argv ∷ []
        → execute env ip_address rc a t ≡ (record a { executed = true; success = true }, blocked)
    unfolding execute
    execute-block e =
        ap (λ cs. run_commands env cs a t) e
        ∙ run_commands-succeed env (out_argv ∷ in_argv ∷ []) a t (
          insert_succeeds (out_rule a.target) t out-IsDrop,
          (insert_succeeds (in_rule a.target) (ran out_argv ∷ t) in-IsDrop, tt),
        )

    in_force-blocked :
        (rule : Argv)
        → in_force rule blocked
          ≡ (if eqb (in_rule a.target) rule then 1 else 0)
            + (if eqb (out_rule a.target) rule then 1 else 0)
            + in_force rule t
    in_force-blocked rule = ground (
      arith,
      in_force-insert rule (in_rule a.target) (ran out_argv ∷ t),
      in_force-insert rule (out_rule a.target) t,
    )

    in_force-unblocked : (rule : Argv) → in_force rule unblocked ≡ in_force rule t
    in_force-unblocked rule =
        let t1 = ran ("iptables" ∷ "-C" ∷ out_rule a.target) ∷ blocked in
        let t2 = ran ("iptables" ∷ "-D" ∷ out_rule a.target) ∷ t1 in
        let t3 = ran ("iptables" ∷ "-C" ∷ in_rule a.target) ∷ t2 in
        ground (
          arith,
          in_force-delete rule (in_rule a.target) t3,
          in_force-check rule (in_rule a.target) t2,
          in_force-delete rule (out_rule a.target) t1,
          in_force-check rule (out_rule a.target) blocked,
          in_force-blocked rule,
        )

    expire-block : expire_iptables env undo blocked ≡ (ok (true, no_error), unblocked)
    unfolding expire_iptables
    expire-block =
        let t1 = ran ("iptables" ∷ "-C" ∷ out_rule a.target) ∷ blocked in
        let t2 = ran ("iptables" ∷ "-D" ∷ out_rule a.target) ∷ t1 in
        let self = eqb_refl (in_rule a.target) in
        let other = eqb_ne _ _ (rules_differ a.target) in
        let out_on : 0 < in_force (out_rule a.target) blocked =
          ground (arith, in_force-blocked (out_rule a.target), eqb_refl (out_rule a.target)) in
        let in_on : 0 < in_force (in_rule a.target) t2 = ground (
          arith,
          in_force-delete (in_rule a.target) (out_rule a.target) t1,
          in_force-check (in_rule a.target) (out_rule a.target) blocked,
          in_force-blocked (in_rule a.target),
          self,
          other,
        ) in
        expire_step _ (undo_in ∷ []) blocked t2
          (delete_present (out_rule a.target) blocked out-IsDrop out_on)
        ∙ expire_step undo_in [] t2 unblocked (delete_present (in_rule a.target) t2 in-IsDrop in_on)

  -- With an iptables that takes rules for IPv4 addresses, executing the planned block of an IPv4
  -- address puts both of its rules in force once more and succeeds, and expiring it at once
  -- afterwards succeeds and leaves every rule in force as often as before.
  pub block_roundtrip :
      (rc : ResponseConfig) (alert : Alert) (t : Trace) (a : ResponderAction) (rule : Argv)
      → is_nftables rc ≡ false
      → plan env ip_address rc alert t ≡ some a
      → is_ipv4 (ip_address a.target) ≡ true
      → let (a', blocked) = execute env ip_address rc a t in
        let (outcome, expired) = expire env ip_address rc a' blocked in
        (a'.success ≡ true)
        × (in_force (out_rule a.target) blocked ≡ in_force (out_rule a.target) t + 1)
        × (in_force (in_rule a.target) blocked ≡ in_force (in_rule a.target) t + 1)
        × (outcome ≡ ok (true, no_error))
        × (in_force rule expired ≡ in_force rule t)
  unfolding expire
  block_roundtrip rc alert t a rule e p four =
      let (cs, undo_cs) = plan-commands env ip_address rc alert t a e p in
      let differ : eqb (in_rule a.target) (out_rule a.target) ≡ false =
        eqb_ne _ _ (λ q. rules_differ a.target (sym q)) in
      let expired =
        ap (λ cs. expire_iptables env cs (blocked rc a t four)) undo_cs
        ∙ expire-block rc a t four in
      rw (execute-block rc a t four cs, e, expired)
        (
          refl,
          ground (
            arith,
            in_force-blocked rc a t four (out_rule a.target),
            eqb_refl (out_rule a.target),
            differ,
          ),
          ground (
            arith,
            in_force-blocked rc a t four (in_rule a.target),
            eqb_refl (in_rule a.target),
            eqb_ne _ _ (rules_differ a.target),
          ),
          refl,
          in_force-unblocked rc a t four rule,
        )
