-- ===== src/Responders/Firewall.antt =====
-- responders/firewall.py: block an address by iptables or nftables rules, and take them out again.
-- `ip_address` is Python's `ipaddress.ip_address`; the runner is the environment's.

use Prim.Native.String.{◌++◌}
use sentinel_pi.Prelude.{
  String, Bool, true, false, ◌&&◌, not, Option, none, some, List, [], ◌∷◌, string_key, elem, eqb,
  if◌then◌else◌,
}
use sentinel_pi.Models.{Alert}
use sentinel_pi.Network.{Address, is_private_ip, is_valid_ip}
use sentinel_pi.Responders.{
  ResponseConfig, Responder, new_action, run_commands, is_failure, command_error,
}
use sentinel_pi.Responders.Gates.{category_in, severity_at_least}
use sentinel_pi.Text.{matching_line, search_handle}
use sentinel_pi.World.{
  Argv, RunResult, returned, run_raised, ActionError, no_error, command_raised, command_failed,
  no_handle, ResponderAction, ran, Trace, Env, Result, ok, raised,
}

-- One turn of the loop of `_blockable_ip`.
unfoldable pub may_block : (String → Option Address) → ResponseConfig → String → Bool
may_block ip_address rc ip =
    not (eqb ip "")
    && is_valid_ip ip_address ip
    && not (is_private_ip ip_address ip)
    && not (elem ip rc.whitelist_ips)

unfoldable pub blockable_ip : (String → Option Address) → ResponseConfig → Alert → Option String
unfolding may_block
blockable_ip ip_address rc alert =
    if may_block ip_address rc alert.related_host
    then some alert.related_host
    else if may_block ip_address rc alert.affected_host
    then some alert.affected_host
    else none

abbrev pub is_nftables : ResponseConfig → Bool
is_nftables rc = eqb rc.firewall_backend "nftables"

unfoldable pub build_commands : ResponseConfig → String → String → List Argv
build_commands rc ip action_id =
    if is_nftables rc
    then (("nft"
          ∷ "add"
          ∷ "rule"
          ∷ "inet"
          ∷ "filter"
          ∷ "output"
          ∷ "ip"
          ∷ "daddr"
          ∷ ip
          ∷ "drop"
          ∷ "comment"
          ∷ ("sentinelpi:" ++ action_id ++ ":output")
          ∷ [])
        ∷ ("nft"
            ∷ "add"
            ∷ "rule"
            ∷ "inet"
            ∷ "filter"
            ∷ "input"
            ∷ "ip"
            ∷ "saddr"
            ∷ ip
            ∷ "drop"
            ∷ "comment"
            ∷ ("sentinelpi:" ++ action_id ++ ":input")
            ∷ [])
        ∷ [])
    else (("iptables" ∷ "-I" ∷ "OUTPUT" ∷ "-d" ∷ ip ∷ "-j" ∷ "DROP" ∷ [])
        ∷ ("iptables" ∷ "-I" ∷ "INPUT" ∷ "-s" ∷ ip ∷ "-j" ∷ "DROP" ∷ [])
        ∷ [])

unfoldable pub build_rollback_commands : ResponseConfig → String → List Argv
build_rollback_commands rc ip =
    if is_nftables rc
    then []
    else (("iptables" ∷ "-D" ∷ "OUTPUT" ∷ "-d" ∷ ip ∷ "-j" ∷ "DROP" ∷ [])
        ∷ ("iptables" ∷ "-D" ∷ "INPUT" ∷ "-s" ∷ ip ∷ "-j" ∷ "DROP" ∷ [])
        ∷ [])

-- `check_argv = list(delete_argv); check_argv[1] = "-C"`; none for the `IndexError` of a command of
-- at most one word.
unfoldable pub check_argv : Argv → Option Argv
check_argv (program ∷ _ ∷ rest) = some (program ∷ "-C" ∷ rest)
check_argv _ = none

-- The result of `expire`, beside the trace.
abbrev pub Expiry : Type 0
Expiry = Result (Bool × ActionError) × Trace

module _ (env : Env) where
  -- What follows the check for a rule, by what the runner did.
  unfoldable pub after_check : Argv → RunResult → Trace → Option (Bool × ActionError) × Trace
  unfolding command_error
  after_check delete_argv (run_raised exc) t = (some (false, command_raised delete_argv exc), t)
  after_check delete_argv (returned code _) t =
      if is_failure code then (none, t) else elim (command_error env delete_argv t) [
        | none ↦ (none, ran delete_argv ∷ t)
        | some error ↦ (some (false, error), ran delete_argv ∷ t)
      ]

  -- One turn of the loop of `expire`: none to go on, or the result that it returns.
  unfoldable pub expire_one : Argv → Trace → Result (Option (Bool × ActionError)) × Trace
  unfolding check_argv after_check
  expire_one delete_argv t = elim (check_argv delete_argv) [
    | none ↦ (raised "list assignment index out of range", t)
    | some check ↦
        let (outcome, t') = after_check delete_argv (env.runner t check) (ran check ∷ t) in
        (ok outcome, t')
  ]

  -- The loop over `action.rollback_commands`.
  unfoldable pub expire_iptables : List Argv → Trace → Expiry
  expire_iptables [] t = (ok (true, no_error), t)
  expire_iptables (argv ∷ rest) t =
      let (outcome, t') = expire_one argv t in
      elim outcome [
        | raised exc ↦ (raised exc, t')
        | ok none ↦ expire_iptables rest t'
        | ok (some result) ↦ (ok result, t')
      ]

  -- The deletion of the rule with a handle; an exception of this call is not caught.
  unfoldable pub delete_rule :
      String → String → Trace → Result (Option (Bool × ActionError)) × Trace
  delete_rule chain handle t =
      let argv : Argv =
        "nft" ∷ "delete" ∷ "rule" ∷ "inet" ∷ "filter" ∷ chain ∷ "handle" ∷ handle ∷ [] in
      elim (env.runner t argv) [
        | run_raised exc ↦ (raised exc, ran argv ∷ t)
        | returned code output ↦ (
          ok (if is_failure code then some (false, command_failed argv code output) else none),
          ran argv ∷ t,
        )
      ]

  -- What is done with the output of the listing of a chain.
  unfoldable pub delete_marked :
      String → String → String → Trace → Result (Option (Bool × ActionError)) × Trace
  delete_marked chain marker output t =
      let matching = matching_line marker output in
      if eqb matching "" then (ok none, t) else elim (search_handle matching) [
        | none ↦ (ok (some (false, no_handle marker)), t)
        | some handle ↦ delete_rule chain handle t
      ]

  -- What follows the listing of a chain, by what the runner did.
  unfoldable pub after_listing :
      String → String → Argv → RunResult → Trace → Result (Option (Bool × ActionError)) × Trace
  after_listing chain marker argv (run_raised exc) t =
      (ok (some (false, command_raised argv exc)), t)
  after_listing chain marker argv (returned code output) t =
      if is_failure code
      then (ok (some (false, command_failed argv code output)), t)
      else delete_marked chain marker output t

  -- One turn of the loop of `_expire_nftables`.
  unfoldable pub expire_chain :
      ResponderAction → String → Trace → Result (Option (Bool × ActionError)) × Trace
  unfolding after_listing
  expire_chain action chain t =
      let argv : Argv = "nft" ∷ "-a" ∷ "list" ∷ "chain" ∷ "inet" ∷ "filter" ∷ chain ∷ [] in
      after_listing chain ("sentinelpi:" ++ action.action_id ++ ":" ++ chain) argv
        (env.runner t argv) (ran argv ∷ t)

  unfoldable pub expire_nftables : List String → ResponderAction → Trace → Expiry
  expire_nftables [] action t = (ok (true, no_error), t)
  expire_nftables (chain ∷ chains) action t =
      let (outcome, t') = expire_chain action chain t in
      elim outcome [
        | raised exc ↦ (raised exc, t')
        | ok none ↦ expire_nftables chains action t'
        | ok (some result) ↦ (ok result, t')
      ]

  module _ (ip_address : String → Option Address) (rc : ResponseConfig) where
    unfoldable pub can_handle : Alert → Bool
    can_handle alert =
        rc.firewall_block_enabled
        && category_in alert rc.auto_block_categories
        && severity_at_least alert rc.auto_block_min_severity
        && elim (blockable_ip ip_address rc alert) as (λ _. Bool) [ none ↦ false | some _ ↦ true ]

    unfoldable pub plan : Alert → Trace → Option ResponderAction
    unfolding build_commands build_rollback_commands new_action
    plan alert t = elim (blockable_ip ip_address rc alert) [
      | none ↦ none
      | some ip ↦
          let action =
            new_action env "FirewallResponder" ip
              ("Block " ++ ip ++ " (" ++ rc.firewall_backend ++ ") — outbound and inbound DROP") []
              rc.block_duration_seconds t in
          some (record action {
            commands = build_commands rc ip action.action_id;
            rollback_commands = build_rollback_commands rc ip;
          })
    ]

    unfoldable pub execute : ResponderAction → Trace → ResponderAction × Trace
    execute action t = run_commands env action.commands action t

    unfoldable pub expire : ResponderAction → Trace → Expiry
    expire action t =
        if is_nftables rc
        then expire_nftables ("output" ∷ "input" ∷ []) action t
        else expire_iptables action.rollback_commands t

    unfoldable pub responder : Responder
    unfolding can_handle plan execute expire
    responder = record {
      name = "FirewallResponder";
      can_handle = λ alert. ok (can_handle alert);
      plan = λ alert t. ok (plan alert t);
      execute = λ action t. let (action', t') = execute action t in (ok tt, action', t');
      expire = expire;
    }
