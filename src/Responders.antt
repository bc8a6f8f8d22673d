-- ===== src/Responders.antt =====
-- The active responders (responders/): the interface of base.py, the settings they read, and the
-- loop over an action's commands that they share.
pub mod Gates
pub mod Firewall
pub mod ArpRestore
pub mod KillSwitch
pub mod DnsSinkhole
pub mod Manager
pub mod Lifecycle
pub mod Safety
pub mod Keeps
pub mod Ledger
pub mod Ascends
pub mod Sound
pub mod Handles
pub mod Operations
pub mod Marking
pub mod Rollback
pub mod Runs
pub mod Ladder
pub mod Approvals
pub mod Commands
pub mod Plans
pub mod Iptables
pub mod Blocks
use sentinel_pi.Prelude.{ℕ, zero, suc, String, Bool, true, false, Option, none, some, List, [], ◌∷◌}
use sentinel_pi.Models.{Alert}
use sentinel_pi.World.{
  Argv, ReturnCode, exit_status, killed_by, RunResult, returned, run_raised, ActionError,
  command_raised, command_failed, no_expiry, ResponderAction, planned, no_error, ran, Trace, Env,
  Result, ok,
}

-- `ResponseConfig` of config/manager.py, and the entries of the other sections that responders read.
pub record ResponseConfig : Type 0 where
  pub enabled : Bool
  pub dry_run : Bool
  pub require_approval : Bool
  pub auto_execute_categories : List String
  pub firewall_block_enabled : Bool
  pub firewall_backend : String
  pub auto_block_categories : List String
  pub auto_block_min_severity : String
  pub block_duration_seconds : ℕ
  pub dns_sinkhole_enabled : Bool
  pub dns_sinkhole_backend : String
  pub dns_sinkhole_hosts_file : String
  pub sinkhole_categories : List String
  pub sinkhole_min_severity : String
  pub arp_restore_enabled : Bool
  pub arp_restore_backend : String
  pub arp_restore_min_severity : String
  pub killswitch_enabled : Bool
  pub killswitch_command : List String
  pub killswitch_categories : List String
  pub killswitch_min_severity : String
  -- `config.whitelist_ips`, `config.whitelist_domains`, `config.network`
  pub whitelist_ips : List String
  pub whitelist_domains : List String
  pub gateway_ip : String
  pub gateway_mac : String
  pub interfaces : List String

-- `BaseResponder`. `can_handle` and `plan` have no effects: they return no trace. `execute` changes
-- the action in place, also when it raises.
pub record Responder : Type 0 where
  pub name : String
  pub can_handle : Alert → Result Bool
  pub plan : Alert → Trace → Result (Option ResponderAction)
  pub execute : ResponderAction → Trace → Result (Unit {0}) × ResponderAction × Trace
  pub expire : ResponderAction → Trace → Result (Bool × ActionError) × Trace

-- `BaseResponder.expire`
unfoldable pub default_expire :
    String → ResponderAction → Trace → Result (Bool × ActionError) × Trace
default_expire name action t = (ok (false, no_expiry name), t)

-- `ResponderAction(…)` with the defaults of its fields.
unfoldable pub new_action : Env → String → String → String → List Argv → ℕ → Trace → ResponderAction
new_action env responder target description commands duration t = record {
  responder = responder;
  target = target;
  description = description;
  commands = commands;
  action_id = env.uuid t;
  created_at = env.clock t;
  status = planned;
  dry_run = true;
  executed = false;
  success = false;
  error = no_error;
  alert_id = "";
  rollback_commands = [];
  duration_seconds = duration;
  expires_at = none;
  expired_at = none;
}

-- `code != 0`
abbrev pub is_failure : ReturnCode → Bool
is_failure (exit_status zero) = false
is_failure (exit_status (suc n)) = true
is_failure (killed_by n) = true

module _ (env : Env) where
  -- What one command does to the loop of `execute`: it goes on, or ends with an error.
  unfoldable pub command_error : Argv → Trace → Option ActionError
  command_error argv t = elim (env.runner t argv) [
    | run_raised exc ↦ some (command_raised argv exc)
    | returned (exit_status zero) output ↦ none
    | returned code output ↦ some (command_failed argv code output)
  ]

  -- `for argv in action.commands: …` of the responders' `execute`.
  unfoldable pub run_commands : List Argv → ResponderAction → Trace → ResponderAction × Trace
  unfolding command_error
  run_commands [] action t = (record action { executed = true; success = true }, t)
  run_commands (argv ∷ rest) action t = elim (command_error argv t) [
    | some error ↦ (record action { executed = true; success = false; error = error }, ran argv ∷ t)
    | none ↦ run_commands rest action (ran argv ∷ t)
  ]
