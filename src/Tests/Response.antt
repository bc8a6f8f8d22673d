-- ===== src/Tests/Response.antt =====
-- The response subsystem at work: an iptables that answers from the trace, one alert, one block.
use sentinel_pi.Prelude.{
  ℕ, ◌+◌, ltb, leb, String, ◌≡◌, ◌⊎◌, inl, ◌↔◌, refl, true, false, ◌&&◌, Option, none, some, List,
  [], ◌∷◌, ◌==◌, string_key, nat_key, String-discrete, List-discrete, eqb, elem, map, arith,
  if◌then◌else◌, get_elem?,
}
use sentinel_pi.Prelude.Dict
use sentinel_pi.Models.{
  Alert, low, critical, high, threat_intel, new, no_extra, severity_lt, parse_severity,
  category_value, seconds, severity_lt,
}
use sentinel_pi.Models.Order
use sentinel_pi.Network.{
  Address, v4, ipv4, is_private, is_private_ip, is_valid_ip, IsPrivateRange, is_private-ranges,
  in_any,
}
use sentinel_pi.World.{
  Argv, exit_status, RunResult, returned, file_text, ResponderAction, planned, pending, no_error,
  intent_not_persisted, Trace, Env, ok, HealthState,
}
use sentinel_pi.World.Audit.{audited, effects}
use sentinel_pi.Health.{healthy_state, mark_failed, mark_succeeded, load}
use sentinel_pi.Health.{cut}
use sentinel_pi.Health.Outage.{fail_all, recovered, outage_lem}
use sentinel_pi.Responders.{ResponseConfig, Responder, command_error, run_commands}
use sentinel_pi.Responders.Approvals.{approve_once, approve_refused}
use sentinel_pi.Responders.Blocks.{block_roundtrip}
use sentinel_pi.Responders.Iptables.{in_force, IsIptables, out_rule, in_rule}
use sentinel_pi.Responders.Plans.{plan-blockable}
use sentinel_pi.Responders.Commands.{is_registered, due_actions-finished}
use sentinel_pi.Responders.Firewall
use sentinel_pi.Responders.Gates.{severity_at_least, category_in}
use sentinel_pi.Responders.Ladder.{handle-inert}
use sentinel_pi.Responders.Lifecycle.{
  init, add_responder, empty_manager, bind_pending, reconcile_expired, by_name, due_actions,
  mark_expiring, expire_due, expire_action, settled, load_rows,
}
use sentinel_pi.Responders.Manager.{
  Manager, Pending, finished, persist, run_action, needs_approval, handle, approve, reject,
  handle_all, handle_one, after_can_handle, after_plan, after_observer, consider, gate, hold,
  run_now, list_run, publish, run_recorded, finish_run,
}
use sentinel_pi.Responders.Runs.{
  Operation, handle_alert, reconcile_at, register, perform, perform_all, perform_all-audited,
}

-- iptables, answering from the trace; every other program succeeds.
pub answer : Trace → Argv → RunResult
unfolding in_force String-discrete
answer t (program ∷ flag ∷ rule) =
    if eqb flag "-C" && in_force rule t == 0
    then returned (exit_status 1) ""
    else returned (exit_status 0) ""
answer t _ = returned (exit_status 0) ""

abbrev pub env : Env
env = record {
  runner = answer;
  hosts_text = λ t. file_text "";
  hosts_error = λ t d. none;
  save_error = λ t a. none;
  store_error = λ t h. none;
  activity_error = λ t n. none;
  clock = λ t. 1000;
  uuid = λ t. "a1";
  save_alert_error = λ t a. none;
  recent_dedup_keys = λ t now s. ok [];
  mark_suspicious = λ t h d. ok (some d);
  send_error = λ t n a. none;
  status_error = λ t id s. none;
  get_alert = λ t id. ok none;
  hour = λ t. 3;
  country = λ ip. "";
  country_name = λ ip. "";
  asn = λ ip. (none, "");
}

-- The same world with a database that refuses every row.
abbrev pub full_disk : Env
full_disk = record env { save_error = λ t a. some "disk full" }

abbrev pub ip_address : String → Option Address
ip_address s =
    if eqb s "198.51.100.7"
    then some (v4 (ipv4 198 51 100 7))
    else if eqb s "192.168.1.5"
    then some (v4 (ipv4 192 168 1 5))
    else none

abbrev pub rc : ResponseConfig
rc = record {
  enabled = true;
  dry_run = false;
  require_approval = false;
  auto_execute_categories = [];
  firewall_block_enabled = true;
  firewall_backend = "iptables";
  auto_block_categories = "threat_intel" ∷ [];
  auto_block_min_severity = "high";
  block_duration_seconds = 3600;
  dns_sinkhole_enabled = false;
  dns_sinkhole_backend = "hosts";
  dns_sinkhole_hosts_file = "/tmp/hosts";
  sinkhole_categories = [];
  sinkhole_min_severity = "high";
  arp_restore_enabled = false;
  arp_restore_backend = "arp";
  arp_restore_min_severity = "high";
  killswitch_enabled = false;
  killswitch_command = [];
  killswitch_categories = [];
  killswitch_min_severity = "critical";
  whitelist_ips = [];
  whitelist_domains = [];
  gateway_ip = "";
  gateway_mac = "";
  interfaces = [];
}

abbrev pub alert : Alert
alert = record {
  alert_id = "x";
  timestamp = 1000;
  severity = critical;
  category = threat_intel;
  affected_host = "192.168.1.5";
  affected_mac = "";
  related_host = "198.51.100.7";
  title = "bad host";
  description = "";
  dedup_key = "k";
  status = new;
  extra = no_extra;
}

abbrev pub firewall : Responder
firewall = Firewall.responder env ip_address rc

abbrev ops : List Operation
ops = register firewall ∷ handle_alert alert ∷ reconcile_at 9000000000 ∷ []

perform_all-audited_example :
    audited (perform_all env ops (init env rc (some (ok none, some [])) []) []).1 ≡ true
perform_all-audited_example =
    perform_all-audited env ip_address rc (ok none) (some []) ops (inl refl, (tt, (tt, tt)))

-- What a run computes with.
program : Unit {0}
unfolding effects perform_all perform init add_responder bind_pending reconcile_expired by_name
    due_actions mark_expiring expire_due expire_action settled handle handle_all handle_one
    after_can_handle after_plan after_observer consider gate hold run_now list_run publish
    run_action run_recorded finish_run finished persist mark_succeeded mark_failed needs_approval
    Firewall.responder Firewall.blockable_ip severity_at_least category_in parse_severity
    severity_lt category_value is_valid_ip is_private_ip in_force answer run_commands command_error
    Firewall.expire_iptables Firewall.expire_one Firewall.check_argv Dict.get Dict.put Dict.remove
    String-discrete List-discrete load_rows load healthy_state is_private in_any
    Firewall.build_commands Firewall.build_rollback_commands
program = tt

abbrev after : List Operation → Manager × Trace
after ops = perform_all env ops (init env rc (some (ok none, some [])) []) []

-- The block runs two commands, its expiry four.
six_commands :
    (effects (after (register firewall ∷ handle_alert alert ∷ [])).1 ≡ 2)
    × (effects (after ops).1 ≡ 6)
unfolding program effects perform_all perform
six_commands = (refl, refl)

-- An action that waits for approval.
abbrev block : ResponderAction
block = record {
  responder = "FirewallResponder";
  target = "198.51.100.7";
  description = "";
  commands = ("iptables" ∷ "-I" ∷ out_rule "198.51.100.7") ∷ [];
  action_id = "a1";
  created_at = 1000;
  status = pending;
  dry_run = false;
  executed = false;
  success = false;
  error = no_error;
  alert_id = "x";
  rollback_commands = ("iptables" ∷ "-D" ∷ out_rule "198.51.100.7") ∷ [];
  duration_seconds = 60;
  expires_at = none;
  expired_at = none;
}

abbrev entry : Pending
entry = record { ref = 0; responder = firewall }

abbrev pub healthy : HealthState
healthy = record {
  degraded = false;
  consecutive_failures = 0;
  failed_at = none;
  last_error = "";
  recovered_at = none;
}

abbrev pub manager : Manager
manager = record (empty_manager true rc healthy) {
  responders = firewall ∷ [];
  objects = block ∷ [];
  recent = 0 ∷ [];
  pending = ("a1", entry) ∷ [];
}

entry_found : Dict.get "a1" manager.pending ≡ some entry
unfolding Dict.get String-discrete
entry_found = refl

approve_once_example :
    let (_, m', t') = approve env "a1" manager [] in
    (Dict.get "a1" m'.pending ≡ none)
    × (approve env "a1" m' t' ≡ (ok none, m', t'))
    × (reject env "a1" m' t' ≡ (none, m', t'))
unfolding program
approve_once_example = approve_once env "a1" manager [] entry block entry_found refl refl

approve_refused_example :
    let (_, m', t') = approve full_disk "a1" manager [] in
    (effects t' ≡ effects [])
    × (Dict.get "a1" m'.pending ≡ some entry)
    × (get_elem? m'.objects 0
        ≡ some (record block { status = pending; error = intent_not_persisted }))
approve_refused_example =
    approve_refused full_disk "a1" manager [] entry block entry_found refl "disk full" refl refl

abbrev dry : Manager
dry = record manager { config = record rc { dry_run = true } }

handle-inert_example : effects (handle env alert dry []).2 ≡ effects []
handle-inert_example = handle-inert env alert dry [] refl

tables : IsIptables ip_address env
unfolding answer in_force
tables = record {
  inserts = λ rule t d. ground arith;
  finds = λ rule t d h. ground arith;
  misses = λ rule t d h. ground arith;
  deletes = λ rule t d h. ground arith;
}

abbrev planned_block : ResponderAction
planned_block = record block {
  description = "Block 198.51.100.7 (iptables) — outbound and inbound DROP";
  commands =
      ("iptables" ∷ "-I" ∷ out_rule "198.51.100.7")
      ∷ ("iptables" ∷ "-I" ∷ in_rule "198.51.100.7")
      ∷ [];
  rollback_commands =
      ("iptables" ∷ "-D" ∷ out_rule "198.51.100.7")
      ∷ ("iptables" ∷ "-D" ∷ in_rule "198.51.100.7")
      ∷ [];
  status = planned;
  dry_run = true;
  alert_id = "";
  duration_seconds = 3600;
}

plan_of_alert : Firewall.plan env ip_address rc alert [] ≡ some planned_block
unfolding program Firewall.plan
plan_of_alert = refl

plan-blockable_example :
    ((planned_block.target ≡ alert.related_host) ⊎ (planned_block.target ≡ alert.affected_host))
    × (is_valid_ip ip_address planned_block.target ≡ true)
    × (is_private_ip ip_address planned_block.target ≡ false)
    × (elem planned_block.target rc.whitelist_ips ≡ false)
plan-blockable_example = plan-blockable env ip_address rc alert [] planned_block plan_of_alert

block_roundtrip_example :
    let (a', blocked) = Firewall.execute env ip_address rc planned_block [] in
    let (outcome, expired) = Firewall.expire env ip_address rc a' blocked in
    (a'.success ≡ true)
    × (in_force (out_rule planned_block.target) blocked
        ≡ in_force (out_rule planned_block.target) [] + 1)
    × (in_force (in_rule planned_block.target) blocked
        ≡ in_force (in_rule planned_block.target) [] + 1)
    × (outcome ≡ ok (true, no_error))
    × (in_force ("OUTPUT" ∷ []) expired ≡ in_force ("OUTPUT" ∷ []) [])
unfolding program
block_roundtrip_example =
    block_roundtrip env ip_address tables rc alert [] planned_block ("OUTPUT" ∷ []) refl
      plan_of_alert refl

abbrev known : Dict.Dict String Responder
known = (block.responder, firewall) ∷ []

-- A block that has run is due once its duration has passed.
due_actions-finished_example :
    elem {K = ℕ} 0
      (map (λ due. due.0) (due_actions 9000000000 known (finished block 1000 ∷ []) (0 ∷ [])))
    ≡ (elem {K = ℕ} 0 (0 ∷ [])
        && is_registered block.responder known
        && block.success
        && ltb 0 block.duration_seconds
        && leb (1000 + seconds block.duration_seconds) 9000000000)
due_actions-finished_example =
    due_actions-finished block 1000 9000000000 known (finished block 1000 ∷ []) (0 ∷ []) 0 refl refl

is_private-ranges_example :
    (is_private (v4 (ipv4 172 31 255 255)) ≡ true) ↔ IsPrivateRange (ipv4 172 31 255 255)
is_private-ranges_example = is_private-ranges (ipv4 172 31 255 255)

severity_lt_trans_example : (severity_lt low critical ≡ true) × (severity_lt critical low ≡ false)
unfolding severity_lt
severity_lt_trans_example = Order.severity_lt_trans low high critical refl refl

outage_lem_example :
    let (h0, t0) = fail_all env ("disk full" ∷ []) healthy [] in
    let (h1, t1) = mark_failed env h0 "timeout" t0 in
    let (h2, t2) = mark_succeeded env h1 t1 in
    (h1.degraded ≡ true)
    × (h1.consecutive_failures ≡ 0 + 1 + 1)
    × (h1.last_error ≡ cut 500 "timeout")
    × (h2.last_error ≡ h1.last_error)
    × (h2.failed_at ≡ h1.failed_at)
    × (h2 ≡ recovered env h1 t1)
outage_lem_example = outage_lem env ("disk full" ∷ []) "timeout" healthy []

accepted : Firewall.can_handle env ip_address rc alert ≡ true
unfolding program Firewall.can_handle
accepted = refl
