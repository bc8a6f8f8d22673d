-- ===== src/Tests/Alerts.antt =====
-- The alert pipeline at work: a correlator with low thresholds, a database that fails.
use sentinel_pi.Prelude.{
  ◌+◌, ◌-◌, ◌%◌, String, ◌≡◌, ◌↔◌, refl, true, false, ◌&&◌, none, some, List, [], ◌∷◌, All, map,
  string_key, String-discrete, arith, ltb,
}
use sentinel_pi.Prelude.Dict
use sentinel_pi.Prelude.Dict.{IsUnique}
use sentinel_pi.Models.{
  Alert, Datetime, high, critical, incident, threat_intel, parse_severity, category_value,
  severity_value, Category-discrete,
}
use sentinel_pi.World.{Env}
use sentinel_pi.Alerts.Correlator.{
  CorrelationConfig, CorrelationEvent, Correlator, actor_limit, actor_for_alert, correlation_event,
  sensor_of, target_for_alert, match_sequence, observe, decide, record_event, cleanup, evict,
  append_event, drop_stale, expire_actors, is_fresh, incident_of, build_incident, incident_alert,
  is_triggered, sensors, targets, is_on_cooldown, events_of,
}
use sentinel_pi.Alerts.Correlator.Bounds.{IsBounded, observe-IsBounded}
use sentinel_pi.Alerts.Correlator.Cooldown.{IsSoon, incidents_of, observe_once}
use sentinel_pi.Alerts.Correlator.Incidents.{IsSuspicious, observe_lem}
use sentinel_pi.Alerts.Correlator.Sequence.{OccursIn, match_sequence_iff}
use sentinel_pi.Alerts.Manager.{
  QuietHours, AlertManager, is_quiet_hours, seen_recently, prune_dedup, alert_cooldown,
  category_cooldown, admit, is_duplicate, is_urgent,
}
use sentinel_pi.Alerts.Manager.Dedup.{seen_recently-prune_dedup, is_quiet_hours_lem}
use sentinel_pi.Alerts.Pipeline.{handle_alert, process}
use sentinel_pi.Alerts.Pipeline.Accounts.{IsBalanced, process-IsBalanced}
use sentinel_pi.Alerts.Pipeline.Once.{admit_once}
use sentinel_pi.Alerts.Pipeline.Turns.{handle_alert-enough}
use sentinel_pi.Text.Show.{sorted_set}
use sentinel_pi.Alerts.Pipeline.Audit.{process-audited}
use sentinel_pi.World.Audit.{audited}
use sentinel_pi.Responders.Keeps.{firewall-IsSafe}
use sentinel_pi.Responders.Lifecycle.{empty_manager}
use sentinel_pi.Responders.Manager.{Manager}
use sentinel_pi.Responders.Sound.{IsSound}
use sentinel_pi.Tests.Response.{env, ip_address, alert, healthy, rc, firewall}

abbrev isoformat : Datetime → String
isoformat ts = "2026-01-01T00:00:00"

abbrev repr : List String → String
repr xs = "[...]"

abbrev config : CorrelationConfig
config = record {
  window_seconds = 300;
  min_sensors = 1;
  min_targets = 5;
  cooldown_seconds = 600;
  max_actors = 2;
}

abbrev fresh : Correlator
fresh = record {
  config = config;
  events = [];
  last_incident = [];
  last_cleanup = none;
  actor_evictions = 0;
  expired_actors = 0;
  expired_cooldowns = 0;
}

fresh-IsBounded : IsBounded fresh
unfolding actor_limit
fresh-IsBounded = record { actors = omega arith; deques = tt }

observe-IsBounded_example : IsBounded (observe env isoformat repr alert fresh []).1
observe-IsBounded_example = observe-IsBounded env isoformat repr alert fresh [] fresh-IsBounded

actor_of_alert : actor_for_alert alert ≡ "192.168.1.5"
unfolding actor_for_alert Category-discrete String-discrete
actor_of_alert = refl

abbrev event : CorrelationEvent
event = record {
  timestamp = 1000;
  sensor = "local";
  target = "198.51.100.7";
  category = "threat_intel";
  severity = "critical";
  title = "bad host";
  affected_host = "192.168.1.5";
  related_host = "198.51.100.7";
}

match_sequence_iff_example :
    ((ms : List CorrelationEvent) × (match_sequence ("threat_intel" ∷ []) (event ∷ []) ≡ some ms)
      × (map (λ e. e.category) ms ≡ "threat_intel" ∷ []))
    ↔ OccursIn ("threat_intel" ∷ []) (event ∷ [])
match_sequence_iff_example = match_sequence_iff ("threat_intel" ∷ []) (event ∷ [])

critical_parses : parse_severity "critical" ≡ some critical
unfolding parse_severity String-discrete
critical_parses = refl

-- What an observation computes with.
observation : Unit {0}
unfolding observe decide record_event cleanup evict append_event drop_stale expire_actors is_fresh
    incident_of build_incident incident_alert is_triggered sensors targets is_on_cooldown
    correlation_event sensor_of target_for_alert actor_for_alert actor_limit Category-discrete
    String-discrete category_value severity_value Dict.get Dict.put Dict.remove Dict.filter_values
    sorted_set
observation = tt

abbrev raised_incident : Alert
raised_incident = build_incident env isoformat repr config "192.168.1.5" (event ∷ []) []

incident_raised : (observe env isoformat repr alert fresh []).0 ≡ some raised_incident
unfolding observation
incident_raised = refl

-- The same alert twice more, at once.
repeated :
    All
      (IsSoon env isoformat repr (actor_for_alert alert) 1000 config.cooldown_seconds)
      ((alert, []) ∷ (alert, []) ∷ [])
unfolding actor_for_alert Category-discrete String-discrete
repeated = ((refl, omega arith), ((refl, omega arith), tt))

observe_once_example :
    incidents_of env isoformat repr
      ((alert, []) ∷ (alert, []) ∷ [])
      (observe env isoformat repr alert fresh []).1
    ≡ []
observe_once_example =
    observe_once env isoformat repr alert raised_incident fresh [] ((alert, []) ∷ (alert, []) ∷ [])
      incident_raised repeated

observe_lem_example :
    let c' = (observe env isoformat repr alert fresh []).1 in
    (raised_incident.category ≡ incident)
    × (raised_incident.affected_host ≡ actor_for_alert alert)
    × (Dict.get (actor_for_alert alert) c'.last_incident ≡ some 1000)
    × IsSuspicious c'.config (events_of (actor_for_alert alert) c')
observe_lem_example = observe_lem env isoformat repr alert raised_incident fresh [] incident_raised

one_key : IsUnique {K = String} {V = Datetime} (("k", 900) ∷ [])
unfolding Dict.get
one_key = (refl, tt)

seen_recently-prune_dedup_example :
    seen_recently "k" 1000 (alert_cooldown high threat_intel) (prune_dedup 1000 (("k", 900) ∷ []))
    ≡ seen_recently "k" 1000 (alert_cooldown high threat_intel) (("k", 900) ∷ [])
seen_recently-prune_dedup_example =
    seen_recently-prune_dedup "k" 1000 1000 high threat_intel (("k", 900) ∷ []) one_key
      (omega arith)

abbrev night : QuietHours
night = record { enabled = true; start_hour = 23; end_hour = 7 }

is_quiet_hours_lem_example :
    is_quiet_hours night 3 ≡ (true && ltb ((3 + 24 - 23) % 24) ((7 + 24 - 23) % 24))
is_quiet_hours_lem_example = is_quiet_hours_lem night 3 (omega arith) (omega arith) (omega arith)

abbrev alerts : AlertManager
alerts = record {
  quiet_hours = night;
  notifiers = "EmailNotifier" ∷ "WebhookNotifier" ∷ [];
  has_observer = true;
  responders = none;
  correlator = some fresh;
  has_correlator_observer = true;
  recent_dedup = [];
  total_processed = 0;
  total_suppressed = 0;
  total_fired = 0;
  total_persistence_failed = 0;
  health = healthy;
}

process-IsBalanced_example :
    IsBalanced (process env ip_address isoformat repr (alert ∷ alert ∷ []) 0 alerts []).1
process-IsBalanced_example =
    process-IsBalanced env ip_address isoformat repr (alert ∷ alert ∷ []) 0 alerts [] refl

handle_alert-enough_example :
    handle_alert env ip_address isoformat repr 5 alert alerts []
    ≡ handle_alert env ip_address isoformat repr 2 alert alerts []
handle_alert-enough_example = handle_alert-enough env ip_address isoformat repr 3 alert alerts []

-- What an admission computes with.
admission : Unit {0}
unfolding admit is_duplicate is_quiet_hours is_urgent seen_recently Dict.get Dict.put
    String-discrete
admission = tt

admitted : (admit env alert alerts []).0 ≡ true
unfolding admission
admitted = refl

-- A database that takes no alert.
abbrev locked : Env
locked = record env { save_alert_error = λ t a. some "database is locked" }

admit_once_example : (admit env alert (admit env alert alerts []).1 []).0 ≡ false
unfolding alert_cooldown category_cooldown
admit_once_example =
    admit_once env alert alert alerts [] [] tt admitted refl (λ e. cc) (omega arith) (omega arith)

-- A manager with the firewall responder, which may act.
abbrev armed : Manager
armed = record (empty_manager true rc healthy) { responders = firewall ∷ [] }

armed-IsSound : IsSound armed []
unfolding audited
armed-IsSound = record {
  ledger = refl;
  responders = (firewall-IsSafe env ip_address rc, tt);
  queued = tt;
  listed = omega arith;
  audit = refl;
}

process-audited_example :
    audited
      (process env ip_address isoformat repr
        (alert ∷ [])
        0
        (record alerts { responders = some armed })
        []).2
    ≡ true
process-audited_example =
    process-audited env ip_address isoformat repr (alert ∷ []) 0
      (record alerts { responders = some armed }) [] armed-IsSound
