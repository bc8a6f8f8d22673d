-- ===== src/Alerts/Correlator.antt =====
-- alerts/correlator.py: alerts of one actor, inside a sliding window, become one incident. Datetimes
-- print by `isoformat` and lists by `repr`, which are Python's and parameters here.
pub mod State
pub mod Bounds
pub mod Cooldown
pub mod Sequence
pub mod Incidents
use Prim.Native.String.{◌++◌}
use mathlib.Core.List.{◌++◌ as append}
use sentinel_pi.Prelude.{
  ℕ, zero, suc, ◌+◌, ◌-◌, min, max, String, ◌≡◌, Bool, true, false, ◌&&◌, ◌||◌, not, Option, none,
  some, List, [], ◌∷◌, map, length, push_right, ltb, leb, string_key, eqb, keep, ite, if◌then◌else◌,
}
use sentinel_pi.Prelude.Dict
use sentinel_pi.Prelude.Dict.{Dict}
use sentinel_pi.Models.{
  Alert, Datetime, seconds, Severity, info, high, critical, severity_lt, severity_value,
  parse_severity, AlertCategory, port_scan, lateral_movement, auth_anomaly, incident, new_device,
  Category-discrete, category_value, new, no_extra,
}
use sentinel_pi.Text.{upper}
use sentinel_pi.World.{Trace, Env}
use sentinel_pi.Text.Show.{show, sorted_set}
pub use State.*
unfoldable pub use State.{
  actor_limit, actor_for_alert, target_for_alert, sensor_of, correlation_event, drop_stale,
  expire_actors, is_fresh, cleanup, evict,
}

-- `self._events[actor]` at the end, the new event appended and what left the window dropped.
unfoldable pub append_event :
    ℕ
    → String
    → List CorrelationEvent
    → CorrelationEvent
    → Dict String (List CorrelationEvent)
    → Dict String (List CorrelationEvent)
append_event window actor es e d =
    append d ((actor, drop_stale window e.timestamp (push_right max_events es e)) ∷ [])

-- The event joins its actor's events.
unfoldable pub record_event : String → CorrelationEvent → Correlator → Correlator
record_event actor e c = elim (Dict.get actor c.events) [
  | none ↦
      let (d, cooling, evictions) =
        evict (actor_limit c.config) c.events c.last_incident c.actor_evictions in
      record c {
        events = append_event c.config.window_seconds actor [] e d;
        last_incident = cooling;
        actor_evictions = evictions;
      }
  | some es ↦ record c {
    events = append_event c.config.window_seconds actor es e (Dict.remove actor c.events);
  }
]

-- `self._events[actor]`
abbrev pub events_of : String → Correlator → List CorrelationEvent
events_of actor c = elim (Dict.get actor c.events) [ none ↦ [] | some es ↦ es ]

-- `{e.sensor for e in events}`, `{e.target for e in events if e.target}`, in order
unfoldable pub sensors : List CorrelationEvent → List String
sensors es = sorted_set (map (λ e. e.sensor) es)

unfoldable pub targets : List CorrelationEvent → List String
targets es = sorted_set (keep (λ s. not (eqb s "")) (map (λ e. e.target) es))

unfoldable pub is_triggered : CorrelationConfig → List CorrelationEvent → Bool
is_triggered config es =
    leb config.min_sensors (length (sensors es)) || leb config.min_targets (length (targets es))

abbrev pub single_host_sequence : List String
single_host_sequence =
    category_value new_device ∷ category_value port_scan ∷ category_value lateral_movement ∷ []

-- The loop of `_matched_single_host_sequence`: the categories still to match, the events still to
-- read; none if they run out.
unfoldable pub match_sequence : List String → List CorrelationEvent → Option (List CorrelationEvent)
match_sequence [] es = some []
match_sequence (c ∷ cs) [] = none
match_sequence (c ∷ cs) (e ∷ es) =
    let taken = match_sequence cs es in
    let skipped = match_sequence (c ∷ cs) es in
    if eqb e.category c
    then elim taken [ none ↦ none | some matched ↦ some (e ∷ matched) ]
    else skipped

unfoldable pub is_on_cooldown : String → Datetime → Correlator → Bool
is_on_cooldown actor now c = elim (Dict.get actor c.last_incident) [
  | none ↦ false
  | some last ↦ ltb now (last + seconds c.config.cooldown_seconds)
]

-- The loop of `_peak_severity`.
unfoldable pub peak_from : Severity → List CorrelationEvent → Severity
peak_from peak [] = peak
peak_from peak (e ∷ es) = elim (parse_severity e.severity) [
  | none ↦ peak_from peak es
  | some sev ↦ peak_from (if severity_lt peak sev then sev else peak) es
]

unfoldable pub peak_severity : List CorrelationEvent → String
peak_severity es = severity_value (peak_from info es)

module _ (env : Env) (isoformat : Datetime → String) (repr : List String → String) where
  -- `Alert(category=AlertCategory.INCIDENT, …)`
  unfoldable pub incident_alert : Severity → String → String → String → String → Trace → Alert
  incident_alert severity actor title description dedup_key t = record {
    alert_id = env.uuid t;
    timestamp = env.clock t;
    severity = severity;
    category = incident;
    affected_host = actor;
    affected_mac = "";
    related_host = "";
    title = title;
    description = description;
    dedup_key = dedup_key;
    status = new;
    extra = no_extra;
  }

  -- `events[0].timestamp if events else clock.now()`
  unfoldable pub first_seen : List CorrelationEvent → Trace → Datetime
  first_seen [] t = env.clock t
  first_seen (e ∷ es) t = e.timestamp

  unfoldable pub build_incident : CorrelationConfig → String → List CorrelationEvent → Trace → Alert
  unfolding incident_alert first_seen
  build_incident config actor es t =
      let n_sensors = length (sensors es) in
      let n_targets = length (targets es) in
      let severity = if leb 3 n_sensors || leb 20 n_targets then critical else high in
      incident_alert severity actor
        ("Correlated incident: "
          ++ actor
          ++ " active across "
          ++ show n_sensors
          ++ " sensor(s), "
          ++ show n_targets
          ++ " target(s)")
        (actor
          ++ " generated "
          ++ show (length es)
          ++ " alerts since "
          ++ isoformat (first_seen es t)
          ++ " (within "
          ++ show config.window_seconds
          ++ "s), spanning sensors "
          ++ repr (sensors es)
          ++ " and "
          ++ show n_targets
          ++ " distinct target(s), peaking at "
          ++ upper (peak_severity es)
          ++ " severity. Alert types involved: "
          ++ repr (sorted_set (map (λ e. e.category) es))
          ++ ". Correlating these into one incident points to a coordinated action (e.g. a "
          ++ "network-wide scan or lateral movement) rather than isolated noise.")
        ("incident:" ++ actor) t

  unfoldable pub build_sequence_incident : CorrelationConfig → String → Trace → Alert
  unfolding incident_alert
  build_sequence_incident config actor t =
      incident_alert high actor ("Possible intrusion sequence: " ++ actor)
        (actor
          ++ " followed a suspicious sequence within "
          ++ show config.window_seconds
          ++ "s: new device, reconnaissance, then lateral movement/admin access. Correlating these "
          ++ "events into one incident preserves the raw alerts while making the likely attack "
          ++ "story visible.")
        ("incident:sequence:" ++ actor) t

  -- Which incident the events of an actor make, if any.
  unfoldable pub incident_of :
      CorrelationConfig → String → List CorrelationEvent → Trace → Option Alert
  unfolding is_triggered build_incident build_sequence_incident
  incident_of config actor es t =
      if is_triggered config es
      then some (build_incident config actor es t)
      else elim (match_sequence single_host_sequence es) [
        | none ↦ none
        | some matched ↦ some (build_sequence_incident config actor t)
      ]

  -- After the event is recorded: the thresholds, then the cooldown.
  unfoldable pub decide : String → Datetime → Correlator → Trace → Option Alert × Correlator
  unfolding incident_of
  decide actor now c t = elim (incident_of c.config actor (events_of actor c) t) [
    | none ↦ (none, c)
    | some alert ↦
        if is_on_cooldown actor now c
        then (none, c)
        else (some alert, record c { last_incident = Dict.put actor now c.last_incident })
  ]

  unfoldable pub observe : Alert → Correlator → Trace → Option Alert × Correlator
  unfolding decide
  observe alert c t =
      let now = env.clock t in
      let actor = actor_for_alert alert in
      if is_category alert incident || eqb actor ""
      then (none, c)
      else decide actor now (record_event actor (correlation_event alert actor now) (cleanup now c))
          t
