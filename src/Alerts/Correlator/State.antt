-- ===== src/Alerts/Correlator/State.antt =====
-- What the correlator of alerts/correlator.py keeps of each actor, and for how long.
use sentinel_pi.Prelude.{
  ℕ, suc, ◌+◌, ◌-◌, min, max, String, Bool, true, false, ◌||◌, not, Option, none, some, List, [],
  ◌∷◌, length, ltb, leb, string_key, eqb, ite, if◌then◌else◌,
}
use sentinel_pi.Prelude.Dict
use sentinel_pi.Prelude.Dict.{Dict}
use sentinel_pi.Models.{
  Alert, Datetime, seconds, severity_value, AlertCategory, port_scan, lateral_movement,
  auth_anomaly, Category-discrete, category_value,
}

-- `CorrelationConfig` of config/manager.py
pub record CorrelationConfig : Type 0 where
  pub window_seconds : ℕ
  pub min_sensors : ℕ
  pub min_targets : ℕ
  pub cooldown_seconds : ℕ
  pub max_actors : ℕ

pub record CorrelationEvent : Type 0 where
  pub timestamp : Datetime
  pub sensor : String
  pub target : String
  pub category : String
  pub severity : String
  pub title : String
  pub affected_host : String
  pub related_host : String

-- The state of `IncidentCorrelator`. The actor that was seen last stands last in `events`.
pub record Correlator : Type 0 where
  pub config : CorrelationConfig
  pub events : Dict String (List CorrelationEvent)
  pub last_incident : Dict String Datetime
  pub last_cleanup : Option Datetime
  pub actor_evictions : ℕ
  pub expired_actors : ℕ
  pub expired_cooldowns : ℕ

-- `max(1, int(self.config.max_actors))`
unfoldable pub actor_limit : CorrelationConfig → ℕ
actor_limit config = max 1 config.max_actors

-- `deque(maxlen=500)`
abbrev pub max_events : ℕ
max_events = 500

abbrev pub is_category : Alert → AlertCategory → Bool
is_category alert c = ite (Category-discrete alert.category c) true false

-- `a or b` on texts
abbrev pub or_else : String → String → String
or_else a b = if eqb a "" then b else a

unfoldable pub actor_for_alert : Alert → String
actor_for_alert alert =
    if is_category alert port_scan || is_category alert lateral_movement
    then or_else alert.related_host alert.affected_host
    else if is_category alert auth_anomaly
    then or_else alert.extra.src_ip (or_else alert.related_host alert.affected_host)
    else or_else alert.affected_host alert.related_host

unfoldable pub target_for_alert : Alert → String → String
target_for_alert alert actor =
    let target =
      if is_category alert port_scan || is_category alert lateral_movement
      then alert.affected_host
      else alert.related_host in
    if eqb target actor then "" else target

-- `alert.extra.get("sensor", "local")`
unfoldable pub sensor_of : Alert → String
sensor_of alert = elim alert.extra.sensor [ none ↦ "local" | some s ↦ s ]

unfoldable pub correlation_event : Alert → String → Datetime → CorrelationEvent
correlation_event alert actor now = record {
  timestamp = now;
  sensor = sensor_of alert;
  target = target_for_alert alert actor;
  category = category_value alert.category;
  severity = severity_value alert.severity;
  title = alert.title;
  affected_host = alert.affected_host;
  related_host = alert.related_host;
}

-- `timestamp < cutoff`, where `cutoff = now - timedelta(seconds=window_seconds)`
abbrev pub is_stale : ℕ → Datetime → CorrelationEvent → Bool
is_stale window now e = ltb (e.timestamp + seconds window) now

-- `while events and events[0].timestamp < cutoff: events.popleft()`
unfoldable pub drop_stale : ℕ → Datetime → List CorrelationEvent → List CorrelationEvent
drop_stale window now [] = []
drop_stale window now (e ∷ es) =
    let rest = drop_stale window now es in if is_stale window now e then rest else e ∷ es

-- The loop of `_cleanup` over the actors.
unfoldable pub expire_actors :
    ℕ → Datetime → Dict String (List CorrelationEvent) → Dict String (List CorrelationEvent)
expire_actors window now [] = []
expire_actors window now ((actor, es) ∷ d) =
    let rest = expire_actors window now d in
    elim (drop_stale window now es) [ [] ↦ rest | e ∷ kept ↦ (actor, e ∷ kept) ∷ rest ]

-- `interval` has not passed since the last cleanup.
unfoldable pub is_fresh : Correlator → Datetime → Bool
is_fresh c now = elim c.last_cleanup [
  | none ↦ false
  | some last ↦ ltb now (last + seconds (max 1 (min 60 c.config.window_seconds)))
]

-- `_cleanup`
unfoldable pub cleanup : Datetime → Correlator → Correlator
cleanup now c =
    let events = expire_actors c.config.window_seconds now c.events in
    let cooling =
      Dict.filter_values
        (λ timestamp. not (leb (timestamp + seconds c.config.cooldown_seconds) now))
        c.last_incident in
    if is_fresh c now then c else record c {
      events = events;
      last_incident = cooling;
      last_cleanup = some now;
      expired_actors = c.expired_actors + (length c.events - length events);
      expired_cooldowns = c.expired_cooldowns + (length c.last_incident - length cooling);
    }

-- `while len(self._events) >= self._max_actors: …`, the actor that was seen longest ago first.
unfoldable pub evict :
    ℕ
    → Dict String (List CorrelationEvent)
    → Dict String Datetime
    → ℕ
    → Dict String (List CorrelationEvent) × Dict String Datetime × ℕ
evict limit [] cooling evictions = ([], cooling, evictions)
evict limit ((actor, es) ∷ d) cooling evictions =
    let smaller = evict limit d (Dict.remove actor cooling) (evictions + 1) in
    if leb limit (suc (length d)) then smaller else ((actor, es) ∷ d, cooling, evictions)
