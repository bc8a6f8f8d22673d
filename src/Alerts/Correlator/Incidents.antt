-- ===== src/Alerts/Correlator/Incidents.antt =====
-- What an incident means: the actor's events inside the window reached a threshold, or held the
-- intrusion sequence. Also the peak severity that its text reports.
use sentinel_pi.Prelude.{
  ℕ, ◌≤◌, String, ◌≡◌, ◌⊎◌, ◌∙◌, sym, refl, Bool, true, Option, none, some, List, [], ◌∷◌,
  string_key, eqb, map, length, keep, elem, IsDistinct, not, ◌&&◌, leb, leb→le, arith, Bool-cases,
  Option-cases, inl, inr, if_intro, if◌then◌else◌, ◌||◌, zero, suc, get_elem?,
}
use sentinel_pi.Prelude.Dict
use sentinel_pi.Prelude.Dict.{get-put_self}
use sentinel_pi.Models.{
  Alert, Datetime, Severity, incident, rank, severity_lt, parse_severity, category_value,
}
use sentinel_pi.World.{Trace, Env}
use sentinel_pi.Alerts.Correlator.{
  CorrelationEvent, CorrelationConfig, Correlator, decide, observe, actor_for_alert, is_category,
  is_on_cooldown, incident_of, build_incident, build_sequence_incident, incident_alert, events_of,
  is_triggered, sensors, targets, match_sequence, single_host_sequence, peak_from,
}
use sentinel_pi.Text.Show.{elem-sorted_set}
use sentinel_pi.Text.Show.Sets.{sorted_set-IsDistinct}
use sentinel_pi.Alerts.Correlator.Sequence.{OccursIn, match_sequence-OccursIn}

-- The texts are distinct, they are those that pass a test, and there are at least so many.
pub record AreMany (p : String → Bool) (n : ℕ) : Type 0 where
  pub texts : List String
  pub distinct : IsDistinct texts
  pub exactly : (s : String) → elem s texts ≡ p s
  pub enough : n ≤ length texts

-- Some event came from the sensor; some event has the target, which is not empty.
abbrev pub is_sensor : List CorrelationEvent → String → Bool
is_sensor es s = elem s (map (λ e. e.sensor) es)

abbrev pub is_target : List CorrelationEvent → String → Bool
is_target es s = not (eqb s "") && elem s (map (λ e. e.target) es)

-- A reason for an incident in an actor's events.
abbrev pub IsSuspicious : CorrelationConfig → List CorrelationEvent → Type 0
IsSuspicious config es =
    AreMany (is_sensor es) config.min_sensors
    ⊎ AreMany (is_target es) config.min_targets
    ⊎ OccursIn ("new_device" ∷ "port_scan" ∷ "lateral_movement" ∷ []) es

elem-keep :
    (s : String) (xs : List String)
    → elem s (keep (λ x. not (eqb x "")) xs) ≡ (not (eqb s "") && elem s xs)
elem-keep s [] = ground arith
elem-keep s (x ∷ xs) = ground (arith, elem-keep s xs)

is_triggered-IsSuspicious :
    (config : CorrelationConfig) (es : List CorrelationEvent)
    → is_triggered config es ≡ true
    → IsSuspicious config es
unfolding is_triggered sensors targets
is_triggered-IsSuspicious config es h =
    elim (Bool-cases (leb config.min_sensors (length (sensors es)))) [
      | inl many ↦ inl (record {
        texts = sensors es;
        distinct = sorted_set-IsDistinct _;
        exactly = λ s. elem-sorted_set s _;
        enough = leb→le _ _ many;
      })
      | inr few ↦ inr (
          inl (record {
            texts = targets es;
            distinct = sorted_set-IsDistinct _;
            exactly = λ s. elem-sorted_set s _ ∙ elem-keep s _;
            enough = leb→le _ _ (ground (arith, h, few));
          }))
    ]

module _ (env : Env) (isoformat : Datetime → String) (repr : List String → String) where
  incident_of-IsSuspicious :
      (config : CorrelationConfig) (actor : String) (es : List CorrelationEvent) (t : Trace)
      (i : Alert)
      → incident_of env isoformat repr config actor es t ≡ some i
      → (i.category ≡ incident) × (i.affected_host ≡ actor) × IsSuspicious config es
  unfolding incident_of build_incident build_sequence_incident incident_alert category_value
  incident_of-IsSuspicious config actor es t i h = elim (Bool-cases (is_triggered config es)) [
    | inl hit ↦
        let e : build_incident env isoformat repr config actor es t ≡ i = ground (arith, h, hit) in
        (rw (sym e) refl, rw (sym e) refl, is_triggered-IsSuspicious config es hit)
    | inr miss ↦ elim (Option-cases (match_sequence single_host_sequence es)) [
      | inl missing ↦ absurd (ground (arith, h, miss, missing))
      | inr (ms, found) ↦
          let e : build_sequence_incident env isoformat repr config actor t ≡ i =
            ground (arith, h, miss, found) in
          (
            rw (sym e) refl,
            rw (sym e) refl,
            inr (inr (match_sequence-OccursIn single_host_sequence es ms found).0),
          )
    ]
  ]

  -- What holds of an outcome that is an incident.
  abbrev IsJustified : String → Datetime → Option Alert × Correlator → Type 0
  IsJustified actor now (none, c) = Unit
  IsJustified actor now (some i, c) =
      (i.category ≡ incident)
      × (i.affected_host ≡ actor)
      × (Dict.get actor c.last_incident ≡ some now)
      × IsSuspicious c.config (events_of actor c)

  decide-IsJustified :
      (actor : String) (now : Datetime) (c : Correlator) (t : Trace)
      → IsJustified actor now (decide env isoformat repr actor now c t)
  unfolding decide
  decide-IsJustified actor now c t =
      elim (Option-cases (incident_of env isoformat repr c.config actor (events_of actor c) t)) [
        | inl e ↦ rw (e, decide) tt
        | inr (i, e) ↦
            let (q, host, reason) = incident_of-IsSuspicious c.config actor _ t i e in
            rw (e, decide)
              (if_intro (IsJustified actor now) (is_on_cooldown actor now c) (λ _. tt)
                (λ _. (q, host, get-put_self actor now c.last_incident, reason)))
      ]

  observe-IsJustified :
      (alert : Alert) (c : Correlator) (t : Trace)
      → IsJustified (actor_for_alert alert) (env.clock t) (observe env isoformat repr alert c t)
  unfolding observe
  observe-IsJustified alert c t =
      if_intro (IsJustified (actor_for_alert alert) (env.clock t))
        (is_category alert incident || eqb (actor_for_alert alert) "") (λ _. tt)
        (λ _. decide-IsJustified _ _ _ t)

  of_outcome :
      (actor : String) (now : Datetime) (i : Alert) (out : Option Alert × Correlator)
      → out.0 ≡ some i
      → IsJustified actor now out
      → (i.category ≡ incident)
        × (i.affected_host ≡ actor)
        × (Dict.get actor out.1.last_incident ≡ some now)
        × IsSuspicious out.1.config (events_of actor out.1)
  of_outcome actor now i (none, c) e j = cc
  of_outcome actor now i (some i', c) e j =
      let same : i' ≡ i = cc in (rw (sym same) j.0, rw (sym same) j.1, j.2, j.3)

  -- When an alert raises an incident, the incident is of the category INCIDENT and names the actor
  -- of the alert, whose last incident is now; and the recorded events of the actor come from at
  -- least min_sensors distinct sensors, or have at least min_targets distinct targets that are not
  -- empty, or hold a new device, a port scan and a lateral movement in this order.
  pub observe_lem :
      (alert i : Alert) (c : Correlator) (t : Trace)
      → (observe env isoformat repr alert c t).0 ≡ some i
      → let actor = actor_for_alert alert in
        let c' = (observe env isoformat repr alert c t).1 in
        (i.category ≡ incident)
        × (i.affected_host ≡ actor)
        × (Dict.get actor c'.last_incident ≡ some (env.clock t))
        × IsSuspicious c'.config (events_of actor c')
  observe_lem alert i c t e =
      of_outcome (actor_for_alert alert) (env.clock t) i (observe env isoformat repr alert c t) e
        (observe-IsJustified alert c t)

-- The severity after one more event.
abbrev raise_to : Severity → Severity → Severity
raise_to peak sev = if severity_lt peak sev then sev else peak

raise_to-rank :
    (peak sev : Severity)
    → (rank peak ≤ rank (raise_to peak sev)) × (rank sev ≤ rank (raise_to peak sev))
unfolding severity_lt
raise_to-rank peak sev = elim (Bool-cases (severity_lt peak sev)) [
  | inl e ↦ rw e (ground (arith, e), omega arith)
  | inr e ↦ rw e (omega arith, ground (arith, e))
]

peak_from-rank :
    (peak : Severity) (es : List CorrelationEvent) → rank peak ≤ rank (peak_from peak es)
unfolding peak_from
peak_from-rank peak [] = omega arith
peak_from-rank peak (e ∷ es) = elim (Option-cases (parse_severity e.severity)) [
  | inl h ↦ rw (h, peak_from) (peak_from-rank peak es)
  | inr (sev, h) ↦
      rw (h, peak_from)
        (omega (arith, peak_from-rank (raise_to peak sev) es, (raise_to-rank peak sev).0))
]

-- No event of an incident is more severe than the peak severity that its text reports.
rank-peak_from :
    (peak sev : Severity) (es : List CorrelationEvent) (i : ℕ) (e : CorrelationEvent)
    → get_elem? es i ≡ some e
    → parse_severity e.severity ≡ some sev
    → rank sev ≤ rank (peak_from peak es)
unfolding peak_from
rank-peak_from peak sev [] i e h p = absurd cc
rank-peak_from peak sev (x ∷ es) zero e h p =
    let q : parse_severity x.severity ≡ some sev = ground (arith, h, p) in
    rw (q, peak_from)
      (omega (arith, peak_from-rank (raise_to peak sev) es, (raise_to-rank peak sev).1))
rank-peak_from peak sev (x ∷ es) (suc i) e h p = elim (Option-cases (parse_severity x.severity)) [
  | inl q ↦ rw (q, peak_from) (rank-peak_from peak sev es i e h p)
  | inr (s, q) ↦ rw (q, peak_from) (rank-peak_from (raise_to peak s) sev es i e h p)
]
