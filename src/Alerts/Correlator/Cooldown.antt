-- ===== src/Alerts/Correlator/Cooldown.antt =====
-- One incident per actor and cooldown, as long as no other actor's alerts come in between: these may
-- evict the actor, and its cooldown with it.
use sentinel_pi.Prelude.{
  ℕ, suc, ◌+◌, ◌<◌, String, ◌≡◌, ◌≢◌, ◌∙◌, refl, Bool, true, Option, none, some, List, [], ◌∷◌,
  length, string_key, eqb, arith, ap, subst, All, Option-cases, inl, inr, if_intro, option_intro,
  ◌||◌, leb,
}
use sentinel_pi.Prelude.Dict
use sentinel_pi.Prelude.Dict.{Dict, get-remove_ne, get-put_self}
use sentinel_pi.Models.{Alert, Datetime, seconds, incident}
use sentinel_pi.World.{Trace, Env}
use sentinel_pi.Alerts.Correlator.{
  CorrelationConfig, CorrelationEvent, Correlator, actor_limit, cleanup, evict, record_event,
  decide, observe, actor_for_alert, correlation_event, is_fresh, is_category, is_on_cooldown,
  incident_of, events_of,
}
use sentinel_pi.Alerts.Correlator.Incidents.{observe_lem}

-- The last incident of the actor was at this time, and its cooldown still runs.
abbrev pub IsCooling : String → Datetime → Datetime → Correlator → Type 0
IsCooling actor last now c =
    (Dict.get actor c.last_incident ≡ some last) × (now < last + seconds c.config.cooldown_seconds)

get-filter_values :
    (k : String) (p : Datetime → Bool) (d : Dict String Datetime) (v : Datetime)
    → Dict.get k d ≡ some v
    → p v ≡ true
    → Dict.get k (Dict.filter_values p d) ≡ some v
unfolding Dict.get Dict.filter_values
get-filter_values k p [] v e pv = absurd cc
get-filter_values k p ((j, w) ∷ d) v e pv = ground (arith, get-filter_values k p d v)

get-evict :
    (limit : ℕ) (k : String) (d : Dict String (List CorrelationEvent))
    (cooling : Dict String Datetime) (n : ℕ)
    → Dict.get k d ≡ none
    → Dict.get k (evict limit d cooling n).1 ≡ Dict.get k cooling
unfolding Dict.get evict
get-evict limit k [] cooling n h = refl
get-evict limit k ((j, es) ∷ d) cooling n h =
    let other : k ≢ j = λ e. ground arith in
    let rest = get-evict limit k d (Dict.remove j cooling) (n + 1) (ground arith) in
    if_intro
      (λ (out : Dict String (List CorrelationEvent) × Dict String Datetime × ℕ).
        Dict.get k out.1 ≡ Dict.get k cooling)
      (leb limit (suc (length d))) (λ _. rest ∙ get-remove_ne j k cooling other) (λ _. refl)

cleanup-IsCooling :
    (actor : String) (last now : Datetime) (c : Correlator)
    → IsCooling actor last now c
    → IsCooling actor last now (cleanup now c)
unfolding cleanup
cleanup-IsCooling actor last now c h =
    if_intro (IsCooling actor last now) (is_fresh c now) (λ _. h)
      (λ _. (get-filter_values actor _ c.last_incident last h.0 (ground (arith, h.1)), h.1))

record_event-IsCooling :
    (actor : String) (last now : Datetime) (e : CorrelationEvent) (c : Correlator)
    → IsCooling actor last now c
    → IsCooling actor last now (record_event actor e c)
unfolding record_event
record_event-IsCooling actor last now e c h = elim (Option-cases (Dict.get actor c.events)) [
  | inl missing ↦
      rw (missing, record_event)
        (
          get-evict (actor_limit c.config) actor c.events c.last_incident c.actor_evictions missing
              ∙ h.0,
          h.1,
        )
  | inr (es, found) ↦ rw (found, record_event) h
]

cleanup-config : (now : Datetime) (c : Correlator) → (cleanup now c).config ≡ c.config
unfolding cleanup
cleanup-config now c =
    if_intro (λ (c' : Correlator). c'.config ≡ c.config) (is_fresh c now) (λ _. refl) (λ _. refl)

record_event-config :
    (actor : String) (e : CorrelationEvent) (c : Correlator)
    → (record_event actor e c).config ≡ c.config
unfolding record_event
record_event-config actor e c = elim (Option-cases (Dict.get actor c.events)) [
  | inl missing ↦ rw (missing, record_event) refl
  | inr (es, found) ↦ rw (found, record_event) refl
]

module _ (env : Env) (isoformat : Datetime → String) (repr : List String → String) where
  decide-IsCooling :
      (actor : String) (last now : Datetime) (c : Correlator) (t : Trace)
      → IsCooling actor last now c
      → ((decide env isoformat repr actor now c t).0 ≡ none)
        × (Dict.get actor (decide env isoformat repr actor now c t).1.last_incident ≡ some last)
  unfolding decide is_on_cooldown
  decide-IsCooling actor last now c t h =
      let cooling : is_on_cooldown actor now c ≡ true =
        rw (h.0, is_on_cooldown) (ground (arith, h.1)) in
      elim (Option-cases (incident_of env isoformat repr c.config actor (events_of actor c) t)) [
        | inl e ↦ rw (e, decide) (refl, h.0)
        | inr (alert, e) ↦ rw (e, decide, cooling) (refl, h.0)
      ]

  -- One alert of the actor leaves its cooldown alone.
  observe-IsCooling :
      (alert : Alert) (last : Datetime) (c : Correlator) (t : Trace)
      → IsCooling (actor_for_alert alert) last (env.clock t) c
      → ((observe env isoformat repr alert c t).0 ≡ none)
        × (Dict.get (actor_for_alert alert) (observe env isoformat repr alert c t).1.last_incident
            ≡ some last)
  unfolding observe
  observe-IsCooling alert last c t h =
      let now = env.clock t in
      let actor = actor_for_alert alert in
      if_intro
        (λ (out : Option Alert × Correlator).
          (out.0 ≡ none) × (Dict.get actor out.1.last_incident ≡ some last))
        (is_category alert incident || eqb actor "") (λ _. (refl, h.0))
        (λ _.
          decide-IsCooling actor last now _ t
            (record_event-IsCooling actor last now _ _ (cleanup-IsCooling actor last now c h)))

  decide-config :
      (actor : String) (now : Datetime) (c : Correlator) (t : Trace)
      → (decide env isoformat repr actor now c t).1.config ≡ c.config
  unfolding decide
  decide-config actor now c t =
      option_intro (λ (out : Option Alert × Correlator). out.1.config ≡ c.config)
        (incident_of env isoformat repr c.config actor (events_of actor c) t) refl
        (λ alert.
          if_intro (λ (out : Option Alert × Correlator). out.1.config ≡ c.config)
            (is_on_cooldown actor now c) (λ _. refl) (λ _. refl))

  observe-config :
      (alert : Alert) (c : Correlator) (t : Trace)
      → (observe env isoformat repr alert c t).1.config ≡ c.config
  unfolding observe
  observe-config alert c t =
      let now = env.clock t in
      let actor = actor_for_alert alert in
      if_intro (λ (out : Option Alert × Correlator). out.1.config ≡ c.config)
        (is_category alert incident || eqb actor "") (λ _. refl)
        (λ _.
          decide-config actor now _ t
          ∙ record_event-config actor (correlation_event alert actor now) (cleanup now c)
          ∙ cleanup-config now c)

  -- The incidents of alerts that come one after the other, each when the trace is as it says.
  pub incidents_of : List (Alert × Trace) → Correlator → List Alert
  incidents_of [] c = []
  incidents_of ((alert, t) ∷ alerts) c =
      let (raised, c') = observe env isoformat repr alert c t in
      let more = incidents_of alerts c' in elim raised [ none ↦ more | some i ↦ i ∷ more ]

  -- The alert is the actor's, and comes within the time after the last incident.
  abbrev pub IsSoon : String → Datetime → ℕ → Alert × Trace → Type 0
  IsSoon actor last cooldown (alert, t) =
      (actor_for_alert alert ≡ actor) × (env.clock t < last + seconds cooldown)

  incidents_of-IsCooling :
      (actor : String) (last : Datetime) (cooldown : ℕ) (alerts : List (Alert × Trace))
      (c : Correlator)
      → c.config.cooldown_seconds ≡ cooldown
      → Dict.get actor c.last_incident ≡ some last
      → All (IsSoon actor last cooldown) alerts
      → incidents_of alerts c ≡ []
  unfolding incidents_of
  incidents_of-IsCooling actor last cooldown [] c e h k = refl
  incidents_of-IsCooling actor last cooldown ((alert, t) ∷ alerts) c e h k =
      let same = k.0.0 in
      let cooling : IsCooling (actor_for_alert alert) last (env.clock t) c =
        (rw same h, rw e k.0.1) in
      let (quiet, kept) = observe-IsCooling alert last c t cooling in
      let config = observe-config alert c t in
      let there : Dict.get actor (observe env isoformat repr alert c t).1.last_incident
          ≡ some last =
        subst (λ a. Dict.get a (observe env isoformat repr alert c t).1.last_incident ≡ some last)
          same kept in
      rw (quiet, incidents_of)
        (incidents_of-IsCooling actor last cooldown alerts (observe env isoformat repr alert c t).1
          (ap (λ (g : CorrelationConfig). g.cooldown_seconds) config ∙ e) there k.1)

  -- After an alert has raised an incident, the alerts of the same actor that are observed next,
  -- each before the cooldown of that incident is over, raise no other, provided that no alert of
  -- another actor is observed in between.
  pub observe_once :
      (first i : Alert) (c : Correlator) (t : Trace) (alerts : List (Alert × Trace))
      → (observe env isoformat repr first c t).0 ≡ some i
      → All (IsSoon (actor_for_alert first) (env.clock t) c.config.cooldown_seconds) alerts
      → incidents_of alerts (observe env isoformat repr first c t).1 ≡ []
  observe_once first i c t alerts e h =
      incidents_of-IsCooling (actor_for_alert first) (env.clock t) c.config.cooldown_seconds alerts
        (observe env isoformat repr first c t).1
        (ap (λ (g : CorrelationConfig). g.cooldown_seconds) (observe-config first c t))
        (observe_lem env isoformat repr first i c t e).2 h
