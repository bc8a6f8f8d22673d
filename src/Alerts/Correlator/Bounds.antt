-- ===== src/Alerts/Correlator/Bounds.antt =====
-- The memory that the correlator takes: how many actors it tracks, and how many events of each.
use mathlib.Core.List.{◌++◌}
use sentinel_pi.Prelude.{
  ℕ, suc, ◌+◌, ◌≤◌, ◌<◌, String, ◌≡◌, Option, some, List, [], ◌∷◌, length, length-append,
  length-last_n, push_right, string_key, eqb, arith, Option-cases, inl, inr, if_intro, leb, ◌||◌,
}
use sentinel_pi.Prelude.Dict
use sentinel_pi.Prelude.Dict.{Dict, AllValues, AllValues-remove, get-AllValues}
use sentinel_pi.Models.{Alert, Datetime, incident}
use sentinel_pi.World.{Trace, Env}
use sentinel_pi.Alerts.Correlator.{
  CorrelationEvent, Correlator, actor_limit, max_events, drop_stale, expire_actors, cleanup, evict,
  append_event, record_event, decide, observe, actor_for_alert, is_fresh, is_category,
  is_on_cooldown, incident_of, events_of,
}

abbrev Tracked : Type 0
Tracked = Dict String (List CorrelationEvent)

abbrev Fits : List CorrelationEvent → Type 0
Fits es = length es ≤ max_events

-- At most `max_actors` actors, at least one, with at most 500 events each.
pub record IsBounded (c : Correlator) : Type 0 where
  pub actors : length c.events ≤ actor_limit c.config
  pub deques : AllValues Fits c.events

length-drop_stale :
    (window : ℕ) (now : Datetime) (es : List CorrelationEvent)
    → length (drop_stale window now es) ≤ length es
unfolding drop_stale
length-drop_stale window now [] = omega arith
length-drop_stale window now (e ∷ es) = ground (arith, length-drop_stale window now es)

length-expire_actors :
    (window : ℕ) (now : Datetime) (d : Tracked) → length (expire_actors window now d) ≤ length d
unfolding expire_actors
length-expire_actors window now [] = omega arith
length-expire_actors window now ((a, es) ∷ d) = ground (arith, length-expire_actors window now d)

expire_actors-Fits :
    (window : ℕ) (now : Datetime) (d : Tracked)
    → AllValues Fits d
    → AllValues Fits (expire_actors window now d)
unfolding expire_actors
expire_actors-Fits window now [] h = tt
expire_actors-Fits window now ((a, es) ∷ d) h =
    kept-Fits (drop_stale window now es) (omega (arith, h.0, length-drop_stale window now es))
      (expire_actors-Fits window now d h.1)
  where
    kept-Fits :
        (kept : List CorrelationEvent)
        → Fits kept
        → AllValues Fits (expire_actors window now d)
        → AllValues Fits (elim kept as (λ _. Tracked) [
          | [] ↦ expire_actors window now d
          | e ∷ kept ↦ (a, e ∷ kept) ∷ expire_actors window now d
        ])
    kept-Fits [] f k = k
    kept-Fits (e ∷ kept) f k = (f, k)

length-evict :
    (limit : ℕ) (d : Tracked) (cooling : Dict String Datetime) (n : ℕ)
    → 0 < limit
    → length (evict limit d cooling n).0 < limit
unfolding evict
length-evict limit [] cooling n h = h
length-evict limit ((a, es) ∷ d) cooling n h =
    ground (arith, length-evict limit d (Dict.remove a cooling) (n + 1) h)

evict-Fits :
    (limit : ℕ) (d : Tracked) (cooling : Dict String Datetime) (n : ℕ)
    → AllValues Fits d
    → AllValues Fits (evict limit d cooling n).0
unfolding evict
evict-Fits limit [] cooling n h = tt
evict-Fits limit ((a, es) ∷ d) cooling n h =
    if_intro (λ (out : Tracked × Dict String Datetime × ℕ). AllValues Fits out.0)
      (leb limit (suc (length d))) (λ _. evict-Fits limit d (Dict.remove a cooling) (n + 1) h.1)
      (λ _. h)

AllValues-append :
    (d d' : Tracked) → AllValues Fits d → AllValues Fits d' → AllValues Fits (d ++ d')
AllValues-append [] d' h k = k
AllValues-append ((a, es) ∷ d) d' h k = (h.0, AllValues-append d d' h.1 k)

append_event-Fits :
    (window : ℕ) (actor : String) (es : List CorrelationEvent) (e : CorrelationEvent) (d : Tracked)
    → AllValues Fits d
    → AllValues Fits (append_event window actor es e d)
unfolding append_event
append_event-Fits window actor es e d h =
    let pushed = push_right max_events es e in
    AllValues-append d _ h (
      omega (
        arith,
        length-drop_stale window e.timestamp pushed,
        length-last_n max_events (es ++ e ∷ []),
      ),
      tt,
    )

length-append_event :
    (window : ℕ) (actor : String) (es : List CorrelationEvent) (e : CorrelationEvent) (d : Tracked)
    → length (append_event window actor es e d) ≡ length d + 1
unfolding append_event
length-append_event window actor es e d = length-append d _

length-remove_present :
    (k : String) (d : Tracked) (es : List CorrelationEvent)
    → Dict.get k d ≡ some es
    → length (Dict.remove k d) < length d
unfolding Dict.get Dict.remove
length-remove_present k [] es h = absurd cc
length-remove_present k ((j, w) ∷ d) es h =
    ground (arith, length-remove_present k d es, Dict.length-remove k d)

cleanup-IsBounded : (now : Datetime) (c : Correlator) → IsBounded c → IsBounded (cleanup now c)
unfolding cleanup
cleanup-IsBounded now c b =
    if_intro IsBounded (is_fresh c now) (λ _. b)
      (λ _. record {
        actors = omega (arith, length-expire_actors c.config.window_seconds now c.events, b.actors);
        deques = expire_actors-Fits c.config.window_seconds now c.events b.deques;
      })

record_event-IsBounded :
    (actor : String) (e : CorrelationEvent) (c : Correlator)
    → IsBounded c
    → IsBounded (record_event actor e c)
unfolding record_event actor_limit
record_event-IsBounded actor e c b = elim (Option-cases (Dict.get actor c.events)) [
  | inl h ↦
      let out = evict (actor_limit c.config) c.events c.last_incident c.actor_evictions in
      let room =
        length-evict (actor_limit c.config) c.events c.last_incident c.actor_evictions
          (omega arith) in
      rw (h, record_event)
        (record {
          actors =
              omega (arith, length-append_event c.config.window_seconds actor [] e out.0, room);
          deques = append_event-Fits c.config.window_seconds actor [] e out.0 (
              evict-Fits (actor_limit c.config) c.events c.last_incident c.actor_evictions
                b.deques);
        })
  | inr (es, h) ↦
      let smaller = length-remove_present actor c.events es h in
      rw (h, record_event)
        (record {
          actors = omega (
            arith,
            length-append_event c.config.window_seconds actor es e (Dict.remove actor c.events),
            smaller,
            b.actors,
          );
          deques =
              append_event-Fits c.config.window_seconds actor es e _
                (AllValues-remove Fits actor c.events b.deques);
        })
]

module _ (env : Env) (isoformat : Datetime → String) (repr : List String → String) where
  decide-IsBounded :
      (actor : String) (now : Datetime) (c : Correlator) (t : Trace)
      → IsBounded c
      → IsBounded (decide env isoformat repr actor now c t).1
  unfolding decide
  decide-IsBounded actor now c t b =
      elim (Option-cases (incident_of env isoformat repr c.config actor (events_of actor c) t)) [
        | inl h ↦ rw (h, decide) b
        | inr (alert, h) ↦
            rw (h, decide)
              (if_intro (λ (out : Option Alert × Correlator). IsBounded out.1)
                (is_on_cooldown actor now c) (λ _. b)
                (λ _. record { actors = b.actors; deques = b.deques }))
      ]

  -- Whatever alerts come, the correlator tracks no more actors than its limit and no more than 500
  -- events of each.
  pub observe-IsBounded :
      (alert : Alert) (c : Correlator) (t : Trace)
      → IsBounded c
      → IsBounded (observe env isoformat repr alert c t).1
  unfolding observe
  observe-IsBounded alert c t b =
      if_intro (λ (out : Option Alert × Correlator). IsBounded out.1)
        (is_category alert incident || eqb (actor_for_alert alert) "") (λ _. b)
        (λ _.
          decide-IsBounded _ _ _ t
            (record_event-IsBounded _ _ _ (cleanup-IsBounded (env.clock t) c b)))
