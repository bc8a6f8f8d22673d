-- ===== src/Alerts/Pipeline/Accounts.antt =====
-- The counters of the alert manager account for every alert, incidents included.
use sentinel_pi.Prelude.{
  ℕ, zero, suc, ◌+◌, String, ◌≡◌, Bool, true, false, ◌&&◌, not, Option, none, some, List, [], ◌∷◌,
  arith, Option-cases, inl, inr, if_intro, if◌then◌else◌,
}
use sentinel_pi.Models.{Alert, Datetime}
use sentinel_pi.Network.{Address}
use sentinel_pi.World.{Trace, Env, Result, ok, raised}
use sentinel_pi.Alerts.Correlator.{observe}
use sentinel_pi.Alerts.Manager.{
  AlertManager, is_quiet_hours, is_urgent, is_duplicate, admit, enrich, save, score, notify_all,
  respond,
}
use sentinel_pi.Alerts.Pipeline.{
  Step, process_incident, correlate, dispatch, after_save, handle_with, handle_alert, process,
}

-- Every alert that was processed was suppressed, fired, or could not be saved.
abbrev pub IsBalanced : AlertManager → Type 0
IsBalanced m = m.total_processed ≡ m.total_suppressed + m.total_fired + m.total_persistence_failed

-- The counts, one alert still being on its way.
abbrev IsAhead : AlertManager → Type 0
IsAhead m = m.total_processed ≡ m.total_suppressed + m.total_fired + m.total_persistence_failed + 1

abbrev KeepsBalance : Step → Type 0
KeepsBalance step =
    (alert : Alert) (m : AlertManager) (t : Trace) → IsBalanced m → IsBalanced (step alert m t).1

-- What the locked section leaves.
abbrev IsCounted : Bool × AlertManager → Type 0
IsCounted (true, m) = IsAhead m
IsCounted (false, m) = IsBalanced m

module _ (env : Env) where
  admit-IsCounted :
      (alert : Alert) (m : AlertManager) (t : Trace)
      → IsBalanced m
      → IsCounted (admit env alert m t)
  unfolding admit
  admit-IsCounted alert m t b =
      if_intro IsCounted
        (is_quiet_hours m.quiet_hours (env.hour t) && not (is_urgent alert.severity))
        (λ _. omega (arith, b))
        (λ _.
          if_intro IsCounted (is_duplicate env alert m.recent_dedup t).0 (λ _. omega (arith, b))
            (λ _. omega (arith, b)))

  save-IsBalanced :
      (alert : Alert) (m : AlertManager) (t : Trace) → IsAhead m → IsBalanced (save env alert m t).1
  unfolding save
  save-IsBalanced alert m t a = elim (Option-cases (env.save_alert_error t alert)) [
    | inl e ↦ rw (e, save) (omega (arith, a))
    | inr (exc, e) ↦ rw (e, save) (omega (arith, a))
  ]

  respond-IsBalanced :
      (alert : Alert) (m : AlertManager) (t : Trace)
      → IsBalanced m
      → IsBalanced (respond env alert m t).0
  unfolding respond
  respond-IsBalanced alert m t b = elim (Option-cases m.responders) [
    | inl e ↦ rw (e, respond) b
    | inr (rm, e) ↦ rw (e, respond) b
  ]

  module _ (ip_address : String → Option Address) (isoformat : Datetime → String)
      (repr : List String → String) where
    process_incident-IsBalanced :
        (recur : Step) (error : Option String) (found : Option Alert) (m : AlertManager) (t : Trace)
        → KeepsBalance recur
        → IsBalanced m
        → IsBalanced (process_incident env ip_address isoformat repr recur error found m t).0
    unfolding process_incident
    process_incident-IsBalanced recur (some exc) found m t k b = b
    process_incident-IsBalanced recur none none m t k b = b
    process_incident-IsBalanced recur none (some incident) m t k b = k incident m t b

    correlate-IsBalanced :
        (recur : Step) (alert : Alert) (m : AlertManager) (t : Trace)
        → KeepsBalance recur
        → IsBalanced m
        → IsBalanced (correlate env ip_address isoformat repr recur alert m t).0
    unfolding correlate
    correlate-IsBalanced recur alert m t k b = elim (Option-cases m.correlator) [
      | inl e ↦ rw (e, correlate) b
      | inr (c, e) ↦
          let (incident, c') = observe env isoformat repr alert c t in
          let m' : AlertManager = record m { correlator = some c' } in
          rw (e, correlate)
            (if_intro (λ (out : AlertManager × Trace). IsBalanced out.0) m.has_correlator_observer
              (λ _. process_incident-IsBalanced recur _ incident m' _ k b)
              (λ _. process_incident-IsBalanced recur none incident m' t k b))
    ]

    after_save-IsBalanced :
        (recur : Step) (alert : Alert) (saved : Bool × AlertManager × Trace)
        → KeepsBalance recur
        → IsBalanced saved.1
        → IsBalanced (after_save env ip_address isoformat repr recur alert saved).1
    unfolding after_save dispatch
    after_save-IsBalanced recur alert (false, m, t) k b = b
    after_save-IsBalanced recur alert (true, m, t) k b =
        let (error, t') = score env alert t in
        elim (Option-cases error) [
          | inr (exc, e) ↦ rw (e, after_save) b
          | inl e ↦
              let told = notify_all env m.has_observer alert m.notifiers t' in
              let (m', t'') = respond env alert m told in
              rw (e, after_save)
                (correlate-IsBalanced recur alert m' t'' k (respond-IsBalanced alert m told b))
        ]

    handle_with-IsBalanced :
        (recur : Step)
        → KeepsBalance recur
        → KeepsBalance (handle_with env ip_address isoformat repr recur)
    unfolding handle_with
    handle_with-IsBalanced recur k alert m t b =
        let enriched = enrich env ip_address alert in
        admitted (admit env alert m t) (admit-IsCounted alert m t b)
      where
        admitted :
            (out : Bool × AlertManager)
            → IsCounted out
            → IsBalanced
                (if out.0
                  then after_save env ip_address isoformat repr recur
                      (enrich env ip_address alert)
                      (save env (enrich env ip_address alert) out.1 t)
                  else (ok false, out.1, t)).1
        admitted (false, m') c = c
        admitted (true, m') c =
            after_save-IsBalanced recur _ _ k (save-IsBalanced (enrich env ip_address alert) m' t c)

    handle_alert-IsBalanced :
        (fuel : ℕ) (alert : Alert) (m : AlertManager) (t : Trace)
        → IsBalanced m
        → IsBalanced (handle_alert env ip_address isoformat repr fuel alert m t).1
    unfolding handle_alert
    handle_alert-IsBalanced zero alert m t b = b
    handle_alert-IsBalanced (suc fuel) alert m t b =
        handle_with-IsBalanced (handle_alert env ip_address isoformat repr fuel)
          (handle_alert-IsBalanced fuel) alert m t b

    -- The rest of a batch, after one alert.
    rest-IsBalanced :
        (alerts : List Alert) (fired : ℕ) (out : Result Bool × AlertManager × Trace)
        → ((n : ℕ) (m : AlertManager) (t : Trace)
            → IsBalanced m
            → IsBalanced (process env ip_address isoformat repr alerts n m t).1)
        → IsBalanced out.1
        → IsBalanced
            (elim out.0 as (λ _. Result ℕ × AlertManager × Trace) [
              | raised exc ↦ (raised exc, out.1, out.2)
              | ok true ↦ process env ip_address isoformat repr alerts (fired + 1) out.1 out.2
              | ok false ↦ process env ip_address isoformat repr alerts fired out.1 out.2
            ]).1
    rest-IsBalanced alerts fired (raised exc, m, t) k b = b
    rest-IsBalanced alerts fired (ok true, m, t) k b = k (fired + 1) m t b
    rest-IsBalanced alerts fired (ok false, m, t) k b = k fired m t b

    -- After a batch of alerts, whatever failed or raised in it, and after every incident that it led
    -- to, the alerts processed are those suppressed, those fired and those that could not be saved.
    pub process-IsBalanced :
        (alerts : List Alert) (fired : ℕ) (m : AlertManager) (t : Trace)
        → IsBalanced m
        → IsBalanced (process env ip_address isoformat repr alerts fired m t).1
    unfolding process
    process-IsBalanced [] fired m t b = b
    process-IsBalanced (alert ∷ alerts) fired m t b =
        rest-IsBalanced alerts fired (handle_alert env ip_address isoformat repr 2 alert m t)
          (λ n m' t' c. process-IsBalanced alerts n m' t' c) (handle_alert-IsBalanced 2 alert m t b)
