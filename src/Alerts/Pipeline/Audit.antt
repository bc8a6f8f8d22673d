-- ===== src/Alerts/Pipeline/Audit.antt =====
-- The response ledger's guarantee, through the whole alert pipeline: whatever alerts come, nothing is
-- done to the network that no committed row announces.
use sentinel_pi.Prelude.{
  ℕ, zero, suc, ◌+◌, String, ◌≡◌, ◌∙◌, sym, subst, refl, Bool, true, false, Option, none, some,
  List, [], ◌∷◌, arith, Option-cases, inl, inr, if_intro, if◌then◌else◌, string_key,
}
use sentinel_pi.Models.{Alert, Datetime}
use sentinel_pi.Network.{Address}
use sentinel_pi.World.{
  Trace, Env, Result, ok, raised, observed, sent, alert_saved, alert_save_failed,
}
use sentinel_pi.World.Audit.{audited}
use sentinel_pi.Responders.Handles.{handle-IsSound}
use sentinel_pi.Responders.Ledger.{always, mark_failed-trace, mark_succeeded-trace}
use sentinel_pi.Responders.Manager.{Manager}
use sentinel_pi.Responders.Sound.{IsSound}
use sentinel_pi.Alerts.Correlator.{observe}
use sentinel_pi.Alerts.Manager.{AlertManager, admit, enrich, save, score, notify_all, respond}
use sentinel_pi.Alerts.Pipeline.{
  Step, process_incident, correlate, dispatch, after_save, handle_with, handle_alert, process,
}

-- What has happened was announced, and the response manager, if there is one, is sound.
abbrev pub IsGuarded : Option Manager → Trace → Type 0
IsGuarded none t = audited t ≡ true
IsGuarded (some rm) t = IsSound rm t

pub IsGuarded-audited : (r : Option Manager) (t : Trace) → IsGuarded r t → audited t ≡ true
IsGuarded-audited none t g = g
IsGuarded-audited (some rm) t g = g.audit

-- Events that need no announcement keep the guard.
IsGuarded-quiet :
    (r : Option Manager) (t t' : Trace) → audited t' ≡ audited t → IsGuarded r t → IsGuarded r t'
IsGuarded-quiet none t t' e g = e ∙ g
IsGuarded-quiet (some rm) t t' e g = record {
  ledger = g.ledger;
  responders = g.responders;
  queued = g.queued;
  listed = g.listed;
  audit = e ∙ g.audit;
}

abbrev KeepsGuard : Step → Type 0
KeepsGuard step =
    (alert : Alert) (m : AlertManager) (t : Trace)
    → IsGuarded m.responders t
    → IsGuarded (step alert m t).1.responders (step alert m t).2

module _ (env : Env) where
  admit-responders :
      (alert : Alert) (m : AlertManager) (t : Trace)
      → (admit env alert m t).1.responders ≡ m.responders
  unfolding admit
  admit-responders alert m t = ground arith

  save-responders :
      (alert : Alert) (m : AlertManager) (t : Trace)
      → ((save env alert m t).1.responders ≡ m.responders)
        × (audited (save env alert m t).2 ≡ audited t)
  unfolding save audited
  save-responders alert m t = elim (Option-cases (env.save_alert_error t alert)) [
    | inl e ↦
        rw (e, save) (refl, (mark_succeeded-trace env m.health (alert_saved alert ∷ t) always).0)
    | inr (exc, e) ↦
        rw (e, save)
          (refl, (mark_failed-trace env m.health exc (alert_save_failed alert ∷ t) always).0)
  ]

  audited-score : (alert : Alert) (t : Trace) → audited (score env alert t).1 ≡ audited t
  unfolding score audited
  audited-score alert t = ground arith

  audited-observed :
      (watched : Bool) (n : String) (t : Trace)
      → audited (if watched then observed n ∷ t else t) ≡ audited t
  unfolding audited
  audited-observed true n t = refl
  audited-observed false n t = refl

  audited-whatever :
      (error : Option String) (failing working : Trace) (b : Bool)
      → audited failing ≡ b
      → audited working ≡ b
      → audited (elim error as (λ _. Trace) [ some exc ↦ failing | none ↦ working ]) ≡ b
  audited-whatever (some exc) failing working b f w = f
  audited-whatever none failing working b f w = w

  audited-notify_all :
      (watched : Bool) (alert : Alert) (ns : List String) (t : Trace)
      → audited (notify_all env watched alert ns t) ≡ audited t
  unfolding notify_all audited
  audited-notify_all watched alert [] t = refl
  audited-notify_all watched alert (n ∷ ns) t =
      let told = sent n alert ∷ t in
      let watching : Trace = if watched then observed n ∷ told else told in
      audited-whatever (env.send_error t n alert) (notify_all env watched alert ns told)
        (notify_all env watched alert ns watching) (audited t)
        (audited-notify_all watched alert ns told)
        (audited-notify_all watched alert ns watching ∙ audited-observed watched n told)

  respond-IsGuarded :
      (alert : Alert) (m : AlertManager) (t : Trace)
      → IsGuarded m.responders t
      → IsGuarded (respond env alert m t).0.responders (respond env alert m t).1
  unfolding respond
  respond-IsGuarded alert m t g = by_manager m.responders g
    where
      by_manager :
          (r : Option Manager)
          → IsGuarded r t
          → IsGuarded
              (respond env alert (record m { responders = r }) t).0.responders
              (respond env alert (record m { responders = r }) t).1
      by_manager none g = g
      by_manager (some rm) g = handle-IsSound env alert rm t g

  module _ (ip_address : String → Option Address) (isoformat : Datetime → String)
      (repr : List String → String) where
    process_incident-IsGuarded :
        (recur : Step) (error : Option String) (found : Option Alert) (m : AlertManager) (t : Trace)
        → KeepsGuard recur
        → IsGuarded m.responders t
        → let (m', t') = process_incident env ip_address isoformat repr recur error found m t in
          IsGuarded m'.responders t'
    unfolding process_incident
    process_incident-IsGuarded recur (some exc) found m t k g = g
    process_incident-IsGuarded recur none none m t k g = g
    process_incident-IsGuarded recur none (some found) m t k g = k found m t g

    correlate-IsGuarded :
        (recur : Step) (alert : Alert) (m : AlertManager) (t : Trace)
        → KeepsGuard recur
        → IsGuarded m.responders t
        → let (m', t') = correlate env ip_address isoformat repr recur alert m t in
          IsGuarded m'.responders t'
    unfolding correlate audited
    correlate-IsGuarded recur alert m t k g = elim (Option-cases m.correlator) [
      | inl e ↦ rw (e, correlate) g
      | inr (c, e) ↦
          let (found, c') = observe env isoformat repr alert c t in
          let m' : AlertManager = record m { correlator = some c' } in
          let name : String = "IncidentCorrelator" in
          rw (e, correlate)
            (if_intro (λ (out : AlertManager × Trace). IsGuarded out.0.responders out.1)
              m.has_correlator_observer
              (λ _.
                process_incident-IsGuarded recur _ found m' (observed name ∷ t) k
                  (IsGuarded-quiet m.responders t (observed name ∷ t) refl g))
              (λ _. process_incident-IsGuarded recur none found m' t k g))
    ]

    after_save-IsGuarded :
        (recur : Step) (alert : Alert) (saved : Bool × AlertManager × Trace)
        → KeepsGuard recur
        → IsGuarded saved.1.responders saved.2
        → let (_, m', t') = after_save env ip_address isoformat repr recur alert saved in
          IsGuarded m'.responders t'
    unfolding after_save dispatch
    after_save-IsGuarded recur alert (false, m, t) k g = g
    after_save-IsGuarded recur alert (true, m, t) k g =
        let (error, t') = score env alert t in
        let g' = IsGuarded-quiet m.responders t t' (audited-score alert t) g in
        elim (Option-cases error) [
          | inr (exc, e) ↦ rw (e, after_save) g'
          | inl e ↦
              let told = notify_all env m.has_observer alert m.notifiers t' in
              let (m', t'') = respond env alert m told in
              let quiet = audited-notify_all m.has_observer alert m.notifiers t' in
              rw (e, after_save)
                (correlate-IsGuarded recur alert m' t'' k
                  (respond-IsGuarded alert m told (IsGuarded-quiet m.responders t' told quiet g')))
        ]

    handle_with-IsGuarded :
        (recur : Step)
        → KeepsGuard recur
        → KeepsGuard (handle_with env ip_address isoformat repr recur)
    unfolding handle_with
    handle_with-IsGuarded recur k alert m t g =
        let enriched = enrich env ip_address alert in
        let (admitted, m') = admit env alert m t in
        let same : m'.responders ≡ m.responders = admit-responders alert m t in
        let (kept, quiet) = save-responders enriched m' t in
        let admitted_guard : IsGuarded m'.responders t = subst (λ r. IsGuarded r t) (sym same) g in
        let out = save env enriched m' t in
        let saved_guard : IsGuarded out.1.responders out.2 =
          subst (λ r. IsGuarded r out.2) (sym kept)
            (IsGuarded-quiet m'.responders t out.2 quiet admitted_guard) in
        if_intro (λ (out : Result Bool × AlertManager × Trace). IsGuarded out.1.responders out.2)
          admitted (λ _. after_save-IsGuarded recur enriched out k saved_guard)
          (λ _. admitted_guard)

    handle_alert-IsGuarded :
        (fuel : ℕ) → KeepsGuard (handle_alert env ip_address isoformat repr fuel)
    unfolding handle_alert
    handle_alert-IsGuarded zero alert m t g = g
    handle_alert-IsGuarded (suc fuel) alert m t g =
        handle_with-IsGuarded (handle_alert env ip_address isoformat repr fuel)
          (handle_alert-IsGuarded fuel) alert m t g

    rest-IsGuarded :
        (alerts : List Alert) (fired : ℕ) (out : Result Bool × AlertManager × Trace)
        → ((n : ℕ) (m : AlertManager) (t : Trace)
            → IsGuarded m.responders t
            → let (_, m', t') = process env ip_address isoformat repr alerts n m t in
              IsGuarded m'.responders t')
        → IsGuarded out.1.responders out.2
        → let (_, m', t') : Result ℕ × AlertManager × Trace =
            elim out.0 as (λ _. Result ℕ × AlertManager × Trace) [
              | raised exc ↦ (raised exc, out.1, out.2)
              | ok true ↦ process env ip_address isoformat repr alerts (fired + 1) out.1 out.2
              | ok false ↦ process env ip_address isoformat repr alerts fired out.1 out.2
            ] in
          IsGuarded m'.responders t'
    rest-IsGuarded alerts fired (raised exc, m, t) k g = g
    rest-IsGuarded alerts fired (ok true, m, t) k g = k (fired + 1) m t g
    rest-IsGuarded alerts fired (ok false, m, t) k g = k fired m t g

    process-IsGuarded :
        (alerts : List Alert) (fired : ℕ) (m : AlertManager) (t : Trace)
        → IsGuarded m.responders t
        → let (_, m', t') = process env ip_address isoformat repr alerts fired m t in
          IsGuarded m'.responders t'
    unfolding process
    process-IsGuarded [] fired m t g = g
    process-IsGuarded (alert ∷ alerts) fired m t g =
        rest-IsGuarded alerts fired (handle_alert env ip_address isoformat repr 2 alert m t)
          (λ n m' t' h. process-IsGuarded alerts n m' t' h) (handle_alert-IsGuarded 2 alert m t g)

    -- Processing a batch of alerts from a sound response manager, or from none, leaves an audited
    -- trace: whatever fails or raises on the way, every command and every sinkholed domain was
    -- announced by a row that had been committed before it.
    pub process-audited :
        (alerts : List Alert) (fired : ℕ) (m : AlertManager) (t : Trace)
        → IsGuarded m.responders t
        → audited (process env ip_address isoformat repr alerts fired m t).2 ≡ true
    process-audited alerts fired m t g =
        IsGuarded-audited _ _ (process-IsGuarded alerts fired m t g)
