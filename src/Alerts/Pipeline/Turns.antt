-- ===== src/Alerts/Pipeline/Turns.antt =====
-- Two turns of the pipeline are enough: an incident raises no other incident, so the fuel never
-- runs out.
use sentinel_pi.Prelude.{
  ℕ, suc, String, ◌≡◌, ◌∙◌, ap, refl, Bool, true, false, ◌||◌, Option, none, some, List, ◌∷◌, eqb,
  string_key, arith, Option-cases, inl, inr, if_intro,
}
use sentinel_pi.Models.{Alert, Datetime, incident, Category-discrete}
use sentinel_pi.Network.{Address}
use sentinel_pi.World.{Trace, Env, Result, observed}
use sentinel_pi.Alerts.Correlator.{Correlator, observe, actor_for_alert, is_category}
use sentinel_pi.Alerts.Correlator.Incidents.{observe_lem}
use sentinel_pi.Alerts.Manager.{AlertManager, admit, enrich, save, score, notify_all, respond}
use sentinel_pi.Alerts.Pipeline.{
  Step, process_incident, correlate, dispatch, after_save, handle_with, handle_alert,
}

module _ (env : Env) (ip_address : String → Option Address) (isoformat : Datetime → String)
    (repr : List String → String) where
  -- The correlator ignores incidents.
  observe-incident :
      (alert : Alert) (c : Correlator) (t : Trace)
      → alert.category ≡ incident
      → (observe env isoformat repr alert c t).0 ≡ none
  unfolding observe Category-discrete
  observe-incident alert c t e =
      let skipped : (is_category alert incident || eqb (actor_for_alert alert) "") ≡ true =
        rw e refl in
      if_intro (λ (out : Option Alert × Correlator). out.0 ≡ none)
        (is_category alert incident || eqb (actor_for_alert alert) "") (λ _. refl)
        (λ off. absurd (ground (arith, skipped, off)))

  enrich-category : (alert : Alert) → (enrich env ip_address alert).category ≡ alert.category
  unfolding enrich
  enrich-category alert = ground arith

  -- The two steps do the same with an incident that the alert may raise.
  abbrev AgreeAfter : Step → Step → Alert → Type 0
  AgreeAfter r r' alert =
      (c : Correlator) (i : Alert) (t : Trace)
      → (observe env isoformat repr alert c t).0 ≡ some i
      → (m' : AlertManager) (t' : Trace) → r i m' t' ≡ r' i m' t'

  process_incident-agrees :
      (r r' : Step) (error : Option String) (found : Option Alert) (m : AlertManager) (t : Trace)
      → ((i : Alert) → found ≡ some i → r i m t ≡ r' i m t)
      → process_incident env ip_address isoformat repr r error found m t
        ≡ process_incident env ip_address isoformat repr r' error found m t
  unfolding process_incident
  process_incident-agrees r r' (some exc) found m t h = refl
  process_incident-agrees r r' none none m t h = refl
  process_incident-agrees r r' none (some i) m t h =
      ap (λ (out : Result Bool × AlertManager × Trace). (out.1, out.2)) (h i refl)

  correlate-agrees :
      (r r' : Step) (alert : Alert) (m : AlertManager) (t : Trace)
      → AgreeAfter r r' alert
      → correlate env ip_address isoformat repr r alert m t
        ≡ correlate env ip_address isoformat repr r' alert m t
  unfolding correlate
  correlate-agrees r r' alert m t h = elim (Option-cases m.correlator) [
    | inl e ↦ rw (e, correlate) refl
    | inr (c, e) ↦
        let (i, c') = observe env isoformat repr alert c t in
        let m' : AlertManager = record m { correlator = some c' } in
        let watched =
          process_incident-agrees r r' (env.activity_error t "IncidentCorrelator") i m'
            (observed "IncidentCorrelator" ∷ t) (λ j q. h c j t q _ _) in
        let unwatched = process_incident-agrees r r' none i m' t (λ j q. h c j t q _ _) in
        rw (e, correlate, watched, unwatched) refl
  ]

  after_save-agrees :
      (r r' : Step) (alert : Alert) (saved : Bool × AlertManager × Trace)
      → AgreeAfter r r' alert
      → after_save env ip_address isoformat repr r alert saved
        ≡ after_save env ip_address isoformat repr r' alert saved
  unfolding after_save dispatch
  after_save-agrees r r' alert (false, m, t) h = refl
  after_save-agrees r r' alert (true, m, t) h =
      let (error, t') = score env alert t in
      elim (Option-cases error) [
        | inr (exc, e) ↦ rw (e, after_save) refl
        | inl e ↦
            let told = notify_all env m.has_observer alert m.notifiers t' in
            let (m', t'') = respond env alert m told in
            rw (e, after_save, correlate-agrees r r' alert m' t'' h) refl
      ]

  handle_with-agrees :
      (r r' : Step) (alert : Alert) (m : AlertManager) (t : Trace)
      → AgreeAfter r r' (enrich env ip_address alert)
      → handle_with env ip_address isoformat repr r alert m t
        ≡ handle_with env ip_address isoformat repr r' alert m t
  unfolding handle_with
  handle_with-agrees r r' alert m t h =
      let enriched = enrich env ip_address alert in
      rw (after_save-agrees r r' enriched (save env enriched (admit env alert m t).1 t) h) refl

  -- What is done with an incident does not depend on the fuel that is left.
  incident-agrees :
      (r r' : Step) (alert : Alert) (m : AlertManager) (t : Trace)
      → alert.category ≡ incident
      → handle_with env ip_address isoformat repr r alert m t
        ≡ handle_with env ip_address isoformat repr r' alert m t
  incident-agrees r r' alert m t e = handle_with-agrees r r' alert m t (λ c i t q.
      let silent = observe-incident (enrich env ip_address alert) c t (enrich-category alert ∙ e) in
      absurd (ground (arith, silent, q)))

  raised-category :
      (alert i : Alert) (c : Correlator) (t : Trace)
      → (observe env isoformat repr alert c t).0 ≡ some i
      → i.category ≡ incident
  raised-category alert i c t q = (observe_lem env isoformat repr alert i c t q).0

  -- With two turns or more, handling an alert does the same: the fuel never runs out.
  pub handle_alert-enough :
      (fuel : ℕ) (alert : Alert) (m : AlertManager) (t : Trace)
      → handle_alert env ip_address isoformat repr (suc (suc fuel)) alert m t
        ≡ handle_alert env ip_address isoformat repr 2 alert m t
  unfolding handle_alert
  handle_alert-enough fuel alert m t =
      handle_with-agrees (handle_alert env ip_address isoformat repr (suc fuel))
        (handle_alert env ip_address isoformat repr 1) alert m t
        (λ c i t q m' t'.
          incident-agrees (handle_alert env ip_address isoformat repr fuel)
            (handle_alert env ip_address isoformat repr 0) i m' t' (raised-category _ i c t q))
