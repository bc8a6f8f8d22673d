-- ===== src/Alerts/Pipeline.antt =====
-- alerts/manager.py: `_handle_alert` from end to end, `process`, and what the operator does with an
-- alert. An incident that the correlator raises goes through the same pipeline; the fuel counts
-- these turns, and two are enough, since an incident raises no other.
pub mod Accounts
pub mod Audit
pub mod Turns
pub mod Outcomes
pub mod Once
use sentinel_pi.Prelude.{
  ℕ, zero, suc, ◌+◌, ◌*◌, String, ◌≡◌, Bool, true, false, Option, none, some, List, [], ◌∷◌,
  string_key, if◌then◌else◌,
}
use sentinel_pi.Prelude.Dict
use sentinel_pi.Models.{Alert, Datetime, seconds, acknowledged, muted}
use sentinel_pi.Network.{Address}
use sentinel_pi.World.{observed, status_updated, Trace, Env, Result, ok, raised}
use sentinel_pi.Alerts.Correlator.{Correlator, observe}
use sentinel_pi.Alerts.Manager.{AlertManager, admit, enrich, save, score, notify_all, respond}

-- `_handle_alert`: whether the alert was dispatched, or the exception that leaves it.
abbrev pub Step : Type 0
Step = Alert → AlertManager → Trace → Result Bool × AlertManager × Trace

module _ (env : Env) where
  -- `mute_alert` mutes for a week what has the alert's key.
  unfoldable pub mute_alert : String → AlertManager → Trace → Bool × AlertManager × Trace
  mute_alert alert_id m t =
      let t' = status_updated alert_id muted ∷ t in
      elim (env.status_error t alert_id muted) [
        | some exc ↦ (false, m, t)
        | none ↦ elim (env.get_alert t' alert_id) [
          | raised exc ↦ (false, m, t')
          | ok none ↦ (true, m, t')
          | ok (some alert) ↦ (
            true,
            record m {
              recent_dedup =
                  Dict.put alert.dedup_key (env.clock t' + seconds (7 * 86400)) m.recent_dedup;
            },
            t',
          )
        ]
      ]

  unfoldable pub acknowledge_alert : String → Trace → Bool × Trace
  acknowledge_alert alert_id t = elim (env.status_error t alert_id acknowledged) [
    | some exc ↦ (false, t)
    | none ↦ (true, status_updated alert_id acknowledged ∷ t)
  ]

  module _ (ip_address : String → Option Address) (isoformat : Datetime → String)
      (repr : List String → String) where
    -- After the activity callback, which raised or not, `process_one` on the incident, if there is
    -- one. An exception of either ends the step and nothing more.
    unfoldable pub process_incident :
        Step → Option String → Option Alert → AlertManager → Trace → AlertManager × Trace
    process_incident recur (some exc) incident m t = (m, t)
    process_incident recur none none m t = (m, t)
    process_incident recur none (some incident) m t =
        let (_, m', t') = recur incident m t in (m', t')

    -- Step 8
    unfoldable pub correlate : Step → Alert → AlertManager → Trace → AlertManager × Trace
    unfolding process_incident
    correlate recur alert m t = elim m.correlator [
      | none ↦ (m, t)
      | some c ↦
          let (incident, c') = observe env isoformat repr alert c t in
          let m' = record m { correlator = some c' } in
          if m.has_correlator_observer
          then process_incident recur (env.activity_error t "IncidentCorrelator") incident m'
              (observed "IncidentCorrelator" ∷ t)
          else process_incident recur none incident m' t
    ]

    -- Steps 6 to 8, for an alert that is in the database and in its device's score.
    unfoldable pub dispatch : Step → Alert → AlertManager → Trace → AlertManager × Trace
    unfolding correlate
    dispatch recur alert m t =
        let (m', t') = respond env alert m (notify_all env m.has_observer alert m.notifiers t) in
        correlate recur alert m' t'

    -- Steps 5 to 8, after the attempt to save the alert.
    unfoldable pub after_save :
        Step → Alert → Bool × AlertManager × Trace → Result Bool × AlertManager × Trace
    unfolding dispatch
    after_save recur alert (false, m, t) = (ok false, m, t)
    after_save recur alert (true, m, t) =
        let (error, t') = score env alert t in
        elim error [
          | some exc ↦ (raised exc, m, t')
          | none ↦ let (m', t'') = dispatch recur alert m t' in (ok true, m', t'')
        ]

    -- `_handle_alert`, with the step that an incident goes through.
    unfoldable pub handle_with : Step → Step
    unfolding after_save
    handle_with recur alert m t =
        let (admitted, m') = admit env alert m t in
        let enriched = enrich env ip_address alert in
        if admitted then after_save recur enriched (save env enriched m' t) else (ok false, m', t)

    unfoldable pub handle_alert : ℕ → Step
    unfolding handle_with
    handle_alert zero alert m t = (ok false, m, t)
    handle_alert (suc fuel) alert m t = handle_with (handle_alert fuel) alert m t

    -- `process`: how many alerts were dispatched, or the exception that ends the batch.
    unfoldable pub process : List Alert → ℕ → AlertManager → Trace → Result ℕ × AlertManager × Trace
    process [] fired m t = (ok fired, m, t)
    process (alert ∷ alerts) fired m t =
        let (outcome, m', t') = handle_alert 2 alert m t in
        elim outcome [
          | raised exc ↦ (raised exc, m', t')
          | ok true ↦ process alerts (fired + 1) m' t'
          | ok false ↦ process alerts fired m' t'
        ]
