-- ===== src/Alerts/Manager.antt =====
-- alerts/manager.py: the funnel of all alerts, from the duplicate test to the response. Locks are
-- not modelled: the locked section is one step.
pub mod Rules
pub mod Dedup
use Prim.Native.String.{◌++◌}
use sentinel_pi.Prelude.{
  ℕ, zero, suc, ◌+◌, min, max, String, Bool, true, false, ◌&&◌, ◌||◌, not, Option, none, some, List,
  [], ◌∷◌, map, length, ltb, leb, ◌==◌, string_key, eqb, elem, if◌then◌else◌,
}
use sentinel_pi.Prelude.Dict
use sentinel_pi.Prelude.Dict.{Dict}
use sentinel_pi.Models.{
  Alert, Datetime, seconds, Severity, info, low, medium, high, critical, AlertCategory, arp_anomaly,
  new_device, port_scan, beacon, connection_anomaly, dns_anomaly, lateral_movement, auth_anomaly,
  traffic_spike, process_anomaly, threat_intel, honeypot, incident, system, categories, Enrichment,
}
use sentinel_pi.Network.{Address, is_private_ip, is_valid_ip}
use sentinel_pi.Health.{mark_failed, mark_succeeded}
use sentinel_pi.Responders.Manager.{Manager, handle}
use sentinel_pi.World.{
  HealthState, observed, alert_saved, alert_save_failed, scored, score_recorded, sent, Trace, Env,
  Result, ok, raised,
}
use sentinel_pi.Alerts.Correlator.{Correlator, or_else}
use sentinel_pi.Text.Show.{show}
pub use Rules.*
unfoldable pub use Rules.{
  category_cooldown, largest, max_cooldown, is_urgent, alert_cooldown, is_quiet_hours,
  seen_recently, prune_dedup, suspicion_delta, enrichment_suffix, no_asn, release,
}

module _ (env : Env) where
  -- `_is_duplicate`, with the cache that it leaves.
  unfoldable pub is_duplicate : Alert → Dict String Datetime → Trace → Bool × Dict String Datetime
  is_duplicate alert d t =
      let cooldown = alert_cooldown alert.severity alert.category in
      let slow : Bool × Dict String Datetime =
        elim (env.recent_dedup_keys t alert.timestamp cooldown) [
          | raised exc ↦ (false, d)
          | ok keys ↦
              if elem alert.dedup_key keys
              then (true, Dict.put alert.dedup_key alert.timestamp d)
              else (false, d)
        ] in
      if eqb alert.dedup_key ""
      then (false, d)
      else if seen_recently alert.dedup_key alert.timestamp cooldown d
      then (true, d)
      else slow

  -- The locked section of `_handle_alert`: whether the alert goes on.
  unfoldable pub admit : Alert → AlertManager → Trace → Bool × AlertManager
  unfolding is_duplicate
  admit alert m t =
      let counted = record m { total_processed = m.total_processed + 1 } in
      let (duplicate, d) = is_duplicate alert m.recent_dedup t in
      if is_quiet_hours m.quiet_hours (env.hour t) && not (is_urgent alert.severity)
      then (false, record counted { total_suppressed = m.total_suppressed + 1 })
      else if duplicate
      then (false, record counted { total_suppressed = m.total_suppressed + 1; recent_dedup = d })
      else (
        true,
        record counted {
          recent_dedup = prune_dedup (env.clock t) (Dict.put alert.dedup_key alert.timestamp d);
        },
      )

  -- What the look-ups say of an address, if they say anything.
  unfoldable pub look_up : String → Option Enrichment
  unfolding no_asn
  look_up ip =
      let country = env.country ip in
      let (asn, org) = env.asn ip in
      if eqb country "" && no_asn asn
      then none
      else some (record {
        ip = ip;
        country = country;
        country_name = if eqb country "" then "" else or_else (env.country_name ip) country;
        asn = if no_asn asn then none else asn;
        asn_org = if no_asn asn then "" else org;
      })

  -- The first of the addresses that is public and known.
  unfoldable pub first_known : (String → Option Address) → List String → Option Enrichment
  first_known ip_address [] = none
  first_known ip_address (ip ∷ ips) =
      let rest = first_known ip_address ips in
      if eqb ip "" || not (is_valid_ip ip_address ip) || is_private_ip ip_address ip
      then rest
      else elim (look_up ip) [ none ↦ rest | some e ↦ some e ]

  -- `_enrich_alert`
  unfoldable pub enrich : (String → Option Address) → Alert → Alert
  enrich ip_address alert = elim alert.extra.enrichment [
    | some e ↦ alert
    | none ↦ elim (first_known ip_address (alert.related_host ∷ alert.affected_host ∷ [])) [
      | none ↦ alert
      | some e ↦ record alert {
        extra = record alert.extra { enrichment = some e };
        description = alert.description ++ enrichment_suffix e;
      }
    ]
  ]

  -- Step 4: whether the alert is in the database.
  unfoldable pub save : Alert → AlertManager → Trace → Bool × AlertManager × Trace
  unfolding release
  save alert m t = elim (env.save_alert_error t alert) [
    | some exc ↦
        let (h, t') = mark_failed env m.health exc (alert_save_failed alert ∷ t) in
        (
          false,
          record m {
            health = h;
            recent_dedup = release alert m.recent_dedup;
            total_persistence_failed = m.total_persistence_failed + 1;
          },
          t',
        )
    | none ↦
        let (h, t') = mark_succeeded env m.health (alert_saved alert ∷ t) in
        (true, record m { health = h; total_fired = m.total_fired + 1 }, t')
  ]

  -- Step 5: the device's suspicion. Only an exception of the device tracker leaves it.
  unfoldable pub score : Alert → Trace → Option String × Trace
  unfolding suspicion_delta
  score alert t =
      let delta = suspicion_delta alert.severity in
      let t' = scored alert.affected_host delta ∷ t in
      let outcome : Option String × Trace = elim (env.mark_suspicious t alert.affected_host delta) [
        | raised exc ↦ (some exc, t')
        | ok none ↦ (none, t')
        | ok (some total) ↦ (none, score_recorded alert.affected_host total alert.timestamp ∷ t')
      ] in
      if eqb alert.affected_host "" then (none, t) else outcome

  -- Step 6: every notifier, whatever the others do.
  unfoldable pub notify_all : Bool → Alert → List String → Trace → Trace
  notify_all watched alert [] t = t
  notify_all watched alert (n ∷ ns) t =
      let told = sent n alert ∷ t in
      elim (env.send_error t n alert) [
        | some exc ↦ notify_all watched alert ns told
        | none ↦ notify_all watched alert ns (if watched then observed n ∷ told else told)
      ]

  -- Step 7
  unfoldable pub respond : Alert → AlertManager → Trace → AlertManager × Trace
  respond alert m t = elim m.responders [
    | none ↦ (m, t)
    | some rm ↦ let (_, rm', t') = handle env alert rm t in (record m { responders = some rm' }, t')
  ]
