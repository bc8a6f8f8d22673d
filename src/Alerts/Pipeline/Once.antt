-- ===== src/Alerts/Pipeline/Once.antt =====
-- Once per cooldown: what was admitted keeps its repetitions out.
use sentinel_pi.Prelude.{
  ◌+◌, ◌≤◌, ◌<◌, ◌≡◌, ◌≢◌, ◌∙◌, ap, refl, Bool, true, false, ◌&&◌, not, some, string_key, eqb_ne,
  arith, if_intro,
}
use sentinel_pi.Prelude.Dict
use sentinel_pi.Prelude.Dict.{IsUnique, put-IsUnique}
use sentinel_pi.Prelude.Dict.{Dict, get-put_self}
use sentinel_pi.Models.{Alert, seconds}
use sentinel_pi.World.{Trace, Env}
use sentinel_pi.Alerts.Manager.{
  AlertManager, alert_cooldown, is_quiet_hours, is_urgent, seen_recently, is_duplicate, admit,
}
use sentinel_pi.Alerts.Manager.Dedup.{seen_recently-prune_dedup}
use sentinel_pi.Alerts.Pipeline.Outcomes.{admit-reserved}

module _ (env : Env) where
  seen-refused :
      (b : Alert) (m : AlertManager) (t : Trace)
      → b.dedup_key ≢ ""
      → seen_recently b.dedup_key b.timestamp (alert_cooldown b.severity b.category) m.recent_dedup
        ≡ true
      → (admit env b m t).0 ≡ false
  unfolding admit is_duplicate
  seen-refused b m t named seen =
      if_intro (λ (out : Bool × AlertManager). out.0 ≡ false)
        (is_quiet_hours m.quiet_hours (env.hour t) && not (is_urgent b.severity)) (λ _. refl)
        (λ _. rw (eqb_ne b.dedup_key "" named, seen) refl)

  -- After an alert is admitted, an alert with the same key is not, as long as its own cooldown runs
  -- since the first one and its time is not before the moment of the first admission.
  pub admit_once :
      (a b : Alert) (m : AlertManager) (t t' : Trace)
      → IsUnique m.recent_dedup
      → (admit env a m t).0 ≡ true
      → b.dedup_key ≡ a.dedup_key
      → b.dedup_key ≢ ""
      → env.clock t ≤ b.timestamp
      → b.timestamp < a.timestamp + seconds (alert_cooldown b.severity b.category)
      → (admit env b (admit env a m t).1 t').0 ≡ false
  unfolding seen_recently
  admit_once a b m t t' unique admitted same named later soon =
      let reserved = Dict.put a.dedup_key a.timestamp m.recent_dedup in
      let cooldown = alert_cooldown b.severity b.category in
      let found : Dict.get b.dedup_key reserved ≡ some a.timestamp =
        ap (λ k. Dict.get k reserved) same ∙ get-put_self a.dedup_key a.timestamp m.recent_dedup in
      let seen : seen_recently b.dedup_key b.timestamp cooldown reserved ≡ true =
        rw (found, seen_recently) (ground (arith, soon)) in
      let pruned =
        seen_recently-prune_dedup b.dedup_key (env.clock t) b.timestamp b.severity b.category
          reserved (put-IsUnique a.dedup_key a.timestamp m.recent_dedup unique) later in
      let cache = ap (λ (m : AlertManager). m.recent_dedup) (admit-reserved env a m t admitted) in
      seen-refused b (admit env a m t).1 t' named
        (ap (seen_recently b.dedup_key b.timestamp cooldown) cache ∙ pruned ∙ seen)
