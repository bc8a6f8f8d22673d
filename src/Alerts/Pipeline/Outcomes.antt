-- ===== src/Alerts/Pipeline/Outcomes.antt =====
-- How one alert fares in the pipeline: an alert that cannot be saved is left retryable, and a
-- notifier that fails does not keep an alert from the others.
use mathlib.Core.List.{append_assoc, append-nil}
use sentinel_pi.Prelude.{
  ◌+◌, String, ◌≡◌, ◌∙◌, sym, ap, refl, Bool, true, false, ◌&&◌, not, Option, none, some, List, [],
  ◌∷◌, ◌++◌, map, string_key, arith, if_intro, if◌then◌else◌,
}
use sentinel_pi.Prelude.Dict
use sentinel_pi.Prelude.Dict.{Dict}
use sentinel_pi.Models.{Alert, Datetime}
use sentinel_pi.World.{sent, observed, Trace, Env}
use sentinel_pi.Alerts.Manager.{
  AlertManager, is_quiet_hours, is_urgent, is_duplicate, prune_dedup, admit, notify_all,
}

-- What the notifiers were sent, the oldest first: the notifier and the alert's id.
unfoldable pub recipients : Trace → List (String × String)
recipients [] = []
recipients (sent n alert ∷ t) = recipients t ++ (n, alert.alert_id) ∷ []
recipients (_ ∷ t) = recipients t

module _ (env : Env) where
  recipients-observed :
      (watched : Bool) (n : String) (t : Trace)
      → recipients (if watched then observed n ∷ t else t) ≡ recipients t
  unfolding recipients
  recipients-observed true n t = refl
  recipients-observed false n t = refl

  whatever :
      (error : Option String) (failing working : Trace) (all : List (String × String))
      → recipients failing ≡ all
      → recipients working ≡ all
      → recipients (elim error as (λ _. Trace) [ some exc ↦ failing | none ↦ working ]) ≡ all
  whatever (some exc) failing working all f w = f
  whatever none failing working all f w = w

  -- Every notifier is sent the alert, in order, whether or not others fail.
  recipients-notify_all :
      (watched : Bool) (alert : Alert) (ns : List String) (t : Trace)
      → recipients (notify_all env watched alert ns t)
        ≡ recipients t ++ map (λ n. (n, alert.alert_id)) ns
  unfolding recipients notify_all
  recipients-notify_all watched alert [] t = sym (append-nil (recipients t))
  recipients-notify_all watched alert (n ∷ ns) t =
      let told = sent n alert ∷ t in
      let others = map (λ n. (n, alert.alert_id)) ns in
      let shift : recipients told ++ others ≡ recipients t ++ (n, alert.alert_id) ∷ others =
        append_assoc (recipients t) ((n, alert.alert_id) ∷ []) others in
      let watching : Trace = if watched then observed n ∷ told else told in
      let calm : recipients watching ++ others ≡ recipients told ++ others =
        ap (λ r. r ++ others) (recipients-observed watched n told) in
      let rest = map (λ n. (n, alert.alert_id)) (n ∷ ns) in
      whatever (env.send_error t n alert) (notify_all env watched alert ns told)
        (notify_all env watched alert ns watching) (recipients t ++ rest)
        (recipients-notify_all watched alert ns told ∙ shift)
        (recipients-notify_all watched alert ns watching ∙ calm ∙ shift)

  -- An alert that is no duplicate leaves the cache as it was.
  is_duplicate-fresh :
      (alert : Alert) (d : Dict String Datetime) (t : Trace)
      → (is_duplicate env alert d t).0 ≡ false
      → (is_duplicate env alert d t).1 ≡ d
  unfolding is_duplicate
  is_duplicate-fresh alert d t h = ground arith

  pub admit-reserved :
      (alert : Alert) (m : AlertManager) (t : Trace)
      → (admit env alert m t).0 ≡ true
      → (admit env alert m t).1 ≡ record m {
        total_processed = m.total_processed + 1;
        recent_dedup =
            prune_dedup (env.clock t) (Dict.put alert.dedup_key alert.timestamp m.recent_dedup);
      }
  unfolding admit
  admit-reserved alert m t h =
      let counted : AlertManager = record m { total_processed = m.total_processed + 1 } in
      let reserved : AlertManager = record counted {
        recent_dedup =
            prune_dedup (env.clock t) (Dict.put alert.dedup_key alert.timestamp m.recent_dedup);
      } in
      if_intro (λ (out : Bool × AlertManager). out.0 ≡ true → out.1 ≡ reserved)
        (is_quiet_hours m.quiet_hours (env.hour t) && not (is_urgent alert.severity))
        (λ _ no_way. absurd cc)
        (λ _.
          if_intro (λ (out : Bool × AlertManager). out.0 ≡ true → out.1 ≡ reserved)
            (is_duplicate env alert m.recent_dedup t).0 (λ _ no_way. absurd cc)
            (λ fresh _. rw (is_duplicate-fresh alert m.recent_dedup t fresh) refl))
        h
