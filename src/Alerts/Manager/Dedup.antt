-- ===== src/Alerts/Manager/Dedup.antt =====
-- The duplicate cache: pruning it never changes whether an alert is a duplicate, a reservation can
-- be taken back, and quiet hours go around the clock.
use sentinel_pi.Prelude.{
  ℕ, ◌+◌, ◌-◌, ◌%◌, ◌≤◌, ◌<◌, String, ◌≡◌, ◌⊎◌, refl, Bool, true, false, ◌&&◌, not, Option, none,
  some, length, ltb, leb, ◌==◌, string_key, arith, Option-cases, inl, inr, if_intro, if◌then◌else◌,
}
use sentinel_pi.Prelude.Dict
use sentinel_pi.Prelude.Dict.{IsUnique, put-IsUnique, get-filter_missing, get-filter_unique}
use sentinel_pi.Prelude.Dict.{Dict, get-put_self, get-put_ne, get-remove_self, get-remove_ne}
use sentinel_pi.Models.{Alert, Datetime, seconds, Severity, AlertCategory}
use sentinel_pi.Alerts.Manager.{
  QuietHours, category_cooldown, max_cooldown, alert_cooldown, prune_threshold, is_quiet_hours,
  seen_recently, prune_dedup, release,
}

-- No alert cools down longer than the bound that pruning uses.
alert_cooldown-le : (s : Severity) (c : AlertCategory) → alert_cooldown s c ≤ max_cooldown
unfolding alert_cooldown max_cooldown category_cooldown
alert_cooldown-le s c = ground arith

-- Pruning is not seen: an alert that is not older than the pruning is a duplicate by the pruned
-- cache exactly if it is one by the whole cache.
pub seen_recently-prune_dedup :
    (key : String) (now ts : Datetime) (s : Severity) (c : AlertCategory) (d : Dict String Datetime)
    → IsUnique d
    → now ≤ ts
    → seen_recently key ts (alert_cooldown s c) (prune_dedup now d)
      ≡ seen_recently key ts (alert_cooldown s c) d
unfolding seen_recently prune_dedup
seen_recently-prune_dedup key now ts s c d u h =
    let cooldown = alert_cooldown s c in
    let kept = λ (last : Datetime). not (ltb (last + seconds max_cooldown) now) in
    let bound = alert_cooldown-le s c in
    if_intro (λ pruned. seen_recently key ts cooldown pruned ≡ seen_recently key ts cooldown d)
      (leb (length d) prune_threshold) (λ _. refl)
      (λ _. elim (Option-cases (Dict.get key d)) [
        | inl missing ↦ rw (missing, get-filter_missing key kept d missing, seen_recently) refl
        | inr (last, found) ↦
            rw (found, get-filter_unique key kept d last u found, seen_recently)
              (ground (arith, bound))
      ])

release-reserved :
    (alert : Alert) (d : Dict String Datetime)
    → (Dict.get alert.dedup_key d ≡ none) ⊎ (Dict.get alert.dedup_key d ≡ some alert.timestamp)
    → Dict.get alert.dedup_key (release alert d) ≡ none
unfolding release
release-reserved alert d (inl e) = rw (e, release) e
release-reserved alert d (inr e) =
    let same : (alert.timestamp == alert.timestamp) ≡ true = ground arith in
    rw (e, release, same) (get-remove_self alert.dedup_key d)

filtered :
    {o : Option Datetime} {v : Datetime} (b : Bool)
    → o ≡ (if b then some v else none)
    → (o ≡ none) ⊎ (o ≡ some v)
filtered true e = inr e
filtered false e = inl e

-- A reservation that is taken back is gone, even if pruning came between.
pub release-prune_dedup :
    (alert : Alert) (now : Datetime) (d : Dict String Datetime)
    → IsUnique d
    → Dict.get alert.dedup_key
        (release alert (prune_dedup now (Dict.put alert.dedup_key alert.timestamp d)))
      ≡ none
unfolding release prune_dedup
release-prune_dedup alert now d u =
    let key = alert.dedup_key in
    let reserved = Dict.put key alert.timestamp d in
    let kept = λ (last : Datetime). not (ltb (last + seconds max_cooldown) now) in
    let there = get-put_self key alert.timestamp d in
    let unique = put-IsUnique key alert.timestamp d u in
    if_intro (λ pruned. Dict.get key (release alert pruned) ≡ none)
      (leb (length reserved) prune_threshold) (λ _. release-reserved alert reserved (inr there))
      (λ _. release-reserved alert _ (
        filtered (kept alert.timestamp)
          (get-filter_unique key kept reserved alert.timestamp unique there)))

-- The quiet hours are those whose distance from the start, around the clock, is smaller than the
-- distance of the end.
pub is_quiet_hours_lem :
    (q : QuietHours) (hour : ℕ)
    → q.start_hour < 24
    → q.end_hour < 24
    → hour < 24
    → is_quiet_hours q hour
      ≡ (q.enabled && ltb ((hour + 24 - q.start_hour) % 24) ((q.end_hour + 24 - q.start_hour) % 24))
unfolding is_quiet_hours
is_quiet_hours_lem q hour hs he hh = ground arith
