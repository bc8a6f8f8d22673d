-- ===== src/Detectors/Adaptive.antt =====
-- detectors/adaptive.py: a host that keeps tripping a detector faces a growing threshold. The floats
-- `step` and `max_multiplier` are numbers of thousandths; the rounding of floats is not modelled.
use sentinel_pi.Prelude.{
  ℕ, suc, ◌+◌, ◌-◌, ◌*◌, ◌≤◌, min, String, Bool, none, some, List, [], ◌∷◌, ◌++◌, map, length, ltb,
  leb, pair_key, arith, if◌then◌else◌, if_intro,
}
use sentinel_pi.Prelude.Dict
use sentinel_pi.Prelude.Dict.{Dict}
use sentinel_pi.Models.{Datetime, seconds}

-- The state of `AdaptiveThresholds`; a key is a signal and a host.
pub record Adaptive : Type 0 where
  pub enabled : Bool
  pub trips_before_backoff : ℕ
  pub window_seconds : ℕ
  pub step : ℕ
  pub max_multiplier : ℕ
  pub trips : Dict (String × String) (List Datetime)

-- `_MAX_KEYS`
abbrev pub max_keys : ℕ
max_keys = 8192

-- 1.0
abbrev pub unit : ℕ
unit = 1000

-- `while dq and dq[0] < cutoff: dq.popleft()`
unfoldable pub drop_old : ℕ → Datetime → List Datetime → List Datetime
drop_old window now [] = []
drop_old window now (ts ∷ rest) =
    let kept = drop_old window now rest in if ltb (ts + seconds window) now then kept else ts ∷ rest

-- `_recent_trips`: how many trips remain, and the trips without those that have left the window.
unfoldable pub recent_trips :
    ℕ
    → String × String
    → Datetime
    → Dict (String × String) (List Datetime)
    → ℕ × Dict (String × String) (List Datetime)
unfolding drop_old
recent_trips window key now trips = elim (Dict.get key trips) [
  | none ↦ (0, trips)
  | some dq ↦ elim (drop_old window now dq) [
    | [] ↦ (0, Dict.remove key trips)
    | ts ∷ kept ↦ (suc (length kept), Dict.put key (ts ∷ kept) trips)
  ]
]

-- The multiplier for a count of recent trips.
unfoldable pub backoff : Adaptive → ℕ → ℕ
backoff a count =
    if ltb count a.trips_before_backoff
    then unit
    else min a.max_multiplier (unit + a.step * (count - a.trips_before_backoff + 1))

-- `multiplier`
unfoldable pub multiplier : String → String → Datetime → Adaptive → ℕ × Adaptive
unfolding backoff
multiplier signal host now a =
    let (count, trips) = recent_trips a.window_seconds (signal, host) now a.trips in
    if a.enabled then (backoff a count, record a { trips = trips }) else (unit, a)

-- `effective`, in thousandths
unfoldable pub effective : String → String → ℕ → Datetime → Adaptive → ℕ × Adaptive
unfolding multiplier
effective signal host base now a = let (m, a') = multiplier signal host now a in (base * m, a')

-- The loop of `record_trip` over the keys, until there is room.
unfoldable pub prune_keys :
    ℕ
    → Datetime
    → List (String × String)
    → Dict (String × String) (List Datetime)
    → Dict (String × String) (List Datetime)
prune_keys window now [] trips = trips
prune_keys window now (k ∷ ks) trips =
    let (_, trips') = recent_trips window k now trips in
    let rest = prune_keys window now ks trips' in
    if ltb (length trips') max_keys then trips' else rest

-- `self._trips[key].append(now)` on a `defaultdict`
unfoldable pub append_trip :
    String × String
    → Datetime
    → Dict (String × String) (List Datetime)
    → Dict (String × String) (List Datetime)
append_trip key now trips = elim (Dict.get key trips) [
  | none ↦ Dict.put key (now ∷ []) trips
  | some dq ↦ Dict.put key (dq ++ now ∷ []) trips
]

-- `record_trip`
unfoldable pub record_trip : String → String → Datetime → Adaptive → Adaptive
unfolding append_trip
record_trip signal host now a =
    let pruned = prune_keys a.window_seconds now (map (λ entry. entry.0) a.trips) a.trips in
    let trips = if leb max_keys (length a.trips) then pruned else a.trips in
    if a.enabled then record a { trips = append_trip (signal, host) now trips } else a

backoff-bounds :
    (a : Adaptive) (count : ℕ)
    → unit ≤ a.max_multiplier
    → (unit ≤ backoff a count) × (backoff a count ≤ a.max_multiplier)
unfolding backoff
backoff-bounds a count h =
    if_intro (λ m. (unit ≤ m) × (m ≤ a.max_multiplier)) (ltb count a.trips_before_backoff)
      (λ _. (omega arith, h)) (λ _. (omega (arith, h), omega arith))

-- The multiplier lies between 1.0 and its configured maximum, so that an effective threshold is
-- never below its base.
pub multiplier-bounds :
    (signal host : String) (now : Datetime) (a : Adaptive)
    → unit ≤ a.max_multiplier
    → (unit ≤ (multiplier signal host now a).0)
      × ((multiplier signal host now a).0 ≤ a.max_multiplier)
unfolding multiplier
multiplier-bounds signal host now a h =
    if_intro (λ (out : ℕ × Adaptive). (unit ≤ out.0) × (out.0 ≤ a.max_multiplier)) a.enabled
      (λ _. backoff-bounds a _ h) (λ _. (omega arith, h))
