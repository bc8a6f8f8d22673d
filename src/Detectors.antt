-- ===== src/Detectors.antt =====
-- detectors/base.py: the helpers that keep a detector's dictionaries small. A detector's state is a
-- record of its own; its lock is not modelled, and each entry point is one step.
pub mod Adaptive
pub mod Arp
pub mod Profiles
pub mod Lateral
pub mod PortScan
use sentinel_pi.Prelude.{
  ℕ, ◌+◌, String, Bool, true, false, not, List, [], ◌∷◌, ltb, Key, string_key, if◌then◌else◌,
}
use sentinel_pi.Prelude.Dict
use sentinel_pi.Prelude.Dict.{Dict}
use sentinel_pi.Models.{Datetime, seconds}

-- `ts < cutoff`, where `cutoff = clock.now() - timedelta(seconds=max_age_seconds)`
abbrev pub is_expired : ℕ → Datetime → Datetime → Bool
is_expired max_age now ts = ltb (ts + seconds max_age) now

-- `_evict_expired_times`
unfoldable pub evict_expired_times : ℕ → Datetime → Dict String Datetime → Dict String Datetime
evict_expired_times max_age now d = Dict.filter_values (λ ts. not (is_expired max_age now ts)) d

-- Whether a deque is empty, or its newest entry, the last one, is older than `max_age`.
unfoldable pub is_idle : {A : Type 0} → ℕ → Datetime → List (Datetime × A) → Bool
is_idle max_age now [] = true
is_idle max_age now (entry ∷ []) = is_expired max_age now entry.0
is_idle max_age now (entry ∷ next ∷ rest) = is_idle max_age now (next ∷ rest)

-- `_evict_idle_deques`, for deques of pairs
unfoldable pub evict_idle_deques :
    {K A : Type 0} ⦃key : Key K⦄
    → ℕ
    → Datetime
    → Dict K (List (Datetime × A))
    → Dict K (List (Datetime × A))
unfolding is_idle
evict_idle_deques max_age now d =
    Dict.filter_values (λ entries. not (is_idle max_age now entries)) d
