-- ===== src/Detectors/PortScan/Eviction.antt =====
-- Evicting idle keys and old alert times is not seen by the detector: what it counts in a window,
-- and on which keys it is on cooldown, stay the same.
use sentinel_pi.Prelude.{
  ◌+◌, ◌≤◌, ◌<◌, String, ◌≡◌, sym, refl, subst, true, false, not, some, List, [], ◌∷◌, Key,
  string_key, ltb, arith, Option-cases, Bool-cases, inl, inr,
}
use sentinel_pi.Prelude.Dict
use sentinel_pi.Prelude.Dict.{IsUnique, get-filter_missing, get-filter_unique}
use sentinel_pi.Prelude.Dict.{Dict}
use sentinel_pi.Models.{Datetime, seconds}
use sentinel_pi.Detectors.{is_expired, is_idle, evict_expired_times, evict_idle_deques}
use sentinel_pi.Detectors.PortScan.{
  scan_window, alert_interval, recent_entries, entries_of, on_cooldown,
}

-- No entry is newer than the last one.
abbrev pub IsOrdered : {A : Type 0} → List (Datetime × A) → Type 0
IsOrdered [] = Unit
IsOrdered (entry ∷ []) = Unit
IsOrdered (entry ∷ next ∷ rest) = (entry.0 ≤ next.0) × IsOrdered (next ∷ rest)

module _ {A : Type 0} (now : Datetime) where
  -- The first entry of an idle deque is expired.
  idle-head :
      (entry : Datetime × A) (rest : List (Datetime × A))
      → IsOrdered (entry ∷ rest)
      → is_idle scan_window now (entry ∷ rest) ≡ true
      → entry.0 + seconds scan_window < now
  unfolding is_idle
  idle-head entry [] o idle = ground arith
  idle-head entry (next ∷ rest) o idle = omega (arith, idle-head next rest o.1 idle, o.0)

  -- In an idle deque nothing is recent, at this moment or later.
  recent_entries-idle :
      (later : Datetime) (entries : List (Datetime × A))
      → now ≤ later
      → IsOrdered entries
      → is_idle scan_window now entries ≡ true
      → recent_entries later entries ≡ []
  unfolding recent_entries is_idle
  recent_entries-idle later [] h o idle = refl
  recent_entries-idle later (entry ∷ []) h o idle =
      let old : ltb later (entry.0 + seconds scan_window) ≡ false =
        ground (arith, idle-head entry [] o idle) in
      rw old refl
  recent_entries-idle later (entry ∷ next ∷ rest) h o idle =
      let old : ltb later (entry.0 + seconds scan_window) ≡ false =
        ground (arith, idle-head entry (next ∷ rest) o idle) in
      rw old (recent_entries-idle later (next ∷ rest) h o.1 idle)

module _ {K A : Type 0} ⦃key : Key K⦄ where
  entries-found :
      (k : K) (d : Dict K (List (Datetime × A))) (es : List (Datetime × A))
      → Dict.get k d ≡ some es
      → entries_of k d ≡ es
  unfolding entries_of
  entries-found k d es found = rw (entries_of, found) refl

  -- Evicting idle deques does not change what is recent for any key, at this moment or later, if no
  -- key stands twice and the entries of the key are in the order of time.
  pub recent_entries-evict_idle_deques :
      (k : K) (now later : Datetime) (d : Dict K (List (Datetime × A)))
      → IsUnique d
      → IsOrdered (entries_of k d)
      → now ≤ later
      → recent_entries later (entries_of k (evict_idle_deques scan_window now d))
        ≡ recent_entries later (entries_of k d)
  unfolding evict_idle_deques entries_of recent_entries
  recent_entries-evict_idle_deques k now later d u o h =
      let busy = λ (entries : List (Datetime × A)). not (is_idle scan_window now entries) in
      elim (Option-cases (Dict.get k d)) [
        | inl missing ↦ rw (entries_of, missing, get-filter_missing k busy d missing) refl
        | inr (es, found) ↦
            let ordered : IsOrdered es = subst IsOrdered (entries-found k d es found) o in
            elim (Bool-cases (is_idle scan_window now es)) [
              | inr e ↦ rw (entries_of, found, get-filter_unique k busy d es u found, e) refl
              | inl e ↦
                  rw (entries_of, found, get-filter_unique k busy d es u found, e)
                    (sym (recent_entries-idle now later es h ordered e))
            ]
      ]

-- Nor does evicting old alert times change which keys are on cooldown, now or later.
on_cooldown-evict_expired_times :
    (k : String) (now later : Datetime) (d : Dict String Datetime)
    → IsUnique d
    → now ≤ later
    → on_cooldown k later (evict_expired_times alert_interval now d) ≡ on_cooldown k later d
unfolding on_cooldown evict_expired_times
on_cooldown-evict_expired_times k now later d u h =
    let kept = λ (ts : Datetime). not (is_expired alert_interval now ts) in
    elim (Option-cases (Dict.get k d)) [
      | inl missing ↦ rw (on_cooldown, missing, get-filter_missing k kept d missing) refl
      | inr (last, found) ↦
          rw (on_cooldown, found, get-filter_unique k kept d last u found) (ground arith)
    ]
