-- ===== src/Prelude/Dict.antt =====
-- Python's `dict` and `OrderedDict`: an association list in insertion order. Assignment to a key
-- that is there keeps its place; `del` and `pop` of a key that is missing change nothing here.
pub mod Order
use Prim.Native.Nat.{◌+◌, ◌≤◌}
use mathlib.Core.Path.{◌≡◌, refl, subst, sym, ◌∙◌}
use mathlib.Core.Logic.{◌≢◌, ite, if_pos, if_neg}
use mathlib.Core.Bool.{Bool}
use mathlib.Core.Option.{Option, none, some}
use mathlib.Core.List.{List, [], ◌∷◌}
use native.Mathlib.Omega.{arith}
use sentinel_pi.Prelude.Tests.{if◌then◌else◌}
use sentinel_pi.Prelude.Lists.{length}
use sentinel_pi.Prelude.Keys.{Key}

abbrev pub Dict {ℓ} : Type ℓ → Type ℓ → Type ℓ
Dict K V = List (K × V)

module _ {ℓ} {K V : Type ℓ} ⦃key : Key K⦄ where
  unfoldable pub get : K → Dict K V → Option V
  get k [] = none
  get k ((j, v) ∷ d) = ite (key.dec k j) (some v) (get k d)

  unfoldable pub put : K → V → Dict K V → Dict K V
  put k v [] = (k, v) ∷ []
  put k v ((j, w) ∷ d) = ite (key.dec k j) ((j, v) ∷ d) ((j, w) ∷ put k v d)

  unfoldable pub remove : K → Dict K V → Dict K V
  remove k [] = []
  remove k ((j, w) ∷ d) = ite (key.dec k j) (remove k d) ((j, w) ∷ remove k d)

  -- The entries whose value passes a test.
  unfoldable pub filter_values : (V → Bool) → Dict K V → Dict K V
  filter_values p [] = []
  filter_values p ((j, w) ∷ d) = if p w then (j, w) ∷ filter_values p d else filter_values p d

  pub get-put_self : (k : K) (v : V) (d : Dict K V) → get k (put k v d) ≡ some v
  unfolding get put
  get-put_self k v [] = ground arith
  get-put_self k v ((j, w) ∷ d) = ground (arith, get-put_self k v d)

  pub get-put_ne : (k j : K) (v : V) (d : Dict K V) → j ≢ k → get j (put k v d) ≡ get j d
  unfolding get put
  get-put_ne k j v [] h = ground arith
  get-put_ne k j v ((i, w) ∷ d) h = ground (arith, get-put_ne k j v d)

  pub get-remove_self : (k : K) (d : Dict K V) → get k (remove k d) ≡ none
  unfolding get remove
  get-remove_self k [] = refl
  get-remove_self k ((j, w) ∷ d) = ground (arith, get-remove_self k d)

  pub get-remove_ne : (k j : K) (d : Dict K V) → j ≢ k → get j (remove k d) ≡ get j d
  unfolding get remove
  get-remove_ne k j [] h = refl
  get-remove_ne k j ((i, w) ∷ d) h = ground (arith, get-remove_ne k j d)

  pub length-put : (k : K) (v : V) (d : Dict K V) → length (put k v d) ≤ length d + 1
  unfolding put
  length-put k v [] = omega arith
  length-put k v ((j, w) ∷ d) = ground (arith, length-put k v d)

  pub length-put_present :
      (k : K) (v : V) (d : Dict K V) → get k d ≢ none → length (put k v d) ≡ length d
  unfolding get put
  length-put_present k v [] h = absurd (h refl)
  length-put_present k v ((j, w) ∷ d) h = ground (arith, length-put_present k v d)

  pub length-remove : (k : K) (d : Dict K V) → length (remove k d) ≤ length d
  unfolding remove
  length-remove k [] = omega arith
  length-remove k ((j, w) ∷ d) = ground (arith, length-remove k d)

abbrev pub AllValues {ℓ} : {K V : Type ℓ} → (V → Type ℓ) → Dict K V → Type ℓ
AllValues P [] = Unit
AllValues P ((k, v) ∷ d) = P v × AllValues P d

module _ {ℓ} {K V : Type ℓ} ⦃key : Key K⦄ (P : V → Type ℓ) where
  pub AllValues-put : (k : K) (v : V) (d : Dict K V) → P v → AllValues P d → AllValues P (put k v d)
  unfolding put
  AllValues-put k v [] pv h = (pv, tt)
  AllValues-put k v ((j, w) ∷ d) pv h = elim (key.dec k j) [
    | yes e ↦ rw (if_pos _ e) (pv, h.1)
    | no e ↦ rw (if_neg _ e) (h.0, AllValues-put k v d pv h.1)
  ]

  pub AllValues-remove : (k : K) (d : Dict K V) → AllValues P d → AllValues P (remove k d)
  unfolding remove
  AllValues-remove k [] h = h
  AllValues-remove k ((j, w) ∷ d) h = elim (key.dec k j) [
    | yes e ↦ rw (if_pos _ e) (AllValues-remove k d h.1)
    | no e ↦ rw (if_neg _ e) (h.0, AllValues-remove k d h.1)
  ]

  pub get-AllValues : (k : K) (d : Dict K V) (v : V) → get k d ≡ some v → AllValues P d → P v
  unfolding get
  get-AllValues k [] v e h = cc
  get-AllValues k ((j, w) ∷ d) v e h = elim (key.dec k j) [
    | yes p ↦ let e' : w ≡ v = ground arith in subst P e' h.0
    | no p ↦ get-AllValues k d v (ground arith) h.1
  ]

-- No key stands twice, as in every dictionary.
abbrev pub IsUnique {ℓ} : {K V : Type ℓ} ⦃key : Key K⦄ → Dict K V → Type ℓ
IsUnique [] = Unit
IsUnique ((k, v) ∷ d) = (get k d ≡ none) × IsUnique d

module _ {ℓ} {K V : Type ℓ} ⦃key : Key K⦄ where
  pub get-filter_missing :
      (k : K) (p : V → Bool) (d : Dict K V) → get k d ≡ none → get k (filter_values p d) ≡ none
  unfolding get filter_values
  get-filter_missing k p [] h = refl
  get-filter_missing k p ((j, w) ∷ d) h = ground (arith, get-filter_missing k p d)

  -- A filtered entry is there if it passes the test.
  pub get-filter_unique :
      (k : K) (p : V → Bool) (d : Dict K V) (v : V)
      → IsUnique d
      → get k d ≡ some v
      → get k (filter_values p d) ≡ (if p v then some v else none)
  unfolding get filter_values
  get-filter_unique k p [] v u h = cc
  get-filter_unique k p ((j, w) ∷ d) v u h =
      ground (arith, get-filter_missing k p d, get-filter_unique k p d v u.1, u.0)

  pub put-IsUnique : (k : K) (v : V) (d : Dict K V) → IsUnique d → IsUnique (put k v d)
  unfolding put
  put-IsUnique k v [] u = (unfold get in refl, tt)
  put-IsUnique k v ((j, w) ∷ d) u = elim (key.dec k j) [
    | yes e ↦ rw (if_pos _ e) u
    | no e ↦ rw (if_neg _ e) (get-put_ne k j v d (λ q. e (sym q)) ∙ u.0, put-IsUnique k v d u.1)
  ]
