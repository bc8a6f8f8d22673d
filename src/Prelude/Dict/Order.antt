-- ===== src/Prelude/Dict/Order.antt =====
-- `OrderedDict.move_to_end`, and the keys of a dictionary under its operations.
use Prim.Native.Nat.{◌≤◌, ◌<◌}
use mathlib.Core.Path.{◌≡◌, refl, ◌∙◌}
use mathlib.Core.Logic.{◌≢◌, if_pos, if_neg}
use mathlib.Core.Option.{Option, none, some}
use mathlib.Core.List.{[], ◌∷◌}
use native.Mathlib.Omega.{arith}
use sentinel_pi.Prelude.Lists.{length}
use sentinel_pi.Prelude.Keys.{Key}
use sentinel_pi.Prelude.Dict.{
  Dict, get, put, remove, IsUnique, get-put_ne, get-put_self, get-remove_ne, length-put,
  length-remove,
}

module _ {ℓ} {K V : Type ℓ} ⦃key : Key K⦄ where
  -- The entry is taken out and put back, which appends it. `none` stands for `KeyError`.
  unfoldable pub move_to_end : K → Dict K V → Option (Dict K V)
  move_to_end k d = elim (get k d) [ none ↦ none | some v ↦ some (put k v (remove k d)) ]

  pub length-remove_present :
      (k : K) (d : Dict K V) → get k d ≢ none → length (remove k d) < length d
  unfolding get remove
  length-remove_present k [] h = absurd (h refl)
  length-remove_present k ((j, w) ∷ d) h =
      ground (arith, length-remove k d, length-remove_present k d)

  pub remove_missing : (k : K) (d : Dict K V) → get k d ≡ none → remove k d ≡ d
  unfolding get remove
  remove_missing k [] h = refl
  remove_missing k ((j, w) ∷ d) h = ground (arith, remove_missing k d)

  pub get-remove_missing : (k j : K) (d : Dict K V) → get j d ≡ none → get j (remove k d) ≡ none
  unfolding get remove
  get-remove_missing k j [] h = refl
  get-remove_missing k j ((i, w) ∷ d) h = ground (arith, get-remove_missing k j d)

  pub remove-IsUnique : (k : K) (d : Dict K V) → IsUnique d → IsUnique (remove k d)
  unfolding remove
  remove-IsUnique k [] u = u
  remove-IsUnique k ((j, w) ∷ d) u = elim (key.dec k j) [
    | yes e ↦ rw (if_pos _ e) (remove-IsUnique k d u.1)
    | no e ↦ rw (if_neg _ e) (get-remove_missing k j d u.0, remove-IsUnique k d u.1)
  ]

  pub length-move_to_end :
      (k : K) (v : V) (d : Dict K V) → get k d ≢ none → length (put k v (remove k d)) ≤ length d
  length-move_to_end k v d h =
      omega (arith, length-put k v (remove k d), length-remove_present k d h)

  pub get-move_to_end :
      (k j : K) (v : V) (d : Dict K V) → get k d ≡ some v → get j (put k v (remove k d)) ≡ get j d
  get-move_to_end k j v d h = elim (key.dec j k) [
    | yes e ↦ ground (arith, get-put_self k v (remove k d), h, e)
    | no e ↦ get-put_ne k j v (remove k d) e ∙ get-remove_ne k j d e
  ]
