-- ===== src/Text/Show.antt =====
-- A number in decimal, and a set of texts in order.
pub mod Sets
use Prim.Native.Char.{code}
use Prim.Native.String.{[], ◌∷◌, ◌++◌}
use sentinel_pi.Prelude.{
  ℕ, zero, suc, ◌/◌, ◌%◌, String, ◌≡◌, refl, Bool, true, false, none, some, List, get_elem?, ltb,
  ◌==◌, string_key, eqb, elem, arith, if◌then◌else◌,
}

abbrev digits : List String
digits = List.◌∷◌ "0" (
    List.◌∷◌ "1" (
      List.◌∷◌ "2" (
        List.◌∷◌ "3" (
          List.◌∷◌ "4"
            (List.◌∷◌ "5" (List.◌∷◌ "6" (List.◌∷◌ "7" (List.◌∷◌ "8" (List.◌∷◌ "9" List.[])))))))))

digit : ℕ → String
digit d = elim (get_elem? digits d) [ none ↦ "" | some s ↦ s ]

-- The fuel is larger than the number, and a number of n digits needs n.
show_from : ℕ → ℕ → String
unfolding digit
show_from zero n = ""
show_from (suc fuel) n =
    let front = show_from fuel (n / 10) in if ltb n 10 then digit n else front ++ digit (n % 10)

-- `str(n)`
unfoldable pub show : ℕ → String
unfolding show_from
show n = show_from (suc n) n

-- `s <= t` on texts: by the code points.
unfoldable pub text_leb : String → String → Bool
text_leb [] t = true
text_leb (c ∷ s) [] = false
text_leb (c ∷ s) (d ∷ t) =
    let rest = text_leb s t in if code c == code d then rest else ltb (code c) (code d)

unfoldable pub insert : String → List String → List String
unfolding text_leb
insert x List.[] = List.◌∷◌ x List.[]
insert x (List.◌∷◌ y ys) =
    if eqb x y
    then List.◌∷◌ y ys
    else if text_leb x y
    then List.◌∷◌ x (List.◌∷◌ y ys)
    else List.◌∷◌ y (insert x ys)

-- `sorted(set(xs))`
unfoldable pub sorted_set : List String → List String
unfolding insert
sorted_set List.[] = List.[]
sorted_set (List.◌∷◌ x xs) = insert x (sorted_set xs)

elem-insert : (a x : String) (xs : List String) → elem a (insert x xs) ≡ elem a (List.◌∷◌ x xs)
unfolding insert
elem-insert a x List.[] = refl
elem-insert a x (List.◌∷◌ y ys) = ground (arith, elem-insert a x ys)

-- The set has the elements of the list.
pub elem-sorted_set : (a : String) (xs : List String) → elem a (sorted_set xs) ≡ elem a xs
unfolding sorted_set
elem-sorted_set a List.[] = refl
elem-sorted_set a (List.◌∷◌ x xs) =
    ground (arith, elem-insert a x (sorted_set xs), elem-sorted_set a xs)
