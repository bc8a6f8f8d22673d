-- ===== src/Text/Show/Sets.antt =====
-- A set of texts in order holds no text twice.
use Prim.Native.String.{◌∷◌, []}
use text.Mathlib.TextEquality.{Char-path}
use sentinel_pi.Prelude.{
  String, ◌≡◌, refl, true, false, List, All, Bool-cases, inl, inr, string_key, eqb, elem,
  IsDistinct, arith,
}
use sentinel_pi.Text.Show.{text_leb, insert, sorted_set}

text_leb_total : (s t : String) → text_leb s t ≡ false → text_leb t s ≡ true
unfolding text_leb
text_leb_total [] t h = absurd cc
text_leb_total (c ∷ s) [] h = refl
text_leb_total (c ∷ s) (d ∷ t) h = ground (arith, text_leb_total s t)

text_leb_antisymm : (s t : String) → text_leb s t ≡ true → text_leb t s ≡ true → s ≡ t
unfolding text_leb
text_leb_antisymm [] [] h k = refl
text_leb_antisymm [] (d ∷ t) h k = absurd cc
text_leb_antisymm (c ∷ s) [] h k = absurd cc
text_leb_antisymm (c ∷ s) (d ∷ t) h k =
    let heads : c ≡ d = Char-path c d (ground arith) in
    let tails = text_leb_antisymm s t (ground arith) (ground arith) in rw (heads, tails) refl

text_leb_trans : (s t u : String) → text_leb s t ≡ true → text_leb t u ≡ true → text_leb s u ≡ true
unfolding text_leb
text_leb_trans [] t u h k = refl
text_leb_trans (c ∷ s) [] u h k = absurd cc
text_leb_trans (c ∷ s) (d ∷ t) [] h k = absurd cc
text_leb_trans (c ∷ s) (d ∷ t) (e ∷ u) h k = ground (arith, text_leb_trans s t u)

-- The text is before all of these, and none of them.
abbrev IsBefore : String → List String → Type 0
IsBefore x ys = All (λ y. (text_leb x y ≡ true) × (eqb x y ≡ false)) ys

abbrev IsOrdered : List String → Type 0
IsOrdered List.[] = Unit
IsOrdered (List.◌∷◌ x xs) = IsBefore x xs × IsOrdered xs

IsBefore-trans :
    (x y : String) (ys : List String)
    → text_leb x y ≡ true
    → eqb x y ≡ false
    → IsBefore y ys
    → IsBefore x ys
IsBefore-trans x y List.[] le ne b = tt
IsBefore-trans x y (List.◌∷◌ z zs) le ne b = (
  (text_leb_trans x y z le b.0.0, ground (arith, text_leb_antisymm x y, b.0.0, b.0.1, le, ne)),
  IsBefore-trans x y zs le ne b.1,
)

IsBefore-insert :
    (y x : String) (ys : List String)
    → text_leb y x ≡ true
    → eqb y x ≡ false
    → IsBefore y ys
    → IsBefore y (insert x ys)
unfolding insert
IsBefore-insert y x List.[] le ne b = ((le, ne), tt)
IsBefore-insert y x (List.◌∷◌ z zs) le ne b = elim (Bool-cases (eqb x z)) [
  | inl e ↦ rw (e, insert) b
  | inr e ↦ elim (Bool-cases (text_leb x z)) [
    | inl f ↦ rw (e, f, insert) ((le, ne), b)
    | inr f ↦ rw (e, f, insert) (b.0, IsBefore-insert y x zs le ne b.1)
  ]
]

insert-IsOrdered : (x : String) (ys : List String) → IsOrdered ys → IsOrdered (insert x ys)
unfolding insert
insert-IsOrdered x List.[] o = (tt, tt)
insert-IsOrdered x (List.◌∷◌ y ys) o = elim (Bool-cases (eqb x y)) [
  | inl e ↦ rw (e, insert) o
  | inr e ↦ elim (Bool-cases (text_leb x y)) [
    | inl f ↦ rw (e, f, insert) (((f, e), IsBefore-trans x y ys f e o.0), o)
    | inr f ↦
        rw (e, f, insert)
          (
            IsBefore-insert y x ys (text_leb_total x y f) (ground (arith, e)) o.0,
            insert-IsOrdered x ys o.1,
          )
  ]
]

sorted_set-IsOrdered : (xs : List String) → IsOrdered (sorted_set xs)
unfolding sorted_set
sorted_set-IsOrdered List.[] = tt
sorted_set-IsOrdered (List.◌∷◌ x xs) = insert-IsOrdered x (sorted_set xs) (sorted_set-IsOrdered xs)

elem-IsBefore : (x : String) (ys : List String) → IsBefore x ys → elem x ys ≡ false
elem-IsBefore x List.[] b = refl
elem-IsBefore x (List.◌∷◌ y ys) b = ground (arith, b.0.1, elem-IsBefore x ys b.1)

IsOrdered-IsDistinct : (xs : List String) → IsOrdered xs → IsDistinct xs
IsOrdered-IsDistinct List.[] o = tt
IsOrdered-IsDistinct (List.◌∷◌ x xs) o = (elem-IsBefore x xs o.0, IsOrdered-IsDistinct xs o.1)

pub sorted_set-IsDistinct : (xs : List String) → IsDistinct (sorted_set xs)
sorted_set-IsDistinct xs = IsOrdered-IsDistinct (sorted_set xs) (sorted_set-IsOrdered xs)
