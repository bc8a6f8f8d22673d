-- ===== src/Prelude/Keys.antt =====
-- Types whose values a dictionary or a set can be keyed by: equality is decided.
use Prim.Native.String.{String}
use mathlib.Core.Path.{◌≡◌, refl}
use mathlib.Core.Bool.{Bool, true, false}
use mathlib.Core.Logic.{ite, ◌≢◌}
use mathlib.Core.List.{List, [], ◌∷◌}
use native.Mathlib.Decide.{ℕ_discrete}
use native.Mathlib.Omega.{arith}
use Prim.Native.Nat.{ℕ}
use text.Mathlib.Text.{◌==◌ as str_eq}
use text.Mathlib.TextEquality.{eq_iff}

decide_by : {s t : String} (b : Bool) → str_eq s t ≡ b → Dec (s ≡ t)
decide_by {s} {t} true e = yes ((eq_iff s t).0 e)
decide_by {s} {t} false e = no (λ p. ground (arith, eq_iff s t))

unfoldable pub String-discrete : Discrete String
unfolding decide_by
String-discrete s t = decide_by (str_eq s t) refl

unfoldable pub List-discrete : Discrete (List String)
unfolding String-discrete
List-discrete = hlevel String-discrete

unfoldable pub Pair-discrete : Discrete (String × String)
unfolding String-discrete
Pair-discrete = hlevel String-discrete

unfoldable pub Numbered-discrete : Discrete (String × ℕ)
unfolding String-discrete
Numbered-discrete = hlevel (String-discrete, ℕ_discrete)

unfoldable pub Triple-discrete : Discrete (String × String × ℕ)
unfolding String-discrete
Triple-discrete = hlevel (String-discrete, ℕ_discrete)

unfoldable pub Flow-discrete : Discrete (String × ℕ × String × ℕ × String)
unfolding String-discrete
Flow-discrete = hlevel (String-discrete, ℕ_discrete)

pub record Key {ℓ} (K : Type ℓ) : Type ℓ where
  pub dec : Discrete K

instance abbrev pub string_key : Key String
string_key = record { dec = String-discrete }

instance abbrev pub pair_key : Key (String × String)
pair_key = record { dec = Pair-discrete }

instance abbrev pub argv_key : Key (List String)
argv_key = record { dec = List-discrete }

instance abbrev pub numbered_key : Key (String × ℕ)
numbered_key = record { dec = Numbered-discrete }

instance abbrev pub triple_key : Key (String × String × ℕ)
triple_key = record { dec = Triple-discrete }

instance abbrev pub five_key : Key (String × ℕ × String × ℕ × String)
five_key = record { dec = Flow-discrete }

instance abbrev pub nat_key : Key ℕ
nat_key = record { dec = ℕ_discrete }

module _ {ℓ} {K : Type ℓ} ⦃key : Key K⦄ where
  abbrev pub eqb : K → K → Bool
  eqb a b = ite (key.dec a b) true false

  -- `a in xs`
  abbrev pub elem : K → List K → Bool
  elem a [] = false
  elem a (x ∷ xs) = ite (key.dec a x) true (elem a xs)

  -- No element stands in the list twice.
  abbrev pub IsDistinct : List K → Type 0
  IsDistinct [] = Unit
  IsDistinct (x ∷ xs) = (elem x xs ≡ false) × IsDistinct xs

  pub eqb_refl : (a : K) → eqb a a ≡ true
  eqb_refl a = ground arith

  pub eqb_ne : (a b : K) → a ≢ b → eqb a b ≡ false
  eqb_ne a b h = ground arith

  pub elem-head : (a : K) (xs : List K) → elem a (a ∷ xs) ≡ true
  elem-head a xs = ground arith

  pub elem-tail : (a x : K) (xs : List K) → elem a xs ≡ true → elem a (x ∷ xs) ≡ true
  elem-tail a x xs h = ground arith
