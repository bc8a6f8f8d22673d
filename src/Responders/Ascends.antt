-- ===== src/Responders/Ascends.antt =====
-- References in ascending order: those of a manager's recent list are, so no object is listed twice.
use sentinel_pi.Prelude.{ℕ, zero, suc, ◌≤◌, ◌≢◌, List, [], ◌∷◌, ◌++◌, drop, arith, All}

-- The references ascend strictly, from `lo` up to below `hi`.
abbrev pub Ascends : ℕ → List ℕ → ℕ → Type 0
Ascends lo [] hi = lo ≤ hi
Ascends lo (r ∷ rs) hi = (lo ≤ r) × Ascends (suc r) rs hi

pub Ascends-le : (lo : ℕ) (rs : List ℕ) (hi : ℕ) → Ascends lo rs hi → lo ≤ hi
Ascends-le lo [] hi h = h
Ascends-le lo (r ∷ rs) hi h = let k = Ascends-le (suc r) rs hi h.1 in omega arith

pub Ascends-mono :
    (lo lo' : ℕ) (rs : List ℕ) (hi hi' : ℕ)
    → lo' ≤ lo
    → hi ≤ hi'
    → Ascends lo rs hi
    → Ascends lo' rs hi'
Ascends-mono lo lo' [] hi hi' p q h = omega arith
Ascends-mono lo lo' (r ∷ rs) hi hi' p q h =
    (omega arith, Ascends-mono (suc r) (suc r) rs hi hi' (omega arith) q h.1)

pub Ascends-append :
    (lo : ℕ) (rs : List ℕ) (mid : ℕ) (ss : List ℕ) (hi : ℕ)
    → Ascends lo rs mid
    → Ascends mid ss hi
    → Ascends lo (rs ++ ss) hi
Ascends-append lo [] mid ss hi h k = Ascends-mono mid lo ss hi hi h (omega arith) k
Ascends-append lo (r ∷ rs) mid ss hi h k = (h.0, Ascends-append (suc r) rs mid ss hi h.1 k)

pub Ascends-drop : (n lo : ℕ) (rs : List ℕ) (hi : ℕ) → Ascends lo rs hi → Ascends lo (drop n rs) hi
Ascends-drop zero lo rs hi h = h
Ascends-drop (suc n) lo [] hi h = h
Ascends-drop (suc n) lo (r ∷ rs) hi h =
    Ascends-drop n lo rs hi (Ascends-mono (suc r) lo rs hi hi (omega arith) (omega arith) h.1)

-- What stands behind the first reference differs from it.
pub Ascends-ne : (r : ℕ) (rs : List ℕ) (hi : ℕ) → Ascends (suc r) rs hi → All (λ s. r ≢ s) rs
Ascends-ne r [] hi h = tt
Ascends-ne r (s ∷ rs) hi h = (
  omega arith,
  Ascends-ne r rs hi (Ascends-mono (suc s) (suc r) rs hi hi (omega arith) (omega arith) h.1),
)
