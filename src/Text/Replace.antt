-- ===== src/Text/Replace.antt =====
-- `text.replace(pat, by)` for a pattern of one character: each character by itself.
use Prim.Native.Char.{Char, code}
use Prim.Native.String.{◌++◌, count}
use Prim.Native.String.count
use sentinel_pi.Prelude.{◌-◌, String, ◌≡◌, Bool-cases, inl, inr, ◌==◌, if◌then◌else◌, arith}
use sentinel_pi.Text.{replace, strip_prefix}

pub replace-cons :
    (p : Char) (by : String) (c : Char) (s : String)
    → replace (String.◌∷◌ p "") by (String.◌∷◌ c s) ≡ (
        if code p == code c
        then by ++ replace (String.◌∷◌ p "") by s
        else String.◌∷◌ c (replace (String.◌∷◌ p "") by s))
unfolding replace strip_prefix
replace-cons p by c s =
    let one : count (String.◌∷◌ p "") - 1 ≡ 0 = omega (arith, count.cons p "") in
    elim (Bool-cases (code p == code c)) [
      | inl e ↦ ground (arith, e, one)
      | inr e ↦ ground (arith, e)
    ]
