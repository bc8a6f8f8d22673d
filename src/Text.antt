-- ===== src/Text.antt =====
-- The operations on texts that the program uses: searching the output of `nft -a list chain`
-- (firewall.py), cleaning a domain (dns_sinkhole.py), filling a template (killswitch.py).
pub mod Show
pub mod Search
pub mod Replace
use Prim.Native.Char.{Char, code}
use Prim.Native.Nat.{ℕ, zero, suc}
use Prim.Native.String.{[], ◌∷◌, ◌++◌, count}
use sentinel_pi.Prelude.{
  String, Bool, true, false, ◌&&◌, ◌||◌, Option, none, some, ◌-◌, ◌==◌, leb, if◌then◌else◌,
}

-- What follows a prefix, if the text begins with it.
unfoldable pub strip_prefix : String → String → Option String
strip_prefix [] s = some s
strip_prefix (c ∷ p) [] = none
strip_prefix (c ∷ p) (d ∷ s) =
    let rest = strip_prefix p s in if code c == code d then rest else none

-- `needle in text`
unfoldable pub contains : String → String → Bool
unfolding strip_prefix
contains needle [] = elim (strip_prefix needle []) [ none ↦ false | some _ ↦ true ]
contains needle (c ∷ s) = elim (strip_prefix needle (c ∷ s)) [
  | none ↦ contains needle s
  | some _ ↦ true
]

-- The characters at which `str.splitlines` ends a line. (It takes `\r\n` as one end, and here an
-- empty line stands between the two: no caller tells the difference, since no text that is looked
-- for is empty.)
abbrev pub is_line_end : ℕ → Bool
is_line_end c =
    (leb 10 c && leb c 13) || (leb 28 c && leb c 30) || c == 133 || c == 8232 || c == 8233

first_line : String → String
first_line [] = []
first_line (c ∷ s) = if is_line_end (code c) then [] else c ∷ first_line s

-- Below, `fresh` is true where a line begins.
matching_from : Bool → String → String → String
unfolding first_line contains
matching_from fresh marker [] = []
matching_from fresh marker (c ∷ s) =
    let line = first_line (c ∷ s) in
    let rest = matching_from (is_line_end (code c)) marker s in
    if fresh && contains marker line then line else rest

-- `next((line for line in output.splitlines() if marker in line), "")`
unfoldable pub matching_line : String → String → String
unfolding matching_from
matching_line marker output = matching_from true marker output

abbrev pub is_digit : ℕ → Bool
is_digit c = leb b'0' c && leb c b'9'

leading_digits : String → String
leading_digits [] = []
leading_digits (c ∷ s) = if is_digit (code c) then c ∷ leading_digits s else []

-- The group of `re.match(r"# handle (\d+)", text)`. ASCII digits only: nft prints no others.
handle_here : String → Option String
unfolding strip_prefix leading_digits
handle_here s = elim (strip_prefix "# handle " s) [
  | none ↦ none
  | some rest ↦ elim (leading_digits rest) [ [] ↦ none | c ∷ d ↦ some (c ∷ d) ]
]

-- The group of `re.search(r"# handle (\d+)", text)`.
unfoldable pub search_handle : String → Option String
unfolding handle_here
search_handle [] = none
search_handle (c ∷ s) = elim (handle_here (c ∷ s)) [
  | none ↦ search_handle s
  | some digits ↦ some digits
]

-- The character at the same place of the second text, for a character of the first.
exchange : String → String → Char → Char
exchange (u ∷ us) (l ∷ ls) c = let rest = exchange us ls c in if code u == code c then l else rest
exchange _ _ c = c

-- `text.lower()`, for the letters of ASCII.
unfoldable pub lower : String → String
unfolding exchange
lower [] = []
lower (c ∷ s) = exchange "ABCDEFGHIJKLMNOPQRSTUVWXYZ" "abcdefghijklmnopqrstuvwxyz" c ∷ lower s

-- `text.upper()`, for the letters of ASCII.
unfoldable pub upper : String → String
unfolding exchange
upper [] = []
upper (c ∷ s) = exchange "abcdefghijklmnopqrstuvwxyz" "ABCDEFGHIJKLMNOPQRSTUVWXYZ" c ∷ upper s

-- The ASCII characters that `str.strip` takes for white space.
abbrev pub is_space : ℕ → Bool
is_space c = (leb 9 c && leb c 13) || (leb 28 c && leb c 32)

trim_left : String → String
trim_left [] = []
trim_left (c ∷ s) = let rest = trim_left s in if is_space (code c) then rest else c ∷ s

-- Drops the characters at the right end that pass a test.
trim_right : (ℕ → Bool) → String → String
trim_right drops [] = []
trim_right drops (c ∷ s) = elim (trim_right drops s) [
  | [] ↦ if drops (code c) then [] else c ∷ []
  | d ∷ r ↦ c ∷ d ∷ r
]

-- `text.strip()`
unfoldable pub strip : String → String
unfolding trim_left trim_right
strip s = trim_right is_space (trim_left s)

-- `text.rstrip(".")`
unfoldable pub strip_dots : String → String
unfolding trim_right
strip_dots s = trim_right (λ c. c == b'.') s

-- `text.endswith(suffix)`
unfoldable pub ends_with : String → String → Bool
unfolding strip_prefix
ends_with suffix [] = elim (strip_prefix [] suffix) [ some [] ↦ true | _ ↦ false ]
ends_with suffix (c ∷ s) = elim (strip_prefix suffix (c ∷ s)) [
  | some [] ↦ true
  | _ ↦ ends_with suffix s
]

-- Copies the text, a match of `pat` replaced; the number says how many characters are skipped,
-- being the rest of a match.
replace_from : ℕ → String → String → String → String
unfolding strip_prefix
replace_from skip pat by [] = []
replace_from (suc skip) pat by (c ∷ s) = replace_from skip pat by s
replace_from zero pat by (c ∷ s) = elim (strip_prefix pat (c ∷ s)) [
  | none ↦ c ∷ replace_from zero pat by s
  | some _ ↦ by ++ replace_from (count pat - 1) pat by s
]

-- `text.replace(pat, by)`, for a pattern that is not empty.
unfoldable pub replace : String → String → String → String
unfolding replace_from
replace pat by s = replace_from zero pat by s
