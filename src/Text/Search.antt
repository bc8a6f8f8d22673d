-- ===== src/Text/Search.antt =====
-- The patterns of capture/flow_ingest.py, `\bname=(\S+)` and its kind, and the splitting of texts,
-- for ASCII texts.
use Prim.Native.Char.{Char, code}
use Prim.Native.String.{[], ◌∷◌}
use sentinel_pi.Prelude.{
  ℕ, zero, suc, ◌+◌, ◌*◌, ◌-◌, String, Bool, true, false, ◌&&◌, ◌||◌, not, Option, none, some, List,
  leb, ◌==◌, if◌then◌else◌,
}
use sentinel_pi.Text.{strip_prefix, is_space, is_digit, is_line_end}

-- `\w`
abbrev pub is_word : ℕ → Bool
is_word c =
    (leb b'a' c && leb c b'z')
    || (leb b'A' c && leb c b'Z')
    || (leb b'0' c && leb c b'9')
    || c == b'_'

-- Whether the text begins with a word.
unfoldable pub starts_word : String → Bool
starts_word [] = false
starts_word (c ∷ s) = is_word (code c)

-- The longest beginning whose characters pass a test.
unfoldable pub take_while : (ℕ → Bool) → String → String
take_while test [] = []
take_while test (c ∷ s) = let rest = take_while test s in if test (code c) then c ∷ rest else []

-- A match of `(a|b|…)\b` at the beginning of the text.
unfoldable pub word_here : List String → String → Option String
unfolding starts_word strip_prefix
word_here List.[] s = none
word_here (List.◌∷◌ w ws) s = elim (strip_prefix w s) [
  | none ↦ word_here ws s
  | some rest ↦ if starts_word rest then word_here ws s else some w
]

-- The group of `re.search(r"\b(a|b|…)\b", text)`. Here and below, the first argument says whether
-- the character before is of a word.
unfoldable pub search_word : Bool → List String → String → Option String
unfolding word_here
search_word before ws [] = none
search_word before ws (c ∷ s) = elim (if before then none else word_here ws (c ∷ s)) [
  | none ↦ search_word (is_word (code c)) ws s
  | some w ↦ some w
]

-- A match of `name=(…+)` at the beginning of the text, for characters that pass a test.
unfoldable pub value_here : (ℕ → Bool) → String → String → Option String
unfolding take_while strip_prefix
value_here test name s = elim (strip_prefix name s) [
  | none ↦ none
  | some rest ↦ elim (take_while test rest) [ [] ↦ none | c ∷ value ↦ some (c ∷ value) ]
]

-- The group of `re.search(r"\bname=(…+)", text)`.
unfoldable pub search_value : Bool → (ℕ → Bool) → String → String → Option String
unfolding value_here
search_value before test name [] = none
search_value before test name (c ∷ s) =
    elim (if before then none else value_here test name (c ∷ s)) [
      | none ↦ search_value (is_word (code c)) test name s
      | some value ↦ some value
    ]

-- `\S` and `\d`
abbrev pub non_space : ℕ → Bool
non_space c = not (is_space c)

-- `int(digits)`, from the number that the digits before make.
unfoldable pub int_after : ℕ → String → ℕ
int_after n [] = n
int_after n (c ∷ s) = int_after (n * 10 + (code c - b'0')) s

unfoldable pub int : String → ℕ
unfolding int_after
int s = int_after 0 s

-- `text.isdigit()`, with the empty text's answer.
unfoldable pub all_digits : String → Bool
all_digits [] = true
all_digits (c ∷ s) = is_digit (code c) && all_digits s

unfoldable pub isdigit : String → Bool
unfolding all_digits
isdigit [] = false
isdigit (c ∷ s) = all_digits (c ∷ s)

-- A character before the first of the parts.
unfoldable pub onto_first : Char → List String → List String
onto_first c List.[] = List.◌∷◌ (c ∷ []) List.[]
onto_first c (List.◌∷◌ part parts) = List.◌∷◌ (c ∷ part) parts

-- `text.splitlines()`; the first argument says whether the character before is `\r`.
unfoldable pub split_lines : Bool → String → List String
unfolding onto_first
split_lines after_cr [] = List.[]
split_lines after_cr (c ∷ s) =
    let rest = split_lines (code c == 13) s in
    if after_cr && code c == 10
    then rest
    else if is_line_end (code c)
    then List.◌∷◌ "" rest
    else onto_first c rest

-- `text.split(sep)`, for a separator of one character.
unfoldable pub split_at : ℕ → String → List String
unfolding onto_first
split_at sep [] = List.◌∷◌ "" List.[]
split_at sep (c ∷ s) =
    let rest = split_at sep s in if code c == sep then List.◌∷◌ "" rest else onto_first c rest

-- The text from the first match of a part on, if there is one.
unfoldable pub from_match : String → String → Option String
unfolding strip_prefix
from_match part [] = none
from_match part (c ∷ s) = elim (strip_prefix part (c ∷ s)) [
  | none ↦ from_match part s
  | some _ ↦ some (c ∷ s)
]

-- `text[n:]`
unfoldable pub drop_chars : ℕ → String → String
drop_chars zero s = s
drop_chars (suc n) [] = []
drop_chars (suc n) (c ∷ s) = drop_chars n s
