-- ===== src/Alerts/Siem/Header.antt =====
-- The header of a CEF line, read back.
use Prim.Native.Char.{Char, char, code}
use Prim.Native.String.{◌++◌}
use text.Mathlib.TextEquality.{Char-path}
use text.Mathlib.TextLemmas.{cons-append, nil-append, append_assoc}
use sentinel_pi.Prelude.{
  ℕ, zero, suc, ◌≡◌, refl, String, Bool, Bool-cases, true, false, not, ◌&&◌, ◌||◌, All, Option,
  none, some, inl, inr, List, [], ◌∷◌, map, length, drop, ◌==◌, if◌then◌else◌, arith,
}
use sentinel_pi.Models.{Alert}
use sentinel_pi.Text.{replace}
use sentinel_pi.Text.Replace.{replace-cons}
use sentinel_pi.Alerts.Siem.{escape_header, join, header_parts, extension, format_cef}

-- A line feed or a carriage return.
abbrev pub is_break : Char → Bool
is_break c = code c == 10 || code c == 13

abbrev pub has_no_break : String → Bool
has_no_break String.[] = true
has_no_break (String.◌∷◌ c s) = not (is_break c) && has_no_break s

-- Reads a field of a header as a consumer of lines does: up to a bar, where a backslash takes the
-- next character as it is. `none` says that the line or the text ended before a bar came.
pub read_field : Bool → String → String × Option String
read_field quoted String.[] = ("", none)
read_field quoted (String.◌∷◌ c s) =
    let rest = read_field (not quoted && code c == 92) s in
    if is_break c
    then ("", none)
    else if quoted
    then (String.◌∷◌ c rest.0, rest.1)
    else if code c == 92
    then rest
    else if code c == 124
    then ("", some s)
    else (String.◌∷◌ c rest.0, rest.1)

add_field : String → Option (List String × String) → Option (List String × String)
add_field field none = none
add_field field (some (fields, after)) = some (field ∷ fields, after)

read_on :
    String × Option String
    → (String → Option (List String × String))
    → Option (List String × String)
unfolding add_field
read_on (field, none) next = none
read_on (field, some rest) next = add_field field (next rest)

-- The first fields and what follows them, if there are as many.
pub read_fields : ℕ → String → Option (List String × String)
unfolding read_field read_on
read_fields zero s = some ([], s)
read_fields (suc n) s = read_on (read_field false s) (read_fields n)

-- The two replacements, character by character.
replace_backslash :
    (c : Char) (s : String)
    → replace "\\" "\\\\" (String.◌∷◌ c s) ≡ (
        if 92 == code c
        then "\\\\" ++ replace "\\" "\\\\" s
        else String.◌∷◌ c (replace "\\" "\\\\" s))
replace_backslash c s = replace-cons _ "\\\\" c s

replace_bar :
    (c : Char) (s : String)
    → replace "|" "\\|" (String.◌∷◌ c s)
      ≡ (if 124 == code c then "\\|" ++ replace "|" "\\|" s else String.◌∷◌ c (replace "|" "\\|" s))
replace_bar c s = replace-cons _ "\\|" c s

abbrev has_no_bar : String → Bool
has_no_bar String.[] = true
has_no_bar (String.◌∷◌ c s) = not (124 == code c) && has_no_bar s

replace_bar-append :
    (w s : String) → has_no_bar w ≡ true → replace "|" "\\|" (w ++ s) ≡ w ++ replace "|" "\\|" s
replace_bar-append String.[] s h = rw (nil-append s, nil-append (replace "|" "\\|" s)) refl
replace_bar-append (String.◌∷◌ c w) s h =
    rw (cons-append c w s, cons-append c w (replace "|" "\\|" s))
      (ground (arith, h, replace_bar c (w ++ s), replace_bar-append w s))

escape_header-backslash :
    (c : Char) (s : String)
    → (code c == 92) ≡ true
    → escape_header (String.◌∷◌ c s) ≡ "\\\\" ++ escape_header s
unfolding escape_header
escape_header-backslash c s h =
    let first : (92 == code c) ≡ true = ground (arith, h) in
    let rest = replace "\\" "\\\\" s in
    let inner : replace "\\" "\\\\" (String.◌∷◌ c s) ≡ "\\\\" ++ rest =
      ground (arith, first, replace_backslash c s) in
    rw inner (replace_bar-append "\\\\" rest refl)

escape_header-bar :
    (c : Char) (s : String)
    → (code c == 124) ≡ true
    → escape_header (String.◌∷◌ c s) ≡ "\\|" ++ escape_header s
unfolding escape_header
escape_header-bar c s h =
    let rest = replace "\\" "\\\\" s in
    let inner : replace "\\" "\\\\" (String.◌∷◌ c s) ≡ String.◌∷◌ c rest =
      ground (arith, h, replace_backslash c s) in
    rw inner (ground (arith, h, replace_bar c rest))

escape_header-other :
    (c : Char) (s : String)
    → (code c == 92) ≡ false
    → (code c == 124) ≡ false
    → escape_header (String.◌∷◌ c s) ≡ String.◌∷◌ c (escape_header s)
unfolding escape_header
escape_header-other c s h k =
    let rest = replace "\\" "\\\\" s in
    let inner : replace "\\" "\\\\" (String.◌∷◌ c s) ≡ String.◌∷◌ c rest =
      ground (arith, h, replace_backslash c s) in
    rw inner (ground (arith, k, replace_bar c rest))

abbrev backslash : Char
backslash = char 92 tt

abbrev bar : Char
bar = char 124 tt

two :
    (c d : Char) (s : String) → String.◌∷◌ c (String.◌∷◌ d "") ++ s ≡ String.◌∷◌ c (String.◌∷◌ d s)
two c d s = rw (cons-append c (String.◌∷◌ d "") s, cons-append d "" s, nil-append s) refl

read_quoted :
    (c : Char) (s : String)
    → is_break c ≡ false
    → read_field false (String.◌∷◌ backslash (String.◌∷◌ c s))
      ≡ (String.◌∷◌ c (read_field false s).0, (read_field false s).1)
unfolding read_field
read_quoted c s b = rw b refl

read_plain :
    (c : Char) (s : String)
    → (code c == 92) ≡ false
    → (code c == 124) ≡ false
    → is_break c ≡ false
    → read_field false (String.◌∷◌ c s)
      ≡ (String.◌∷◌ c (read_field false s).0, (read_field false s).1)
unfolding read_field
read_plain c s e f b = ground (arith, e, f, b)

-- A field that was escaped reads back, up to the bar that ends it.
read_field-escape :
    (v rest : String)
    → has_no_break v ≡ true
    → read_field false (escape_header v ++ ("|" ++ rest)) ≡ (v, some rest)
read_field-escape String.[] rest h =
    unfold escape_header replace read_field in
    rw (nil-append ("|" ++ rest), cons-append bar "" rest, nil-append rest) refl
read_field-escape (String.◌∷◌ c v) rest h =
    let here : is_break c ≡ false = ground (arith, h) in
    let later : has_no_break v ≡ true = ground (arith, h) in
    let more = escape_header v ++ ("|" ++ rest) in
    elim (Bool-cases (code c == 92)) [
      | inl e ↦
          let same = Char-path c backslash (ground (arith, e)) in
          rw
            (
              escape_header-backslash c v e,
              append_assoc "\\\\" (escape_header v) ("|" ++ rest),
              two backslash backslash more,
              read_quoted backslash more refl,
              read_field-escape v rest later,
              same,
            )
            refl
      | inr e ↦ elim (Bool-cases (code c == 124)) [
        | inl f ↦
            let same = Char-path c bar (ground (arith, f)) in
            rw
              (
                escape_header-bar c v f,
                append_assoc "\\|" (escape_header v) ("|" ++ rest),
                two backslash bar more,
                read_quoted bar more refl,
                read_field-escape v rest later,
                same,
              )
              refl
        | inr f ↦
            rw
              (
                escape_header-other c v e f,
                cons-append c (escape_header v) ("|" ++ rest),
                read_plain c more e f here,
                read_field-escape v rest later,
              )
              refl
      ]
    ]

read_fields-join :
    (part : String) (parts : List String) (rest : String)
    → All (λ p. has_no_break p ≡ true) (part ∷ parts)
    → read_fields
        (length (part ∷ parts))
        (join "|" (map escape_header (part ∷ parts)) ++ ("|" ++ rest))
      ≡ some (part ∷ parts, rest)
unfolding read_fields read_on add_field join
read_fields-join part [] rest h = rw (read_field-escape part rest h.0, read_fields) refl
read_fields-join part (next ∷ parts) rest h =
    let tail = join "|" (map escape_header (next ∷ parts)) in
    rw
      (
        append_assoc (escape_header part) ("|" ++ tail) ("|" ++ rest),
        append_assoc "|" tail ("|" ++ rest),
        read_field-escape part (tail ++ ("|" ++ rest)) h.0,
        read_fields-join next parts rest h.1,
        read_fields,
      )
      refl

-- If no field of the header has a line break, the header of the CEF line of an alert reads back as
-- the seven fields that were written, whatever bars and backslashes they hold, and what follows
-- them is the extension. The reader stops at a line break.
pub read_fields-format_cef :
    (product_version iso confidence action : String) (a : Alert)
    → All (λ p. has_no_break p ≡ true) (header_parts product_version a)
    → read_fields 7 (format_cef product_version iso confidence action a)
      ≡ some (header_parts product_version a, extension iso confidence action a)
unfolding format_cef header_parts
read_fields-format_cef product_version iso confidence action a h =
    read_fields-join "CEF:0" (drop 1 (header_parts product_version a))
      (extension iso confidence action a) h
