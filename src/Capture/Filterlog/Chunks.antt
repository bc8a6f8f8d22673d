-- ===== src/Capture/Filterlog/Chunks.antt =====
-- A log that grows is read in pieces: the lines come out whole, each once.
use Prim.Native.Char.{Char, code}
use Prim.Native.String.{◌++◌, count}
use Prim.Native.String.count
use text.Mathlib.TextLemmas.{
  cons-append, nil-append, append_assoc as text-append_assoc, length-append as count-append,
  append-nil as text-append_nil,
}
use mathlib.Core.List.{◌++◌ as append}
use sentinel_pi.Prelude.{
  ℕ, ◌≡◌, refl, max, String, Bool-cases, false, some, inl, inr, List, [], ◌∷◌, ◌==◌, if◌then◌else◌,
  arith,
}
use sentinel_pi.Text.{contains, strip_prefix}
use sentinel_pi.Text.Search.{split_at, onto_first, drop_chars}
use sentinel_pi.Capture.Filterlog.{
  LogFile, Tail, start, unsnoc, follow_file, take_lines, read_new_lines,
}

-- The whole lines of a text, and what follows the last of them.
pub whole_lines : String → List String × String
whole_lines s = unsnoc (split_at 10 s)

-- A character before the first line.
onto : Char → List String × String → List String × String
onto c ([], rest) = ([], String.◌∷◌ c rest)
onto c (l ∷ ls, rest) = (String.◌∷◌ c l ∷ ls, rest)

unsnoc-onto_first :
    (c : Char) (part : String) (parts : List String)
    → unsnoc (onto_first c (part ∷ parts)) ≡ onto c (unsnoc (part ∷ parts))
unfolding unsnoc onto_first onto
unsnoc-onto_first c part [] = refl
unsnoc-onto_first c part (next ∷ parts) = refl

unsnoc-cons :
    (part next : String) (parts : List String)
    → unsnoc (part ∷ next ∷ parts) ≡ (part ∷ (unsnoc (next ∷ parts)).0, (unsnoc (next ∷ parts)).1)
unfolding unsnoc
unsnoc-cons part next parts = refl

-- A text has a first part.
split_at-cons :
    (sep : ℕ) (s : String)
    → (part : String) × (parts : List String) × (split_at sep s ≡ part ∷ parts)
unfolding split_at onto_first
split_at-cons sep String.[] = ("", [], refl)
split_at-cons sep (String.◌∷◌ c s) =
    let h = split_at-cons sep s in
    elim (Bool-cases (code c == sep)) [
      | inl e ↦ ("", split_at sep s, rw e refl)
      | inr e ↦ (String.◌∷◌ c h.0, h.1, rw (e, h.2) refl)
    ]

whole_lines-cons :
    (c : Char) (s : String)
    → whole_lines (String.◌∷◌ c s) ≡ (
        if code c == 10
        then ("" ∷ (whole_lines s).0, (whole_lines s).1)
        else onto c (whole_lines s))
unfolding whole_lines split_at
whole_lines-cons c s =
    let h = split_at-cons 10 s in
    elim (Bool-cases (code c == 10)) [
      | inl e ↦ rw (e, h.2) (unsnoc-cons "" h.0 h.1)
      | inr e ↦ rw (e, h.2) (unsnoc-onto_first c h.0 h.1)
    ]

rest-step :
    (c : Char) (w : List String × String)
    → (code c == 10) ≡ false
    → whole_lines w.1 ≡ ([], w.1)
    → whole_lines (onto c w).1 ≡ ([], (onto c w).1)
unfolding onto
rest-step c ([], rest) e h = rw (whole_lines-cons c rest, e, h) refl
rest-step c (l ∷ ls, rest) e h = h

-- What follows the last line is no whole line.
rest-whole : (s : String) → whole_lines (whole_lines s).1 ≡ ([], (whole_lines s).1)
rest-whole String.[] = unfold whole_lines split_at unsnoc in refl
rest-whole (String.◌∷◌ c s) = elim (Bool-cases (code c == 10)) [
  | inl e ↦ rw (whole_lines-cons c s, e) (rest-whole s)
  | inr e ↦ rw (whole_lines-cons c s, e) (rest-step c (whole_lines s) e (rest-whole s))
]

-- The lines of `w`, then those of its rest with `a` after it.
abbrev followed : List String × String → String → List String × String
followed w a = let more = whole_lines (w.1 ++ a) in (append w.0 more.0, more.1)

append-step :
    (c : Char) (w : List String × String) (a : String)
    → (code c == 10) ≡ false
    → onto c (followed w a) ≡ followed (onto c w) a
unfolding onto
append-step c ([], rest) a e = rw (cons-append c rest a, whole_lines-cons c (rest ++ a), e) refl
append-step c (l ∷ ls, rest) a e = refl

-- The lines of a text and of what is appended to it.
whole_lines-append : (s a : String) → whole_lines (s ++ a) ≡ followed (whole_lines s) a
whole_lines-append String.[] a = unfold whole_lines split_at unsnoc in refl
whole_lines-append (String.◌∷◌ c s) a = elim (Bool-cases (code c == 10)) [
  | inl e ↦
      rw
        (
          cons-append c s a,
          whole_lines-cons c (s ++ a),
          whole_lines-cons c s,
          e,
          whole_lines-append s a,
        )
        refl
  | inr e ↦
      rw
        (
          cons-append c s a,
          whole_lines-cons c (s ++ a),
          whole_lines-cons c s,
          e,
          whole_lines-append s a,
        )
        (append-step c (whole_lines s) a e)
]

no_line_end :
    (c : Char) (s : String)
    → contains "\n" (String.◌∷◌ c s) ≡ false
    → ((code c == 10) ≡ false) × (contains "\n" s ≡ false)
unfolding contains strip_prefix
no_line_end c s h = elim (Bool-cases (10 == code c)) [
  | inl e ↦ ground (arith, h)
  | inr e ↦ ground (arith, h)
]

-- A text with no line end is all rest.
whole_lines-none : (s : String) → contains "\n" s ≡ false → whole_lines s ≡ ([], s)
whole_lines-none String.[] h = unfold whole_lines split_at unsnoc in refl
whole_lines-none (String.◌∷◌ c s) h =
    let l = no_line_end c s h in
    rw (whole_lines-cons c s, l.0, whole_lines-none s l.1) (unfold onto in refl)

-- The lines come out of the buffer and the text together.
take_lines_lem :
    (text : String) (s : Tail)
    → take_lines text s
      ≡ ((whole_lines (s.buf ++ text)).0, record s { buf = (whole_lines (s.buf ++ text)).1 })
unfolding take_lines whole_lines
take_lines_lem text s = elim (Bool-cases (contains "\n" (s.buf ++ text))) [
  | inl e ↦ rw e refl
  | inr e ↦ let w = whole_lines-none (s.buf ++ text) e in rw (e, w) refl
]

-- The file as it is at a poll, when it has grown to a text.
pub log : ℕ → String → LogFile
log inode text = record { inode = inode; size = count text; content = some text }

-- A poll after each of the appends, to a file that begins as `text`.
pub follow : ℕ → String → List String → Tail → List String × Tail
unfolding log
follow inode text [] s = ([], s)
follow inode text (a ∷ more) s =
    let read = read_new_lines (some (log inode (text ++ a))) s in
    let rest = follow inode (text ++ a) more read.1 in (append read.0 rest.0, rest.1)

pub join : List String → String
join [] = ""
join (a ∷ more) = a ++ join more

-- A tail that has read the text, and keeps `buf` of it.
abbrev at_end : ℕ → String → String → Tail
at_end inode text buf = record { offset = count text; inode = some inode; buf = buf }

drop_chars-append : (s t : String) → drop_chars (count s) (s ++ t) ≡ t
unfolding drop_chars
drop_chars-append String.[] t = nil-append t
drop_chars-append (String.◌∷◌ c s) t =
    rw (cons-append c s t, count.cons c s) (drop_chars-append s t)

follow_file_same :
    (inode : ℕ) (text a buf : String)
    → follow_file (log inode (text ++ a)) (at_end inode text buf) ≡ at_end inode text buf
unfolding follow_file log
follow_file_same inode text a buf = ground (arith, count-append text a)

count_zero : (a : String) → count a ≡ 0 → a ≡ ""
count_zero String.[] h = refl
count_zero (String.◌∷◌ c a) h = ground (arith, h, count.cons c a)

-- One poll after an append.
read_new_lines-append :
    (inode : ℕ) (text a buf : String)
    → whole_lines buf ≡ ([], buf)
    → let w = whole_lines (buf ++ a) in
      read_new_lines (some (log inode (text ++ a))) (at_end inode text buf)
      ≡ (w.0, at_end inode (text ++ a) w.1)
unfolding read_new_lines log
read_new_lines-append inode text a buf h =
    let grown = count-append text a in
    elim (Bool-cases (count (text ++ a) == count text)) [
      | inl e ↦
          let empty = count_zero a (ground (arith, e, grown)) in
          rw
            (
              follow_file_same inode text a buf,
              e,
              empty,
              text-append_nil buf,
              text-append_nil text,
              h,
            )
            refl
      | inr e ↦
          let furthest : max (count text) (count (text ++ a)) ≡ count (text ++ a) =
            omega (arith, grown) in
          rw (follow_file_same inode text a buf, e, drop_chars-append text a, furthest)
            (take_lines_lem a (at_end inode (text ++ a) buf))
    ]

follow_lem :
    (inode : ℕ) (text : String) (more : List String) (buf : String)
    → whole_lines buf ≡ ([], buf)
    → let w = whole_lines (buf ++ join more) in
      follow inode text more (at_end inode text buf) ≡ (w.0, at_end inode (text ++ join more) w.1)
unfolding follow join
follow_lem inode text [] buf h = rw (text-append_nil buf, text-append_nil text, h) refl
follow_lem inode text (a ∷ more) buf h =
    let w = whole_lines (buf ++ a) in
    rw
      (
        read_new_lines-append inode text a buf h,
        follow_lem inode (text ++ a) more w.1 (rest-whole (buf ++ a)),
        ← text-append_assoc buf a (join more),
        whole_lines-append (buf ++ a) (join more),
        text-append_assoc text a (join more),
      )
      refl

-- However a log grows between the polls of a source that was started at its end, the polls give the
-- whole lines of the text that was appended since, each once and in order, as one reading of that text
-- does; the beginning of a line that is not finished is kept.
pub follow-start :
    (inode : ℕ) (text : String) (more : List String)
    → let w = whole_lines (join more) in
      follow inode text more (start (log inode text))
      ≡ (w.0, record { offset = count (text ++ join more); inode = some inode; buf = w.1 })
unfolding start log
follow-start inode text more =
    rw
      (
        follow_lem inode text more "" (unfold whole_lines split_at unsnoc in refl),
        nil-append (join more),
      )
      refl
