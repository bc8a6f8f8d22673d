-- ===== src/Capture/Addresses.antt =====
-- The addresses that capture/flow_ingest.py prints: `socket.inet_ntoa` and `socket.inet_ntop` of
-- `AF_INET6`, which writes `::` for the longest run of two or more zero words.
use Prim.Native.String.{◌++◌}
use sentinel_pi.Prelude.{
  ℕ, zero, suc, ◌+◌, ◌-◌, ◌/◌, ◌%◌, String, ◌&&◌, ◌||◌, List, Option, take, drop, none, some,
  get_elem?, ltb, leb, ◌==◌, if◌then◌else◌,
}
use mathlib.Core.List.{[], ◌∷◌}
use sentinel_pi.Text.Show.{show}
use sentinel_pi.Capture.Bytes.{Bytes, from_bytes, unpack}

-- `inet_ntoa`, for the four bytes that its callers pass.
unfoldable pub inet_ntoa : Bytes → String
inet_ntoa (a ∷ b ∷ c ∷ d ∷ []) = show a ++ "." ++ show b ++ "." ++ show c ++ "." ++ show d
inet_ntoa _ = ""

hex_letters : List String
hex_letters = "a" ∷ "b" ∷ "c" ∷ "d" ∷ "e" ∷ "f" ∷ []

hex_digit : ℕ → String
unfolding hex_letters
hex_digit d =
    if ltb d 10 then show d else elim (get_elem? hex_letters (d - 10)) [ none ↦ "" | some s ↦ s ]

hex_from : ℕ → ℕ → String
unfolding hex_digit
hex_from zero n = ""
hex_from (suc fuel) n =
    let front = hex_from fuel (n / 16) in
    if ltb n 16 then hex_digit n else front ++ hex_digit (n % 16)

-- `%x`, of a number of two bytes.
hex : ℕ → String
unfolding hex_from
hex n = hex_from 4 n

-- A run of zero words: where it begins and how many there are.
pub record Run : Type 0 where
  pub start : ℕ
  pub count : ℕ

-- The longest run, the first if several are: `run` ends before word `i`, `best` is the longest of
-- those before it.
longest : List ℕ → ℕ → Run → Run → Run
longest [] i run best = best
longest (w ∷ ws) i run best =
    let run' : Run =
      if w == 0
      then record { start = if run.count == 0 then i else run.start; count = run.count + 1 }
      else record { start = 0; count = 0 } in
    longest ws (i + 1) run' (if ltb best.count run'.count then run' else best)

-- The words from number `i` on, given the run that `::` stands for and whether the last two words
-- are written as an IPv4 address.
words_from : List ℕ → ℕ → Run → Option String → String
unfolding hex
words_from [] i run v4 = if ltb 1 run.count && (run.start + run.count) == 8 then ":" else ""
words_from (w ∷ ws) i run v4 =
    let rest = words_from ws (i + 1) run v4 in
    let colon = if i == 0 then "" else ":" in
    if ltb 1 run.count && leb run.start i && ltb i (run.start + run.count)
    then (if i == run.start then ":" ++ rest else rest)
    else if i == 6
    then elim v4 [ none ↦ colon ++ (hex w ++ rest) | some dotted ↦ colon ++ dotted ]
    else colon ++ (hex w ++ rest)

-- `inet_ntop(AF_INET6, …)`
unfoldable pub inet_ntop6 : Bytes → String
unfolding longest words_from
inet_ntop6 bs =
    let words = unpack (2 ∷ 2 ∷ 2 ∷ 2 ∷ 2 ∷ 2 ∷ 2 ∷ 2 ∷ []) bs in
    let none_yet : Run = record { start = 0; count = 0 } in
    let run = longest words 0 none_yet none_yet in
    let embedded =
      run.start == 0
      && (run.count == 6 || (run.count == 5 && from_bytes (take 2 (drop 10 bs)) == 65535)) in
    words_from words 0 run (if embedded then some (inet_ntoa (drop 12 bs)) else none)
