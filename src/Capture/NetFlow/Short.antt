-- ===== src/Capture/NetFlow/Short.antt =====
-- A datagram of at most 1785 bytes has no protocol number that `str` refuses, so that parsing it raises
-- nothing.
use sentinel_pi.Prelude.{
  ℕ, zero, suc, ◌+◌, ◌-◌, ◌*◌, ◌/◌, ◌≤◌, ◌<◌, ◌≡◌, refl, subst, Bool, false, ◌&&◌, ◌||◌, not, min,
  eqb, string_key, List, [], ◌∷◌, Option, none, some, length, length-take, length-drop, take, drop,
  All, ltb, leb, leb→le, ◌==◌, nat_key, if_intro, arith, Option-cases, inl, inr,
}
use sentinel_pi.Prelude.Dict.{get}
use sentinel_pi.Capture.Bytes.{Bytes, from_bytes, from_bytes_after, limit, calcsize}
use sentinel_pi.Capture.NetFlow.{
  Field, Draft, Templates, Dialect, no_draft, assign, decode_fields, lengths, read_set, word_0,
  word_1,
}
use sentinel_pi.Capture.NetFlow.Raises.{
  str_limit, record_raises, records_raise, data_set_raises, set_raises, walk_raises, parse_raises,
}

-- Bytes, and at most so many.
pub record AreBytes (n : ℕ) (bs : Bytes) : Type 0 where
  pub short : length bs ≤ n
  pub small : All (λ b. b < 256) bs

All-take : (n : ℕ) (bs : Bytes) → All (λ b. b < 256) bs → All (λ b. b < 256) (take n bs)
All-take zero bs h = tt
All-take (suc n) [] h = tt
All-take (suc n) (b ∷ bs) h = (h.0, All-take n bs h.1)

All-drop : (n : ℕ) (bs : Bytes) → All (λ b. b < 256) bs → All (λ b. b < 256) (drop n bs)
All-drop zero bs h = h
All-drop (suc n) [] h = tt
All-drop (suc n) (b ∷ bs) h = All-drop n bs h.1

take-AreBytes : (n k : ℕ) (bs : Bytes) → AreBytes n bs → AreBytes n (take k bs)
take-AreBytes n k bs h = record {
  short = omega (arith, length-take k bs, h.short);
  small = All-take k bs h.small;
}

drop-AreBytes : (n k : ℕ) (bs : Bytes) → AreBytes n bs → AreBytes n (drop k bs)
drop-AreBytes n k bs h = record {
  short = omega (arith, length-drop k bs, h.short);
  small = All-drop k bs h.small;
}

from_bytes_after-limit :
    (n m : ℕ) (bs : Bytes)
    → n < limit m
    → All (λ b. b < 256) bs
    → from_bytes_after n bs < limit (length bs + m)
unfolding from_bytes_after limit
from_bytes_after-limit n m [] h k = let same : 0 + m ≡ m = omega arith in rw same h
from_bytes_after-limit n m (b ∷ bs) h k =
    let more = from_bytes_after-limit (n * 256 + b) (suc m) bs (omega (arith, h, k.0)) k.1 in
    let same : length bs + suc m ≡ suc (length bs) + m = omega arith in
    subst (λ k. from_bytes_after (n * 256 + b) bs < limit k) same more

limit_mono : (a b : ℕ) → a ≤ b → limit a ≤ limit b
unfolding limit
limit_mono zero zero h = omega arith
limit_mono (suc a) zero h = elim h [ ]
limit_mono zero (suc b) h = omega (arith, limit_mono zero b (omega arith))
limit_mono (suc a) (suc b) h = omega (arith, limit_mono a b (omega (arith, h)))

from_bytes-limit : (n : ℕ) (bs : Bytes) → AreBytes n bs → from_bytes bs < limit n
unfolding from_bytes
from_bytes-limit n bs h =
    let one : 0 < limit 0 = unfold limit in omega arith in
    omega (
      arith,
      from_bytes_after-limit 0 0 bs one h.small,
      limit_mono (length bs + 0) n (omega (arith, h.short)),
    )

assign-proto_num :
    (f : Field) (chunk : Bytes) (d : Draft) (m : ℕ)
    → from_bytes chunk < m
    → d.proto_num < m
    → (assign f chunk d).proto_num < m
unfolding assign
assign-proto_num (ftype, flen) chunk d m h k = ground (arith, h, k)

-- What was decoded has a protocol number below the bound.
abbrev IsBelow : ℕ → Option Draft → Type 0
IsBelow m none = Unit
IsBelow m (some d) = d.proto_num < m

decode_fields-IsBelow :
    (n : ℕ) (fields : List Field) (raw : Bytes) (d : Draft)
    → AreBytes n raw
    → d.proto_num < limit n
    → IsBelow (limit n) (decode_fields fields raw d)
unfolding decode_fields
decode_fields-IsBelow n [] raw d h k = k
decode_fields-IsBelow n ((ftype, flen) ∷ fields) raw d h k =
    let chunk = take flen raw in
    if_intro (IsBelow (limit n)) (ltb (length chunk) flen) (λ _. tt)
      (λ _.
        decode_fields-IsBelow n fields (drop flen raw) (assign (ftype, flen) chunk d)
          (drop-AreBytes n flen raw h)
          (assign-proto_num (ftype, flen) chunk d (limit n)
            (from_bytes-limit n chunk (take-AreBytes n flen raw h)) k))

limit_pos : (n : ℕ) → 0 < limit n
unfolding limit
limit_pos zero = omega arith
limit_pos (suc n) = omega (arith, limit_pos n)

module _ (n : ℕ) (fits : limit n ≤ str_limit) where
  record_raises-short :
      (fields : List Field) (raw : Bytes) → AreBytes n raw → record_raises fields raw ≡ false
  unfolding record_raises
  record_raises-short fields raw h =
      go (decode_fields fields raw no_draft)
        (decode_fields-IsBelow n fields raw no_draft h (limit_pos n))
    where
      go :
          (o : Option Draft)
          → IsBelow (limit n) o
          → elim o as (λ _. Bool) [
            | none ↦ false
            | some d ↦ not (eqb d.src_ip "" || eqb d.dst_ip "") && leb str_limit d.proto_num
          ]
            ≡ false
      go none k = refl
      go (some d) k =
          let below : leb str_limit d.proto_num ≡ false = ground (arith, k, fits) in
          ground (arith, below)

  records_raise-short :
      (fields : List Field) (record_len count : ℕ) (body : Bytes)
      → AreBytes n body
      → records_raise fields record_len count body ≡ false
  unfolding records_raise
  records_raise-short fields record_len zero body h = refl
  records_raise-short fields record_len (suc count) body h =
      rw
        (
          record_raises-short fields (take record_len body) (take-AreBytes n record_len body h),
          records_raise-short fields record_len count (drop record_len body)
              (drop-AreBytes n record_len body h),
        )
        refl

  set_raises-short :
      (dialect : Dialect) (set_id : ℕ) (body : Bytes) (seen : ℕ) (ts : Templates)
      → AreBytes n body
      → set_raises dialect set_id body seen ts ≡ false
  unfolding set_raises data_set_raises
  set_raises-short dialect set_id body seen ts h = elim (Option-cases (get set_id ts)) [
    | inl e ↦ ground (arith, e)
    | inr ([], e) ↦ ground (arith, e)
    | inr ((f ∷ fs), e) ↦
        let record_len = calcsize (lengths (f ∷ fs)) in
        ground (
          arith,
          e,
          records_raise-short (f ∷ fs) record_len
              (min (length body / record_len) (dialect.max_records - seen)) body h,
        )
  ]

  walk_raises-short :
      (dialect : Dialect) (fuel : ℕ) (rest : Bytes) (seen : ℕ) (ts : Templates)
      → AreBytes n rest
      → walk_raises dialect fuel rest seen ts ≡ none
  unfolding walk_raises
  walk_raises-short dialect zero rest seen ts h = refl
  walk_raises-short dialect (suc fuel) rest seen ts h =
      let set_len = word_1 rest in
      let body = drop 4 (take set_len rest) in
      let r = read_set dialect (word_0 rest) body seen ts in
      let quiet =
        set_raises-short dialect (word_0 rest) body seen ts
          (drop-AreBytes n 4 (take set_len rest) (take-AreBytes n set_len rest h)) in
      let more =
        walk_raises-short dialect fuel (drop set_len rest) r.records_seen r.templates
          (drop-AreBytes n set_len rest h) in
      ground (arith, quiet, more)

  parse_raises-short :
      (bs : Bytes) (ts : Templates) (max_records : ℕ)
      → AreBytes n bs
      → parse_raises bs ts max_records ≡ none
  unfolding parse_raises
  parse_raises-short bs ts max_records h =
      if_intro (λ (o : Option Templates). o ≡ none) (ltb (length bs) 2) (λ _. refl)
        (λ _.
          if_intro (λ (o : Option Templates). o ≡ none) (word_0 bs == 9 && leb 20 (length bs))
            (λ _. walk_raises-short _ (length bs) (drop 20 bs) 0 ts (drop-AreBytes n 20 bs h))
            (λ _.
              if_intro (λ (o : Option Templates). o ≡ none) (word_0 bs == 10 && leb 16 (length bs))
                (λ _. walk_raises-short _ (length bs) (drop 16 bs) 0 ts (drop-AreBytes n 16 bs h))
                (λ _. refl)))

-- A number of 1785 bytes has at most 4300 digits.
limit-str_limit : limit 1785 ≤ str_limit
unfolding limit str_limit
limit-str_limit = leb→le (limit 1785) str_limit refl

pub parse_raises-none :
    (bs : Bytes) (ts : Templates) (max_records : ℕ)
    → AreBytes 1785 bs
    → parse_raises bs ts max_records ≡ none
parse_raises-none = parse_raises-short 1785 limit-str_limit
