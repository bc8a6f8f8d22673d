-- ===== src/Capture/NetFlow/Export/Record.antt =====
-- The flow that a template's fields and their values stand for, and the records that
-- `_decode_v9_record` reads as such flows.
use mathlib.Core.List.{append_assoc}
use native.Mathlib.Nat.{div-lt_iff_lt-mul, le-div_iff_mul-le}
use sentinel_pi.Prelude.{
  ℕ, zero, suc, ◌+◌, ◌*◌, ◌/◌, ◌≤◌, ◌<◌, ◌≡◌, refl, ◌&&◌, List, [], ◌∷◌, ◌++◌, Option, some, length,
  length-append, take, take-front, drop-front, All, arith, ◌==◌, if◌then◌else◌, none, eqb,
  string_key, Option-cases, inl, inr,
}
use sentinel_pi.Capture.{FlowRecord}
use sentinel_pi.Capture.Addresses.{inet_ntoa, inet_ntop6}
use sentinel_pi.Capture.Bytes.{
  Bytes, to_bytes, from_bytes-to_bytes, length-to_bytes, pack, limit, calcsize, IsPackable,
  length-pack,
}
use sentinel_pi.Capture.NetFlow.Export.Names.{protocol_text, proto_name_lem}
use sentinel_pi.Capture.NetFlow.{
  Field, Draft, no_draft, assign, decode_fields, decode_v9_record, finish, lengths, data_records,
  with_record,
}

-- What the value of a field says of the flow: the elements 8, 12, 27, 28 are addresses, 7 and 11
-- ports, 4 the protocol and 1 the number of bytes.
unfoldable pub put_value : Field → ℕ → Draft → Draft
put_value (ftype, flen) v d =
    if ftype == 8 && flen == 4
    then record d { src_ip = inet_ntoa (to_bytes 4 v) }
    else if ftype == 12 && flen == 4
    then record d { dst_ip = inet_ntoa (to_bytes 4 v) }
    else if ftype == 27 && flen == 16
    then record d { src_ip = inet_ntop6 (to_bytes 16 v) }
    else if ftype == 28 && flen == 16
    then record d { dst_ip = inet_ntop6 (to_bytes 16 v) }
    else if ftype == 7
    then record d { src_port = v }
    else if ftype == 11
    then record d { dst_port = v }
    else if ftype == 4
    then record d { proto_num = v }
    else if ftype == 1
    then record d { size = v }
    else d

unfoldable pub put_values : List Field → List ℕ → Draft → Draft
unfolding put_value
put_values (f ∷ fields) (v ∷ vs) d = put_values fields vs (put_value f v d)
put_values _ _ d = d

-- The values before any field was read.
abbrev blank : Draft
blank = record { src_ip = ""; dst_ip = ""; src_port = 0; dst_port = 0; proto_num = 0; size = 0 }

-- The flow of a record, or none if the source or the destination address is missing.
unfoldable pub flow_of : List Field → List ℕ → Option FlowRecord
unfolding put_values
flow_of fields vs =
    let d = put_values fields vs blank in
    if eqb d.src_ip ""
    then none
    else if eqb d.dst_ip ""
    then none
    else some (record {
      src_ip = d.src_ip;
      src_port = d.src_port;
      dst_ip = d.dst_ip;
      dst_port = d.dst_port;
      protocol = protocol_text d.proto_num;
      size = d.size;
    })

unfoldable pub flows_of : List Field → List (List ℕ) → List FlowRecord
unfolding flow_of
flows_of fields [] = []
flows_of fields (vs ∷ recs) = elim (flow_of fields vs) [
  | none ↦ flows_of fields recs
  | some flow ↦ flow ∷ flows_of fields recs
]

finish_lem :
    (fields : List Field) (vs : List ℕ) → finish (put_values fields vs blank) ≡ flow_of fields vs
unfolding finish flow_of
finish_lem fields vs = ground (arith, proto_name_lem (put_values fields vs blank).proto_num)

with_record-flows_of :
    (fields : List Field) (vs : List ℕ) (recs : List (List ℕ))
    → with_record (flow_of fields vs) (flows_of fields recs) ≡ flows_of fields (vs ∷ recs)
unfolding with_record flows_of
with_record-flows_of fields vs recs = elim (Option-cases (flow_of fields vs)) [
  | inl e ↦ rw (e, flows_of) refl
  | inr (flow, e) ↦ rw (e, flows_of) refl
]

assign-to_bytes :
    (ftype flen v : ℕ) (d : Draft)
    → v < limit flen
    → assign (ftype, flen) (to_bytes flen v) d ≡ put_value (ftype, flen) v d
unfolding assign put_value
assign-to_bytes ftype flen v d h = ground (arith, from_bytes-to_bytes flen v h)

decode_fields-pack :
    (fields : List Field) (vs : List ℕ) (d : Draft)
    → IsPackable (lengths fields) vs
    → decode_fields fields (pack (lengths fields) vs) d ≡ some (put_values fields vs d)
unfolding decode_fields lengths pack put_values
decode_fields-pack [] [] d h = refl
decode_fields-pack [] (v ∷ vs) d h = elim h [ ]
decode_fields-pack (f ∷ fields) [] d h = elim h [ ]
decode_fields-pack ((ftype, flen) ∷ fields) (v ∷ vs) d h =
    let more = pack (lengths fields) vs in
    rw
      (
        take-front flen (to_bytes flen v) more (length-to_bytes flen v),
        drop-front flen (to_bytes flen v) more (length-to_bytes flen v),
        assign-to_bytes ftype flen v d h.0,
        decode_fields-pack fields vs (put_value (ftype, flen) v d) h.1,
      )
      (ground (arith, length-to_bytes flen v))

decode_v9_record-pack :
    (fields : List Field) (vs : List ℕ)
    → IsPackable (lengths fields) vs
    → decode_v9_record fields (pack (lengths fields) vs) ≡ flow_of fields vs
unfolding decode_v9_record flow_of
decode_v9_record-pack fields vs h =
    rw (decode_fields-pack fields vs no_draft h, decode_v9_record) (finish_lem fields vs)

-- The records of a data set, one after the other.
unfoldable pub encode_records : List Field → List (List ℕ) → Bytes
encode_records fields [] = []
encode_records fields (vs ∷ recs) = pack (lengths fields) vs ++ encode_records fields recs

-- The loop reads the flows of the first `n` records.
pub data_records-encode :
    (fields : List Field) (n : ℕ) (recs : List (List ℕ)) (pad : Bytes)
    → All (IsPackable (lengths fields)) recs
    → n ≤ length recs
    → data_records fields (calcsize (lengths fields)) n (encode_records fields recs ++ pad)
      ≡ flows_of fields (take n recs)
unfolding data_records encode_records flows_of
data_records-encode fields zero recs pad h le = refl
data_records-encode fields (suc n) [] pad h le = elim le [ ]
data_records-encode fields (suc n) (vs ∷ recs) pad h le =
    let len = calcsize (lengths fields) in
    let front = pack (lengths fields) vs in
    let more = encode_records fields recs ++ pad in
    let size = length-pack (lengths fields) vs h.0 in
    rw
      (
        append_assoc front (encode_records fields recs) pad,
        take-front len front more size,
        drop-front len front more size,
        decode_v9_record-pack fields vs h.0,
        data_records-encode fields n recs pad h.1 (omega arith),
        data_records,
      )
      (with_record-flows_of fields vs (take n recs))

length-encode_records :
    (fields : List Field) (recs : List (List ℕ))
    → All (IsPackable (lengths fields)) recs
    → length (encode_records fields recs) ≡ length recs * calcsize (lengths fields)
unfolding encode_records
length-encode_records fields [] h = omega arith
length-encode_records fields (vs ∷ recs) h = omega (
  arith,
  length-append (pack (lengths fields) vs) (encode_records fields recs),
  length-pack (lengths fields) vs h.0,
  length-encode_records fields recs h.1,
)

-- The number of whole records in a set, the padding left out.
pub count-encode_records :
    (fields : List Field) (recs : List (List ℕ)) (pad : Bytes)
    → All (IsPackable (lengths fields)) recs
    → length pad < calcsize (lengths fields)
    → length (encode_records fields recs ++ pad) / calcsize (lengths fields) ≡ length recs
count-encode_records fields recs pad h short =
    let k = calcsize (lengths fields) in
    let n = length recs in
    let whole = length (encode_records fields recs ++ pad) in
    let size : whole ≡ n * k + length pad = omega (
      arith,
      length-append (encode_records fields recs) pad,
      length-encode_records fields recs h,
    ) in
    let low : n ≤ whole / k =
      (le-div_iff_mul-le {k = k} {x = n} {y = whole} (omega arith)).1 (omega arith) in
    let high : whole / k < n + 1 =
      (div-lt_iff_lt-mul {k = k} {x = whole} {y = n + 1} (omega arith)).1 (omega arith) in
    omega arith
