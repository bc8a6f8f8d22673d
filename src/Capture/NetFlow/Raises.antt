-- ===== src/Capture/NetFlow/Raises.antt =====
-- When `parse_netflow` raises (capture/flow_ingest.py). `_proto_name` prints every protocol number in
-- decimal, and `str` refuses a number of more than 4300 digits. The templates are changed in place, so
-- what was learned before the exception stays.
use sentinel_pi.Prelude.{
  ℕ, zero, suc, ◌-◌, ◌/◌, ◌^◌, min, Bool, false, ◌&&◌, ◌||◌, not, eqb, string_key, List, [], ◌∷◌,
  Option, none, some, length, take, drop, ltb, leb, ◌==◌, nat_key, if◌then◌else◌,
}
use sentinel_pi.Prelude.Dict.{get}
use sentinel_pi.Capture.Bytes.{Bytes, calcsize}
use sentinel_pi.Capture.NetFlow.{
  Field, Templates, Dialect, no_draft, decode_fields, lengths, read_set, word_0, word_1,
}

-- The first number that `str` refuses.
unfoldable pub str_limit : ℕ
str_limit = 10 ^ 4300

-- The end of `_decode_v9_record`, where `_proto_name` is called.
unfoldable pub record_raises : List Field → Bytes → Bool
record_raises fields raw = elim (decode_fields fields raw no_draft) [
  | none ↦ false
  | some d ↦ not (eqb d.src_ip "" || eqb d.dst_ip "") && leb str_limit d.proto_num
]

-- One of the first records of a data set raises.
unfoldable pub records_raise : List Field → ℕ → ℕ → Bytes → Bool
records_raise fields record_len zero body = false
records_raise fields record_len (suc n) body =
    record_raises fields (take record_len body)
    || records_raise fields record_len n (drop record_len body)

unfoldable pub data_set_raises : Dialect → List Field → Bytes → ℕ → Bool
data_set_raises dialect fields body seen =
    let record_len = calcsize (lengths fields) in
    ltb 0 record_len
    && records_raise fields record_len (min (length body / record_len) (dialect.max_records - seen))
        body

-- The body of the loop of `_parse_v9_like`.
unfoldable pub set_raises : Dialect → ℕ → Bytes → ℕ → Templates → Bool
set_raises dialect set_id body seen ts =
    if set_id == dialect.template_set_id
    then false
    else if set_id == dialect.options_set_id
    then false
    else if leb 256 set_id
    then elim (get set_id ts) [
      | none ↦ false
      | some [] ↦ false
      | some (f ∷ fs) ↦ data_set_raises dialect (f ∷ fs) body seen
    ]
    else false

-- The loop of `_parse_v9_like`: the templates where it raises, if it does.
unfoldable pub walk_raises : Dialect → ℕ → Bytes → ℕ → Templates → Option Templates
walk_raises dialect zero rest seen ts = none
walk_raises dialect (suc fuel) rest seen ts =
    let set_len = word_1 rest in
    let body = drop 4 (take set_len rest) in
    let r = read_set dialect (word_0 rest) body seen ts in
    let more = walk_raises dialect fuel (drop set_len rest) r.records_seen r.templates in
    if ltb (length rest) 4 || ltb set_len 4 || ltb (length rest) set_len
    then none
    else if set_raises dialect (word_0 rest) body seen ts
    then some ts
    else if r.stop
    then none
    else more

-- `parse_netflow`: the templates that it leaves when it raises. The records of NetFlow v5 have a
-- protocol of one byte.
unfoldable pub parse_raises : Bytes → Templates → ℕ → Option Templates
parse_raises bs ts max_records =
    let v9 : Dialect = record {
      template_set_id = 0;
      options_set_id = 1;
      max_records = max_records;
    } in
    let ipfix : Dialect = record {
      template_set_id = 2;
      options_set_id = 3;
      max_records = max_records;
    } in
    if ltb (length bs) 2
    then none
    else if word_0 bs == 9 && leb 20 (length bs)
    then walk_raises v9 (length bs) (drop 20 bs) 0 ts
    else if word_0 bs == 10 && leb 16 (length bs)
    then walk_raises ipfix (length bs) (drop 16 bs) 0 ts
    else none
