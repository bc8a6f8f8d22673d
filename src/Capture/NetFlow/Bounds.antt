-- ===== src/Capture/NetFlow/Bounds.antt =====
-- What one datagram can yield at most (capture/flow_ingest.py).
use sentinel_pi.Prelude.{
  ℕ, zero, suc, ◌+◌, ◌-◌, ◌≤◌, List, [], ◌∷◌, Option-cases, inl, inr, length, length-append, drop,
  take, min, ◌/◌, arith, nat_key,
}
use sentinel_pi.Prelude.Dict.{get}
use sentinel_pi.Capture.Bytes.{Bytes, calcsize}
use sentinel_pi.Capture.NetFlow.{
  Field, lengths, Templates, Dialect, SetResult, v5_records, parse_netflow_v5, data_records,
  with_record, data_set, read_set, walk_sets, parse_v9_like, parse_netflow_v9, parse_ipfix,
  parse_netflow, word_0, word_1,
}

length-v5_records : (n : ℕ) (rest : Bytes) → length (v5_records n rest) ≤ n
unfolding v5_records
length-v5_records zero rest = omega arith
length-v5_records (suc n) rest = ground (arith, length-v5_records n (drop 48 rest))

length-data_records :
    (fields : List Field) (record_len n : ℕ) (body : Bytes)
    → length (data_records fields record_len n body) ≤ n
unfolding data_records with_record
length-data_records fields record_len zero body = omega arith
length-data_records fields record_len (suc n) body =
    ground (arith, length-data_records fields record_len n (drop record_len body))

-- A set yields no more flows than it counts records, and never counts more than the limit.
abbrev IsWithin : Dialect → ℕ → SetResult → Type 0
IsWithin dialect seen r =
    (length r.flows + seen ≤ r.records_seen) × (r.records_seen ≤ dialect.max_records)

data_set-IsWithin :
    (dialect : Dialect) (fields : List Field) (body : Bytes) (seen : ℕ) (ts : Templates)
    → seen ≤ dialect.max_records
    → IsWithin dialect seen (data_set dialect fields body seen ts)
unfolding data_set
data_set-IsWithin dialect fields body seen ts h =
    let record_len = calcsize (lengths fields) in
    let n = min (length body / record_len) (dialect.max_records - seen) in
    ground (arith, length-data_records fields record_len n body)

read_set-IsWithin :
    (dialect : Dialect) (set_id : ℕ) (body : Bytes) (seen : ℕ) (ts : Templates)
    → seen ≤ dialect.max_records
    → IsWithin dialect seen (read_set dialect set_id body seen ts)
unfolding read_set
read_set-IsWithin dialect set_id body seen ts h = elim (Option-cases (get set_id ts)) [
  | inl e ↦ ground arith
  | inr ([], e) ↦ ground arith
  | inr ((f ∷ fs), e) ↦ ground (arith, data_set-IsWithin dialect (f ∷ fs) body seen ts h)
]

length-walk_sets :
    (dialect : Dialect) (fuel : ℕ) (rest : Bytes) (seen : ℕ) (ts : Templates)
    → seen ≤ dialect.max_records
    → length (walk_sets dialect fuel rest seen ts).0 + seen ≤ dialect.max_records
unfolding walk_sets
length-walk_sets dialect zero rest seen ts h = omega arith
length-walk_sets dialect (suc fuel) rest seen ts h =
    let body = drop 4 (take (word_1 rest) rest) in
    let r = read_set dialect (word_0 rest) body seen ts in
    let within = read_set-IsWithin dialect (word_0 rest) body seen ts h in
    let more = walk_sets dialect fuel (drop (word_1 rest) rest) r.records_seen r.templates in
    ground (
      arith,
      length-append r.flows more.0,
      length-walk_sets dialect fuel (drop (word_1 rest) rest) r.records_seen r.templates within.1,
    )

-- A datagram of any version and any content yields at most `max_records` flows.
length-parse_netflow :
    (bs : Bytes) (ts : Templates) (max_records : ℕ)
    → length (parse_netflow bs ts max_records).0 ≤ max_records
unfolding parse_netflow parse_netflow_v5 parse_netflow_v9 parse_ipfix parse_v9_like
length-parse_netflow bs ts max_records =
    let v9 : Dialect = record {
      template_set_id = 0;
      options_set_id = 1;
      max_records = max_records;
    } in
    let ipfix : Dialect = record {
      template_set_id = 2;
      options_set_id = 3;
      max_records = max_records;
    } in
    ground (
      arith,
      length-v5_records (min (word_1 bs) max_records) (drop 24 bs),
      length-walk_sets v9 (length bs) (drop 20 bs) 0 ts (omega arith),
      length-walk_sets ipfix (length bs) (drop 16 bs) 0 ts (omega arith),
    )
