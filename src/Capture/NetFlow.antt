-- ===== src/Capture/NetFlow.antt =====
-- The parsers of capture/flow_ingest.py for NetFlow v5, NetFlow v9 and IPFIX. Where the code keeps an
-- offset into the data, these keep the bytes from that offset on.
pub mod Records
pub mod Words
pub mod Bounds
pub mod Fuel
pub mod Raises
pub mod Short
pub mod Export
use sentinel_pi.Prelude.{
  ℕ, zero, suc, ◌+◌, ◌-◌, ◌/◌, min, String, Bool, true, false, ◌&&◌, ◌||◌, not, eqb, string_key,
  List, [], ◌∷◌, ◌++◌, Option, none, some, get_elem?, length, take, drop, ltb, leb, ◌==◌, nat_key,
  if◌then◌else◌,
}
use sentinel_pi.Prelude.Dict.{Dict, get, put}
use sentinel_pi.Capture.{FlowRecord, proto_name}
use sentinel_pi.Capture.Bytes.{Bytes, from_bytes, to_bytes, unpack, calcsize}
use sentinel_pi.Capture.Addresses.{inet_ntoa, inet_ntop6}
pub use Records.*
unfoldable pub use Records.{
  word_0, word_1, assign, decode_fields, finish, decode_v9_record, template_fields, templates_from,
  parse_template_fields, update, with_record, data_records,
}

-- `_NETFLOW_V5_HEADER`
abbrev pub v5_header : List ℕ
v5_header = 2 ∷ 2 ∷ 4 ∷ 4 ∷ 4 ∷ 4 ∷ 1 ∷ 1 ∷ 2 ∷ []

-- `_NETFLOW_V5_RECORD`
abbrev pub v5_record : List ℕ
v5_record = 4 ∷ 4 ∷ 4 ∷ 2 ∷ 2 ∷ 4 ∷ 4 ∷ 4 ∷ 4 ∷ 2 ∷ 2 ∷ 1 ∷ 1 ∷ 1 ∷ 1 ∷ 2 ∷ 2 ∷ 1 ∷ 1 ∷ 2 ∷ []

-- `rec[i]`, of an unpacked record, which has every index that is asked for.
unfoldable pub field : List ℕ → ℕ → ℕ
field rec i = elim (get_elem? rec i) [ none ↦ 0 | some v ↦ v ]

-- The flow of one unpacked record.
unfoldable pub v5_flow : List ℕ → FlowRecord
unfolding field
v5_flow rec = record {
  src_ip = inet_ntoa (to_bytes 4 (field rec 0));
  src_port = field rec 9;
  dst_ip = inet_ntoa (to_bytes 4 (field rec 1));
  dst_port = field rec 10;
  protocol = proto_name (field rec 13);
  size = field rec 6;
}

-- The loop of `parse_netflow_v5`.
unfoldable pub v5_records : ℕ → Bytes → List FlowRecord
unfolding v5_flow
v5_records zero rest = []
v5_records (suc n) rest =
    let more = v5_records n (drop 48 rest) in
    if ltb (length rest) 48 then [] else v5_flow (unpack v5_record (take 48 rest)) ∷ more

unfoldable pub parse_netflow_v5 : Bytes → ℕ → List FlowRecord
unfolding v5_records
parse_netflow_v5 bs max_records =
    if ltb (length bs) 24
    then []
    else if not (word_0 bs == 5)
    then []
    else v5_records (min (word_1 bs) max_records) (drop 24 bs)

-- The parameters of `_parse_v9_like` that stay the same.
pub record Dialect : Type 0 where
  pub template_set_id : ℕ
  pub options_set_id : ℕ
  pub max_records : ℕ

-- What one set leaves: its flows, `records_seen`, the templates, and whether the loop breaks.
pub record SetResult : Type 0 where
  pub flows : List FlowRecord
  pub records_seen : ℕ
  pub templates : Templates
  pub stop : Bool

unfoldable pub lengths : List Field → List ℕ
lengths [] = []
lengths ((_, flen) ∷ fields) = flen ∷ lengths fields

-- The branch of a data set whose template is known.
unfoldable pub data_set : Dialect → List Field → Bytes → ℕ → Templates → SetResult
unfolding data_records lengths
data_set dialect fields body seen ts =
    let record_len = calcsize (lengths fields) in
    let records_in_set = min (length body / record_len) (dialect.max_records - seen) in
    if ltb 0 record_len
    then record {
      flows = data_records fields record_len records_in_set body;
      records_seen = seen + records_in_set;
      templates = ts;
      stop = leb dialect.max_records (seen + records_in_set);
    }
    else record { flows = []; records_seen = seen; templates = ts; stop = false }

-- The body of the loop of `_parse_v9_like`, for a set that is there as a whole.
unfoldable pub read_set : Dialect → ℕ → Bytes → ℕ → Templates → SetResult
unfolding data_set update
read_set dialect set_id body seen ts =
    let skip : SetResult = record {
      flows = [];
      records_seen = seen;
      templates = ts;
      stop = false;
    } in
    if set_id == dialect.template_set_id
    then record skip {
      templates = update ts (parse_template_fields body (dialect.template_set_id == 2));
    }
    else if set_id == dialect.options_set_id
    then skip
    else if leb 256 set_id
    then elim (get set_id ts) [
      | none ↦ skip
      | some [] ↦ skip
      | some (f ∷ fs) ↦ data_set dialect (f ∷ fs) body seen ts
    ]
    else skip

-- The loop of `_parse_v9_like`, on fuel.
unfoldable pub walk_sets : Dialect → ℕ → Bytes → ℕ → Templates → List FlowRecord × Templates
walk_sets dialect zero rest seen ts = ([], ts)
walk_sets dialect (suc fuel) rest seen ts =
    let set_len = word_1 rest in
    let r = read_set dialect (word_0 rest) (drop 4 (take set_len rest)) seen ts in
    let more = walk_sets dialect fuel (drop set_len rest) r.records_seen r.templates in
    if ltb (length rest) 4 || ltb set_len 4 || ltb (length rest) set_len
    then ([], ts)
    else if r.stop
    then (r.flows, r.templates)
    else (r.flows ++ more.0, more.1)

unfoldable pub parse_v9_like : Dialect → ℕ → Bytes → Templates → List FlowRecord × Templates
unfolding walk_sets
parse_v9_like dialect header_len bs ts = walk_sets dialect (length bs) (drop header_len bs) 0 ts

unfoldable pub parse_netflow_v9 : Bytes → Templates → ℕ → List FlowRecord × Templates
unfolding parse_v9_like
parse_netflow_v9 bs ts max_records =
    if ltb (length bs) 20
    then ([], ts)
    else parse_v9_like
        (record { template_set_id = 0; options_set_id = 1; max_records = max_records }) 20 bs ts

unfoldable pub parse_ipfix : Bytes → Templates → ℕ → List FlowRecord × Templates
unfolding parse_v9_like
parse_ipfix bs ts max_records =
    if ltb (length bs) 16
    then ([], ts)
    else parse_v9_like
        (record { template_set_id = 2; options_set_id = 3; max_records = max_records }) 16 bs ts

unfoldable pub parse_netflow : Bytes → Templates → ℕ → List FlowRecord × Templates
unfolding parse_netflow_v5 parse_netflow_v9 parse_ipfix
parse_netflow bs ts max_records =
    if ltb (length bs) 2
    then ([], ts)
    else if word_0 bs == 5
    then (parse_netflow_v5 bs max_records, ts)
    else if word_0 bs == 9
    then parse_netflow_v9 bs ts max_records
    else if word_0 bs == 10
    then parse_ipfix bs ts max_records
    else ([], ts)
