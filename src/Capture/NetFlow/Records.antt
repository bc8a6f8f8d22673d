-- ===== src/Capture/NetFlow/Records.antt =====
-- Templates, and the records of NetFlow v9 and IPFIX that they describe.
use sentinel_pi.Prelude.{
  ℕ, zero, suc, ◌-◌, String, Bool, true, false, ◌&&◌, ◌||◌, eqb, string_key, List, [], ◌∷◌, Option,
  none, some, length, take, drop, ltb, leb, ◌==◌, nat_key, if◌then◌else◌,
}
use sentinel_pi.Prelude.Dict.{Dict, put}
use sentinel_pi.Capture.{FlowRecord, proto_name}
use sentinel_pi.Capture.Bytes.{Bytes, from_bytes}
use sentinel_pi.Capture.Addresses.{inet_ntoa, inet_ntop6}

-- The numbers of two bytes at the front, and after the first two.
unfoldable pub word_0 : Bytes → ℕ
word_0 bs = from_bytes (take 2 bs)

unfoldable pub word_1 : Bytes → ℕ
word_1 bs = from_bytes (take 2 (drop 2 bs))

-- A field of a template: its type and its length.
abbrev pub Field : Type 0
Field = ℕ × ℕ

abbrev pub Templates : Type 0
Templates = Dict ℕ (List Field)

-- The variables of `_decode_v9_record`.
pub record Draft : Type 0 where
  pub src_ip : String
  pub dst_ip : String
  pub src_port : ℕ
  pub dst_port : ℕ
  pub proto_num : ℕ
  pub size : ℕ

abbrev pub no_draft : Draft
no_draft = record { src_ip = ""; dst_ip = ""; src_port = 0; dst_port = 0; proto_num = 0; size = 0 }

-- The chain of tests on one field of a record.
unfoldable pub assign : Field → Bytes → Draft → Draft
assign (ftype, flen) chunk d =
    if ftype == 8 && flen == 4
    then record d { src_ip = inet_ntoa chunk }
    else if ftype == 12 && flen == 4
    then record d { dst_ip = inet_ntoa chunk }
    else if ftype == 27 && flen == 16
    then record d { src_ip = inet_ntop6 chunk }
    else if ftype == 28 && flen == 16
    then record d { dst_ip = inet_ntop6 chunk }
    else if ftype == 7
    then record d { src_port = from_bytes chunk }
    else if ftype == 11
    then record d { dst_port = from_bytes chunk }
    else if ftype == 4
    then record d { proto_num = from_bytes chunk }
    else if ftype == 1
    then record d { size = from_bytes chunk }
    else d

unfoldable pub decode_fields : List Field → Bytes → Draft → Option Draft
unfolding assign
decode_fields [] raw d = some d
decode_fields ((ftype, flen) ∷ fields) raw d =
    let chunk = take flen raw in
    let rest = decode_fields fields (drop flen raw) (assign (ftype, flen) chunk d) in
    if ltb (length chunk) flen then none else rest

-- The end of `_decode_v9_record`.
unfoldable pub finish : Draft → Option FlowRecord
finish d =
    if eqb d.src_ip "" || eqb d.dst_ip ""
    then none
    else some (record {
      src_ip = d.src_ip;
      src_port = d.src_port;
      dst_ip = d.dst_ip;
      dst_port = d.dst_port;
      protocol = proto_name d.proto_num;
      size = d.size;
    })

unfoldable pub decode_v9_record : List Field → Bytes → Option FlowRecord
unfolding decode_fields finish
decode_v9_record fields raw = elim (decode_fields fields raw no_draft) [
  | none ↦ none
  | some d ↦ finish d
]

-- The loop over the fields of a template: whether they are all there, the fields and the bytes after
-- them.
unfoldable pub template_fields : Bool → ℕ → Bytes → Bool × List Field × Bytes
template_fields ipfix zero rest = (true, [], rest)
template_fields ipfix (suc n) rest =
    let ftype = word_0 rest in
    let enterprise = ipfix && leb 32768 ftype in
    let (ok, fields, rest') = template_fields ipfix n (drop (if enterprise then 8 else 4) rest) in
    if ltb (length rest) 4
    then (false, [], rest)
    else (ok, ((if enterprise then ftype - 32768 else ftype), word_1 rest) ∷ fields, rest')

-- The loop of `_parse_template_fields`, on fuel, from the templates so far.
unfoldable pub templates_from : Bool → ℕ → Bytes → Templates → Templates
unfolding template_fields
templates_from ipfix zero rest ts = ts
templates_from ipfix (suc fuel) rest ts =
    let (ok, fields, rest') = template_fields ipfix (word_1 rest) (drop 4 rest) in
    let ts' = if ok && ltb 0 (word_1 rest) then put (word_0 rest) fields ts else ts in
    let more = templates_from ipfix fuel rest' ts' in if ltb (length rest) 4 then ts else more

-- `_parse_template_fields`. The count of consumed bytes, which its caller drops, is left out.
unfoldable pub parse_template_fields : Bytes → Bool → Templates
unfolding templates_from
parse_template_fields body ipfix = templates_from ipfix (length body) body []

-- `d.update(new)`
unfoldable pub update : Templates → Templates → Templates
update ts [] = ts
update ts ((k, v) ∷ new) = update (put k v ts) new

-- `if rec is not None: flows.append(rec)`
unfoldable pub with_record : Option FlowRecord → List FlowRecord → List FlowRecord
with_record none flows = flows
with_record (some rec) flows = rec ∷ flows

-- The loop over the records of a data set.
unfoldable pub data_records : List Field → ℕ → ℕ → Bytes → List FlowRecord
unfolding decode_v9_record with_record
data_records fields record_len zero body = []
data_records fields record_len (suc n) body =
    with_record (decode_v9_record fields (take record_len body))
      (data_records fields record_len n (drop record_len body))
