-- ===== src/Capture/NetFlow/Export/Datagram.antt =====
-- A whole datagram of NetFlow v9 or IPFIX: a template and the records that it describes.
use mathlib.Core.List.{append_assoc, append-nil}
use sentinel_pi.Prelude.{
  ℕ, zero, suc, ◌+◌, ◌-◌, ◌≤◌, ◌<◌, ◌≡◌, refl, ap, subst, if_same, false, List, [], ◌∷◌, ◌++◌, some,
  length, length-append, take, take-front, drop-front, drop-append, take-min, leb, All, min, arith,
  nat_key, ◌==◌, if◌then◌else◌,
}
use sentinel_pi.Prelude.Dict.{put, get, get-put_self}
use sentinel_pi.Capture.{FlowRecord}
use sentinel_pi.Capture.Bytes.{Bytes, calcsize, limit, IsPackable}
use sentinel_pi.Capture.NetFlow.{
  Field, Templates, Dialect, SetResult, lengths, data_set, read_set, walk_sets, word_0, word_1,
  parse_v9_like, update,
}
use sentinel_pi.Capture.NetFlow.Fuel.{walk_sets-fuel}
use sentinel_pi.Capture.NetFlow.Export.{words, encode_set, encode_templates, IsTemplate}
use sentinel_pi.Capture.NetFlow.Export.Template.{
  length-words_append, word_0-words, word_1-words, drop-words, parse_template_fields-encode,
}
use sentinel_pi.Capture.NetFlow.Export.Record.{
  encode_records, flows_of, data_records-encode, count-encode_records,
}

-- What the walk makes of the rest, after a set.
abbrev after_set : Dialect → Bytes → SetResult → List FlowRecord × Templates
after_set dialect rest r =
    let more = walk_sets dialect (length rest) rest r.records_seen r.templates in
    if r.stop then (r.flows, r.templates) else (r.flows ++ more.0, more.1)

walk_sets-encode_set :
    (dialect : Dialect) (fuel set_id : ℕ) (body rest : Bytes) (seen : ℕ) (ts : Templates)
    → set_id < limit 2
    → 4 + length body < limit 2
    → length (encode_set set_id body ++ rest) ≤ fuel
    → walk_sets dialect fuel (encode_set set_id body ++ rest) seen ts
      ≡ after_set dialect rest (read_set dialect set_id body seen ts)
unfolding walk_sets encode_set
walk_sets-encode_set dialect zero set_id body rest seen ts hs hb enough = ground (
  arith,
  length-append (words set_id (4 + length body) ++ body) rest,
  length-words_append set_id (4 + length body) body hs hb,
)
walk_sets-encode_set dialect (suc fuel) set_id body rest seen ts hs hb enough =
    let len = 4 + length body in
    let head = words set_id len in
    let size : length (head ++ body) ≡ len = length-words_append set_id len body hs hb in
    let whole = length-append (head ++ body) rest in
    let r = read_set dialect set_id body seen ts in
    let assoc = append_assoc head body rest in
    let w0 : word_0 ((head ++ body) ++ rest) ≡ set_id =
      rw assoc (word_0-words set_id len (body ++ rest) hs hb) in
    let w1 : word_1 ((head ++ body) ++ rest) ≡ len =
      rw assoc (word_1-words set_id len (body ++ rest) hs hb) in
    let same =
      walk_sets-fuel dialect fuel (length rest) rest r.records_seen r.templates
        (omega (arith, whole, size, enough)) (omega arith) in
    rw
      (
        w0,
        w1,
        take-front len (head ++ body) rest size,
        drop-front len (head ++ body) rest size,
        drop-words set_id len body hs hb,
        same,
      )
      (ground (arith, whole, size))

read_set-template :
    (dialect : Dialect) (seen : ℕ) (ts : Templates) (new : List (ℕ × List Field))
    → All IsTemplate new
    → read_set dialect dialect.template_set_id (encode_templates new) seen ts ≡ record {
      flows = [];
      records_seen = seen;
      templates = update ts (update [] new);
      stop = false;
    }
unfolding read_set
read_set-template dialect seen ts new h =
    rw (parse_template_fields-encode (dialect.template_set_id == 2) new h) (ground arith)

read_set-records :
    (dialect : Dialect) (id : ℕ) (fields : List Field) (recs : List (List ℕ)) (pad : Bytes)
    (ts : Templates)
    → dialect.template_set_id < 256
    → dialect.options_set_id < 256
    → 256 ≤ id
    → 0 < length fields
    → get id ts ≡ some fields
    → All (IsPackable (lengths fields)) recs
    → length pad < calcsize (lengths fields)
    → read_set dialect id (encode_records fields recs ++ pad) 0 ts ≡ record {
      flows = flows_of fields (take dialect.max_records recs);
      records_seen = min (length recs) dialect.max_records;
      templates = ts;
      stop = leb dialect.max_records (min (length recs) dialect.max_records);
    }
unfolding read_set data_set
read_set-records dialect id [] recs pad ts ht ho hid some_field known h short = elim some_field [ ]
read_set-records dialect id (f ∷ fs) recs pad ts ht ho hid some_field known h short =
    let fields = f ∷ fs in
    let room : dialect.max_records - 0 ≡ dialect.max_records = omega arith in
    rw
      (
        known,
        room,
        count-encode_records fields recs pad h short,
        data_records-encode fields (min (length recs) dialect.max_records) recs pad h (omega arith),
        take-min dialect.max_records recs,
      )
      (ground arith)

-- Nothing follows the set.
after_set_nil :
    (dialect : Dialect) (r : SetResult) → after_set dialect [] r ≡ (r.flows, r.templates)
unfolding walk_sets
after_set_nil dialect r = rw (append-nil r.flows) (if_same r.stop)

module _ (dialect : Dialect) (id : ℕ) (fields : List Field) (recs : List (List ℕ))
    (pad header : Bytes) (ts : Templates) (ht : dialect.template_set_id < 256)
    (ho : dialect.options_set_id < 256) (hid : 256 ≤ id) (template : IsTemplate (id, fields))
    (h : All (IsPackable (lengths fields)) recs) (short : length pad < calcsize (lengths fields))
    (fits : 4 + length (encode_records fields recs ++ pad) < limit 2)
    (fits_template : 4 + length (encode_templates ((id, fields) ∷ [])) < limit 2) where
  pub parse_v9_like-export :
      parse_v9_like dialect
        (length header)
        (header
          ++ (encode_set dialect.template_set_id (encode_templates ((id, fields) ∷ []))
              ++ encode_set id (encode_records fields recs ++ pad)))
        ts
      ≡ (flows_of fields (take dialect.max_records recs), put id fields ts)
  unfolding parse_v9_like
  parse_v9_like-export =
      let first = encode_set dialect.template_set_id (encode_templates ((id, fields) ∷ [])) in
      let second = encode_set id (encode_records fields recs ++ pad) in
      let r =
        read_set-records dialect id fields recs pad (put id fields ts) ht ho hid template.1
          (get-put_self id fields ts) h short in
      let new : List (ℕ × List Field) = (id, fields) ∷ [] in
      let enough : length (first ++ second) ≤ length (header ++ (first ++ second)) =
        omega (arith, length-append header (first ++ second)) in
      let low : dialect.template_set_id < limit 2 = unfold limit in omega (arith, ht) in
      let step =
        walk_sets-encode_set dialect (length (header ++ (first ++ second))) dialect.template_set_id
          (encode_templates new) second 0 ts low fits_template enough in
      let body = encode_records fields recs ++ pad in
      let step' : walk_sets dialect (length second) second 0 (put id fields ts)
          ≡ after_set dialect [] (read_set dialect id body 0 (put id fields ts)) =
        subst
          (λ bs.
            walk_sets dialect (length second) bs 0 (put id fields ts)
            ≡ after_set dialect [] (read_set dialect id body 0 (put id fields ts)))
          (append-nil second)
          (walk_sets-encode_set dialect (length second) id body [] 0 (put id fields ts) template.0
            fits (omega (arith, ap length (append-nil second)))) in
      let learnt : update ts (update [] new) ≡ put id fields ts = unfold update put in refl in
      rw
        (
          drop-append header (first ++ second),
          step,
          read_set-template dialect 0 ts new (template, tt),
          learnt,
          step',
          r,
        )
        (after_set_nil dialect (record {
          flows = flows_of fields (take dialect.max_records recs);
          records_seen = min (length recs) dialect.max_records;
          templates = put id fields ts;
          stop = leb dialect.max_records (min (length recs) dialect.max_records);
        }))
