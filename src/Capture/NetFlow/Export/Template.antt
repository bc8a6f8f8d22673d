-- ===== src/Capture/NetFlow/Export/Template.antt =====
-- The templates that `_parse_template_fields` reads from a set.
use mathlib.Core.List.{append_assoc}
use sentinel_pi.Prelude.{
  ℕ, zero, suc, ◌+◌, ◌≤◌, ◌<◌, ◌≡◌, refl, Bool, true, false, List, [], ◌∷◌, ◌++◌, length,
  length-append, drop, drop-front, ltb, lt→ltb, ◌&&◌, leb, All, arith, nat_key,
}
use sentinel_pi.Prelude.Dict.{put}
use sentinel_pi.Capture.Bytes.{Bytes, limit, length-pack, calcsize}
use sentinel_pi.Capture.NetFlow.{
  Field, template_fields, templates_from, parse_template_fields, update, word_0, word_1,
}
use sentinel_pi.Capture.NetFlow.Words.{word_0-pack, word_1-pack}
use sentinel_pi.Capture.NetFlow.Export.{words, encode_fields, encode_templates, IsField, IsTemplate}

module _ (a b : ℕ) (rest : Bytes) (ha : a < limit 2) (hb : b < limit 2) where
  pub length-words : length (words a b) ≡ 4
  unfolding calcsize words
  length-words = length-pack (2 ∷ 2 ∷ []) (a ∷ b ∷ []) (ha, (hb, tt))

  pub word_0-words : word_0 (words a b ++ rest) ≡ a
  unfolding words
  word_0-words = word_0-pack [] a b [] rest (ha, (hb, tt))

  pub word_1-words : word_1 (words a b ++ rest) ≡ b
  unfolding words
  word_1-words = word_1-pack [] a b [] rest (ha, (hb, tt))

  pub drop-words : drop 4 (words a b ++ rest) ≡ rest
  drop-words = drop-front 4 (words a b) rest length-words

  pub length-words_append : length (words a b ++ rest) ≡ 4 + length rest
  length-words_append = omega (arith, length-append (words a b) rest, length-words)

template_fields-encode :
    (ipfix : Bool) (fields : List Field) (rest : Bytes)
    → All IsField fields
    → template_fields ipfix (length fields) (encode_fields fields ++ rest) ≡ (true, fields, rest)
unfolding template_fields encode_fields
template_fields-encode ipfix [] rest h = refl
template_fields-encode ipfix ((ftype, flen) ∷ fields) rest h =
    let more = encode_fields fields ++ rest in
    let ht : ftype < limit 2 = unfold limit in omega (arith, h.0.0) in
    let plain : (ipfix && leb 32768 ftype) ≡ false = ground (arith, h.0.0) in
    rw
      (
        append_assoc (words ftype flen) (encode_fields fields) rest,
        word_0-words ftype flen more ht h.0.1,
        word_1-words ftype flen more ht h.0.1,
        plain,
        drop-words ftype flen more ht h.0.1,
        template_fields-encode ipfix fields rest h.1,
      )
      (ground (arith, length-words_append ftype flen more ht h.0.1))

templates_from-encode :
    (ipfix : Bool) (fuel : ℕ) (new ts : List (ℕ × List Field))
    → length (encode_templates new) ≤ fuel
    → All IsTemplate new
    → templates_from ipfix fuel (encode_templates new) ts ≡ update ts new
unfolding templates_from encode_templates update
templates_from-encode ipfix zero [] ts enough h = refl
templates_from-encode ipfix (suc fuel) [] ts enough h = ground arith
templates_from-encode ipfix zero ((id, fields) ∷ new) ts enough h =
    let rest = encode_fields fields ++ encode_templates new in
    ground (arith, length-words_append id (length fields) rest h.0.0 h.0.2)
templates_from-encode ipfix (suc fuel) ((id, fields) ∷ new) ts enough h =
    let rest = encode_fields fields ++ encode_templates new in
    let size : length (encode_templates ((id, fields) ∷ new)) ≡ 4 + length rest =
      length-words_append id (length fields) rest h.0.0 h.0.2 in
    let split = length-append (encode_fields fields) (encode_templates new) in
    let kept : ltb 0 (length fields) ≡ true = lt→ltb 0 (length fields) h.0.1 in
    let less : length (encode_templates new) ≤ fuel = omega (arith, size, split, enough) in
    rw
      (
        word_0-words id (length fields) rest h.0.0 h.0.2,
        word_1-words id (length fields) rest h.0.0 h.0.2,
        drop-words id (length fields) rest h.0.0 h.0.2,
        template_fields-encode ipfix fields (encode_templates new) h.0.3,
        kept,
      )
      (ground (arith, size, templates_from-encode ipfix fuel new (put id fields ts) less h.1))

-- The parser reads the templates that were written.
pub parse_template_fields-encode :
    (ipfix : Bool) (new : List (ℕ × List Field))
    → All IsTemplate new
    → parse_template_fields (encode_templates new) ipfix ≡ update [] new
unfolding parse_template_fields
parse_template_fields-encode ipfix new h =
    templates_from-encode ipfix (length (encode_templates new)) new [] (omega arith) h
