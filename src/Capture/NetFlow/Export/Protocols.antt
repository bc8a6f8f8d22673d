-- ===== src/Capture/NetFlow/Export/Protocols.antt =====
-- Whole datagrams of NetFlow v9 and IPFIX, through the parser that picks the protocol.
use sentinel_pi.Prelude.{
  ℕ, ◌+◌, ◌≤◌, ◌<◌, ◌≡◌, ◌∙◌, ap, List, [], ◌∷◌, ◌++◌, length, length-append, take, take-append_le,
  All, arith, nat_key, ◌==◌, ◌&&◌, leb, false,
}
use sentinel_pi.Prelude.Dict.{put}
use sentinel_pi.Capture.Bytes.{Bytes, calcsize, limit, IsPackable, from_bytes}
use sentinel_pi.Capture.NetFlow.{
  Field, Templates, Dialect, lengths, word_0, parse_netflow_v9, parse_ipfix, parse_netflow,
}
use sentinel_pi.Capture.NetFlow.Export.{encode_set, encode_templates, IsTemplate}
use sentinel_pi.Capture.NetFlow.Export.Record.{encode_records, flows_of}
use sentinel_pi.Capture.NetFlow.Export.Datagram.{parse_v9_like-export}

word_0-append : (header rest : Bytes) → 2 ≤ length header → word_0 (header ++ rest) ≡ word_0 header
unfolding word_0
word_0-append header rest h = ap from_bytes (take-append_le 2 header rest h)

-- The versions of the two protocols that carry templates, with the length of the header, and the
-- set that carries templates.
pub data Protocol : Type 0 where
  v9 : Protocol
  ipfix : Protocol

abbrev pub version : Protocol → ℕ
version v9 = 9
version ipfix = 10

abbrev pub header_len : Protocol → ℕ
header_len v9 = 20
header_len ipfix = 16

abbrev pub template_set : Protocol → ℕ
template_set v9 = 0
template_set ipfix = 2

-- The value of the field can be printed: a protocol number that no registered name replaces is
-- printed in decimal, and `str` refuses more than 4300 digits, which 1785 bytes never have.
abbrev pub IsPrintable : Field → Type 0
IsPrintable (ftype, flen) = (ftype == 4 && leb 1786 flen) ≡ false

-- The parser reads the flows of a datagram of NetFlow v9 or IPFIX that brings a template and a set
-- of records of it, padded by less than a record, and keeps the template: as many records as the
-- limit allows, and of each that has both a source and a destination address the flow with its
-- addresses, ports, protocol and size. No field of the template is a protocol of more than 1785
-- bytes.
pub parse_netflow-export :
    (protocol : Protocol) (header : Bytes) (id : ℕ) (fields : List Field) (recs : List (List ℕ))
    (pad : Bytes) (ts : Templates) (max_records : ℕ)
    → length header ≡ header_len protocol
    → word_0 header ≡ version protocol
    → 256 ≤ id
    → IsTemplate (id, fields)
    → All IsPrintable fields
    → All (IsPackable (lengths fields)) recs
    → length pad < calcsize (lengths fields)
    → 4 + length (encode_templates ((id, fields) ∷ [])) < limit 2
    → 4 + length (encode_records fields recs ++ pad) < limit 2
    → parse_netflow
        (header
          ++ (encode_set (template_set protocol) (encode_templates ((id, fields) ∷ []))
              ++ encode_set id (encode_records fields recs ++ pad)))
        ts
        max_records
      ≡ (flows_of fields (take max_records recs), put id fields ts)
unfolding parse_netflow parse_netflow_v9 parse_ipfix
parse_netflow-export v9 header id fields recs pad ts max_records size first hid template printable h
      short fits_t fits =
    let dialect : Dialect = record {
      template_set_id = 0;
      options_set_id = 1;
      max_records = max_records;
    } in
    let sets =
      encode_set 0 (encode_templates ((id, fields) ∷ []))
      ++ encode_set id (encode_records fields recs ++ pad) in
    let read =
      parse_v9_like-export dialect id fields recs pad header ts (omega arith) (omega arith) hid
        template h short fits fits_t in
    let seen : word_0 (header ++ sets) ≡ 9 =
      word_0-append header sets (omega (arith, size)) ∙ first in
    rw seen (ground (arith, length-append header sets, size, read))
parse_netflow-export ipfix header id fields recs pad ts max_records size first hid template
      printable h short fits_t fits =
    let dialect : Dialect = record {
      template_set_id = 2;
      options_set_id = 3;
      max_records = max_records;
    } in
    let sets =
      encode_set 2 (encode_templates ((id, fields) ∷ []))
      ++ encode_set id (encode_records fields recs ++ pad) in
    let read =
      parse_v9_like-export dialect id fields recs pad header ts (omega arith) (omega arith) hid
        template h short fits fits_t in
    let seen : word_0 (header ++ sets) ≡ 10 =
      word_0-append header sets (omega (arith, size)) ∙ first in
    rw seen (ground (arith, length-append header sets, size, read))
