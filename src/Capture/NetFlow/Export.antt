-- ===== src/Capture/NetFlow/Export.antt =====
-- What an exporter writes: NetFlow v5 packets, and the sets of NetFlow v9 and IPFIX. The parsers of
-- capture/flow_ingest.py are held to these encoders.
pub mod Names
pub mod V5
pub mod Template
pub mod Record
pub mod Enterprise
pub mod Datagram
pub mod Protocols
use sentinel_pi.Prelude.{ℕ, ◌+◌, ◌<◌, List, [], ◌∷◌, ◌++◌, length, All}
use sentinel_pi.Capture.Bytes.{Bytes, pack, limit}
use sentinel_pi.Capture.NetFlow.{Field}

-- The two numbers that begin a set, a template and a field of a template.
unfoldable pub words : ℕ → ℕ → Bytes
words a b = pack (2 ∷ 2 ∷ []) (a ∷ b ∷ [])

unfoldable pub encode_fields : List Field → Bytes
encode_fields [] = []
encode_fields ((ftype, flen) ∷ fields) = words ftype flen ++ encode_fields fields

unfoldable pub encode_templates : List (ℕ × List Field) → Bytes
unfolding encode_fields
encode_templates [] = []
encode_templates ((id, fields) ∷ ts) =
    words id (length fields) ++ (encode_fields fields ++ encode_templates ts)

unfoldable pub encode_set : ℕ → Bytes → Bytes
encode_set set_id body = words set_id (4 + length body) ++ body

-- A type that is not an enterprise's, and a length of two bytes.
abbrev pub IsField : Field → Type 0
IsField f = (f.0 < 32768) × (f.1 < limit 2)

-- A template that can be written, and that the parser keeps.
abbrev pub IsTemplate : ℕ × List Field → Type 0
IsTemplate t = (t.0 < limit 2) × (0 < length t.1) × (length t.1 < limit 2) × All IsField t.1
