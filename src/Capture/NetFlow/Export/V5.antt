-- ===== src/Capture/NetFlow/Export/V5.antt =====
-- NetFlow v5: what `parse_netflow_v5` reads from a packet.
use mathlib.Core.List.{append_assoc}
use sentinel_pi.Prelude.{
  ℕ, zero, suc, ◌+◌, ◌<◌, ◌≡◌, sym, refl, List, [], ◌∷◌, ◌++◌, length, length-append, take, drop,
  take-front, drop-front, All, min, map, arith,
}
use sentinel_pi.Capture.{FlowRecord}
use sentinel_pi.Capture.Addresses.{inet_ntoa}
use sentinel_pi.Capture.Bytes.{
  Bytes, pack, calcsize, limit, to_bytes, from_bytes, from_bytes_after, IsPackable, length-pack,
  unpack, unpack-pack_nil,
}
use sentinel_pi.Capture.NetFlow.{
  v5_record, v5_flow, v5_records, parse_netflow_v5, field, word_0, word_1,
}
use sentinel_pi.Capture.NetFlow.Export.Names.{protocol_text, proto_name_lem}

-- A record as the NetFlow v5 format has it, and its bytes.
pub record Export5 : Type 0 where
  pub src_addr : ℕ
  pub dst_addr : ℕ
  pub next_hop : ℕ
  pub input : ℕ
  pub output : ℕ
  pub packets : ℕ
  pub octets : ℕ
  pub first : ℕ
  pub last : ℕ
  pub src_port : ℕ
  pub dst_port : ℕ
  pub tcp_flags : ℕ
  pub protocol : ℕ
  pub tos : ℕ
  pub src_as : ℕ
  pub dst_as : ℕ
  pub src_mask : ℕ
  pub dst_mask : ℕ

pub encode : Export5 → Bytes
unfolding to_bytes
encode r =
    to_bytes 4 r.src_addr
    ++ (to_bytes 4 r.dst_addr
        ++ (to_bytes 4 r.next_hop
            ++ (to_bytes 2 r.input
                ++ (to_bytes 2 r.output
                    ++ (to_bytes 4 r.packets
                        ++ (to_bytes 4 r.octets
                            ++ (to_bytes 4 r.first
                                ++ (to_bytes 4 r.last
                                    ++ (to_bytes 2 r.src_port
                                        ++ (to_bytes 2 r.dst_port
                                            ++ (to_bytes 1 0
                                                ++ (to_bytes 1 r.tcp_flags
                                                    ++ (to_bytes 1 r.protocol
                                                        ++ (to_bytes 1 r.tos
                                                            ++ (to_bytes 2 r.src_as
                                                            ++ (to_bytes 2 r.dst_as
                                                            ++ (to_bytes 1 r.src_mask
                                                            ++ (to_bytes 1 r.dst_mask
                                                            ++ (to_bytes 2 0)))))))))))))))))))

-- The numbers fit their fields.
pub record IsExport5 (r : Export5) : Type 0 where
  pub addresses : (r.src_addr < limit 4) × (r.dst_addr < limit 4) × (r.next_hop < limit 4)
  pub interfaces : (r.input < limit 2) × (r.output < limit 2)
  pub amounts : (r.packets < limit 4) × (r.octets < limit 4)
  pub times : (r.first < limit 4) × (r.last < limit 4)
  pub ports : (r.src_port < limit 2) × (r.dst_port < limit 2)
  pub marks : (r.tcp_flags < limit 1) × (r.protocol < limit 1) × (r.tos < limit 1)
  pub systems : (r.src_as < limit 2) × (r.dst_as < limit 2)
  pub masks : (r.src_mask < limit 1) × (r.dst_mask < limit 1)

-- The flow that the record reports.
pub flow_of_export : Export5 → FlowRecord
flow_of_export r = record {
  src_ip = inet_ntoa (to_bytes 4 r.src_addr);
  src_port = r.src_port;
  dst_ip = inet_ntoa (to_bytes 4 r.dst_addr);
  dst_port = r.dst_port;
  protocol = protocol_text r.protocol;
  size = r.octets;
}

-- The numbers of the record, in the order of the code's format.
abbrev numbers : Export5 → List ℕ
numbers r =
    r.src_addr ∷ r.dst_addr ∷ r.next_hop ∷ r.input ∷ r.output ∷ r.packets ∷ r.octets ∷ r.first
    ∷ r.last ∷ r.src_port ∷ r.dst_port ∷ 0 ∷ r.tcp_flags ∷ r.protocol ∷ r.tos ∷ r.src_as ∷ r.dst_as
    ∷ r.src_mask ∷ r.dst_mask ∷ 0 ∷ []

pack-numbers : (r : Export5) → pack v5_record (numbers r) ≡ encode r
unfolding pack encode to_bytes
pack-numbers r = refl

numbers-IsPackable : (r : Export5) → IsExport5 r → IsPackable v5_record (numbers r)
unfolding limit
numbers-IsPackable r h =
    omega
      (arith, h.addresses, h.interfaces, h.amounts, h.times, h.ports, h.marks, h.systems, h.masks)

v5_flow-numbers : (r : Export5) → v5_flow (numbers r) ≡ flow_of_export r
unfolding v5_flow flow_of_export field
v5_flow-numbers r = rw (proto_name_lem r.protocol) refl

length-encode : (r : Export5) → IsExport5 r → length (encode r) ≡ 48
unfolding calcsize
length-encode r h =
    rw (sym (pack-numbers r)) (length-pack v5_record (numbers r) (numbers-IsPackable r h))

unpack-encode : (r : Export5) → IsExport5 r → unpack v5_record (encode r) ≡ numbers r
unpack-encode r h =
    rw (sym (pack-numbers r)) (unpack-pack_nil v5_record (numbers r) (numbers-IsPackable r h))

-- The records of a packet, one after the other.
pub encode_all : List Export5 → Bytes
encode_all [] = []
encode_all (r ∷ recs) = encode r ++ encode_all recs

v5_records-encode_all :
    (n : ℕ) (recs : List Export5) (tail : Bytes)
    → All IsExport5 recs
    → length tail < 48
    → v5_records n (encode_all recs ++ tail) ≡ map flow_of_export (take n recs)
unfolding v5_records encode_all
v5_records-encode_all zero recs tail h short = refl
v5_records-encode_all (suc n) [] tail h short = ground arith
v5_records-encode_all (suc n) (r ∷ recs) tail h short =
    let all = encode_all recs ++ tail in
    let front = length-encode r h.0 in
    rw
      (
        append_assoc (encode r) (encode_all recs) tail,
        take-front 48 (encode r) all front,
        drop-front 48 (encode r) all front,
        unpack-encode r h.0,
        v5_flow-numbers r,
      )
      (ground
        (arith, length-append (encode r) all, front, v5_records-encode_all n recs tail h.1 short))

length-header :
    (count : ℕ) (rest body : Bytes)
    → length rest ≡ 20
    → length (to_bytes 2 5 ++ (to_bytes 2 count ++ (rest ++ body))) ≡ 24 + length body
unfolding to_bytes
length-header count rest body size = omega (arith, length-append rest body, size)

header_words :
    (count : ℕ) (rest body : Bytes)
    → count < limit 2
    → length rest ≡ 20
    → let whole = to_bytes 2 5 ++ (to_bytes 2 count ++ (rest ++ body)) in
      (word_0 whole ≡ 5) × (word_1 whole ≡ count) × (drop 24 whole ≡ body)
unfolding to_bytes word_0 word_1 from_bytes from_bytes_after limit
header_words count rest body h size = (refl, omega arith, drop-front 20 rest body size)

-- A packet: the version, the number of records that it states, the rest of the header, the records
-- and what follows them.
pub packet : ℕ → Bytes → List Export5 → Bytes → Bytes
unfolding encode_all to_bytes
packet count rest recs tail =
    to_bytes 2 5 ++ (to_bytes 2 count ++ (rest ++ (encode_all recs ++ tail)))

-- From a packet of NetFlow v5 the parser reads, of as many records as the header states, the limit
-- allows and the packet has, the flow with the addresses, ports, protocol and octets that the
-- record was written with; the other numbers of the header, the other fields of a record and a tail
-- shorter than a record do not matter.
pub parse_netflow_v5-packet :
    (count : ℕ) (rest : Bytes) (recs : List Export5) (tail : Bytes) (max_records : ℕ)
    → count < limit 2
    → length rest ≡ 20
    → All IsExport5 recs
    → length tail < 48
    → parse_netflow_v5 (packet count rest recs tail) max_records
      ≡ map flow_of_export (take (min count max_records) recs)
unfolding parse_netflow_v5 packet
parse_netflow_v5-packet count rest recs tail max_records h size hs short =
    let body = encode_all recs ++ tail in
    let whole = to_bytes 2 5 ++ (to_bytes 2 count ++ (rest ++ body)) in
    let (version, stated, after) = header_words count rest body h size in
    rw (version, stated, after, v5_records-encode_all (min count max_records) recs tail hs short)
      (ground (arith, length-header count rest body size))
