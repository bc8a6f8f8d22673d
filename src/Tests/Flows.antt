-- ===== src/Tests/Flows.antt =====
-- Examples of the theorems on the flow sources.
use Prim.Native.String.{◌++◌ as join_text, count}
use sentinel_pi.Prelude.{
  ℕ, ◌+◌, ◌≡◌, ◌<◌, refl, String, true, not, ◌&&◌, some, none, List, [], ◌∷◌, ◌++◌, length, take,
  map, min, max, All, elem, five_key, nat_key, if◌then◌else◌, arith,
}
use sentinel_pi.Prelude.Dict.{put}
use sentinel_pi.Models.{Datetime}
use sentinel_pi.Text.Search.{split_lines}
use sentinel_pi.Network.{Subnet, ipv4, net4}
use sentinel_pi.Capture.{FlowRecord, FlowKey, Queue}
use sentinel_pi.Capture.Bytes.{Bytes, pack, to_bytes, limit, from_bytes, IsPackable, calcsize}
use sentinel_pi.Capture.NetFlow.{
  Field, lengths, word_0, parse_netflow, parse_netflow_v5, template_fields,
}
use sentinel_pi.Capture.NetFlow.Export.{
  encode_set, encode_templates, encode_fields, IsTemplate, words,
}
use sentinel_pi.Capture.NetFlow.Export.V5.{
  Export5, IsExport5, flow_of_export, packet, parse_netflow_v5-packet,
}
use sentinel_pi.Capture.NetFlow.Export.Record.{encode_records, flows_of}
use sentinel_pi.Capture.NetFlow.Export.Protocols.{v9, parse_netflow-export}
use sentinel_pi.Capture.NetFlow.Export.Enterprise.{template_fields-enterprise}
use sentinel_pi.Capture.Collector.{Collector, new_collector, run}
use sentinel_pi.Capture.Collector.Limits.{limits}
use sentinel_pi.Capture.Collector.Bounded.{IsBounded}
use sentinel_pi.Capture.Collector.Bounded.Datagrams.{IsShort, run_lem}
use sentinel_pi.Capture.Queueing.{emitted_to}
use sentinel_pi.Capture.Conntrack.{Table, Source, read_conntrack, poll_once}
use sentinel_pi.Capture.Conntrack.Once.{count_key, reported, poll_once-new}
use sentinel_pi.Capture.Filterlog.{start}
use sentinel_pi.Capture.Filterlog.Chunks.{whole_lines, log, follow, join, follow-start}
use sentinel_pi.Tests.Response.{ip_address}

abbrev zeros : Bytes
zeros = 0 ∷ 0 ∷ 0 ∷ 0 ∷ 0 ∷ 0 ∷ 0 ∷ 0 ∷ 0 ∷ 0 ∷ 0 ∷ 0 ∷ 0 ∷ 0 ∷ []

abbrev header : Bytes
header = 0 ∷ 9 ∷ 0 ∷ 0 ∷ 0 ∷ 2 ∷ zeros

abbrev fields : List Field
fields = (8, 4) ∷ (12, 4) ∷ (7, 2) ∷ (11, 2) ∷ (4, 1) ∷ (1, 4) ∷ []

abbrev values : List ℕ
values = 3232235781 ∷ 3325256711 ∷ 5000 ∷ 443 ∷ 6 ∷ 1234 ∷ []

abbrev pad : Bytes
pad = 0 ∷ 0 ∷ 0 ∷ []

header_version : word_0 header ≡ 9
unfolding word_0 from_bytes
header_version = refl

template : IsTemplate (256, fields)
unfolding limit
template = omega arith

values_fit : All (IsPackable (lengths fields)) (values ∷ [])
unfolding limit lengths
values_fit = omega arith

padded : length pad < calcsize (lengths fields)
unfolding lengths calcsize
padded = omega arith

fits_template : 4 + length (encode_templates ((256, fields) ∷ [])) < limit 2
unfolding limit encode_templates encode_fields words pack to_bytes
fits_template = omega arith

fits : 4 + length (encode_records fields (values ∷ []) ++ pad) < limit 2
unfolding limit encode_records pack to_bytes lengths
fits = omega arith

parse_netflow-export_example :
    parse_netflow
      (header
        ++ (encode_set 0 (encode_templates ((256, fields) ∷ []))
            ++ encode_set 256 (encode_records fields (values ∷ []) ++ pad)))
      []
      4096
    ≡ (flows_of fields (take 4096 (values ∷ [])), put 256 fields [])
parse_netflow-export_example =
    parse_netflow-export v9 header 256 fields (values ∷ []) pad [] 4096 refl header_version
      (omega arith) template (refl, (refl, (refl, (refl, (refl, (refl, tt)))))) values_fit padded
      fits_template fits

abbrev v5_rest : Bytes
v5_rest = 0 ∷ 0 ∷ 0 ∷ 0 ∷ 0 ∷ 0 ∷ 0 ∷ 0 ∷ 0 ∷ 0 ∷ 0 ∷ 0 ∷ 0 ∷ 0 ∷ 0 ∷ 0 ∷ 0 ∷ 0 ∷ 0 ∷ 0 ∷ []

abbrev dns : Export5
dns = record {
  src_addr = 167772165;
  dst_addr = 16843009;
  next_hop = 0;
  input = 0;
  output = 0;
  packets = 3;
  octets = 900;
  first = 0;
  last = 0;
  src_port = 5000;
  dst_port = 53;
  tcp_flags = 0;
  protocol = 17;
  tos = 0;
  src_as = 0;
  dst_as = 0;
  src_mask = 0;
  dst_mask = 0;
}

dns-IsExport5 : IsExport5 dns
unfolding limit
dns-IsExport5 = record {
  addresses = omega arith;
  interfaces = omega arith;
  amounts = omega arith;
  times = omega arith;
  ports = omega arith;
  marks = omega arith;
  systems = omega arith;
  masks = omega arith;
}

seven_fits : 7 < limit 2
unfolding limit
seven_fits = omega arith

-- The header states more records than there are.
parse_netflow_v5-packet_example :
    parse_netflow_v5 (packet 7 v5_rest (dns ∷ dns ∷ []) (1 ∷ [])) 4096
    ≡ map flow_of_export (take (min 7 4096) (dns ∷ dns ∷ []))
parse_netflow_v5-packet_example =
    parse_netflow_v5-packet 7 v5_rest (dns ∷ dns ∷ []) (1 ∷ []) 4096 seven_fits refl
      (dns-IsExport5, (dns-IsExport5, tt)) (omega arith)

four_bytes : 4 < limit 2
unfolding limit
four_bytes = omega arith

template_fields-enterprise_example :
    template_fields true 1 (words (32768 + 8) 4 ++ (0 ∷ 0 ∷ 37 ∷ 135 ∷ [] ++ []))
    ≡ template_fields true 1 (words 8 4 ++ [])
template_fields-enterprise_example =
    template_fields-enterprise 0 8 4 (0 ∷ 0 ∷ 37 ∷ 135 ∷ []) [] (omega arith) four_bytes refl

abbrev queue : Queue
queue = record { maxsize = 1; items = [] }

abbrev lan : List Subnet
lan = net4 (ipv4 192 168 0 0) 16 ∷ []

abbrev datagrams : List (Bytes × String × Datetime)
datagrams = (header, "192.168.1.5", 10) ∷ (header, "203.0.113.9", 11) ∷ []

datagrams-IsShort : All IsShort datagrams
datagrams-IsShort = (
  record { short = omega arith; small = omega arith },
  (record { short = omega arith; small = omega arith }, tt),
)

run_lem_example :
    (q' : Queue) × (c' : Collector) × (run ip_address datagrams queue
        (new_collector lan 16 32 0 4096)
      ≡ some (q', c'))
    × IsBounded c'
    × (limits c' ≡ (max 1 16, max 1 32, max 1 0, lan))
run_lem_example = run_lem ip_address lan 16 32 0 4096 datagrams queue datagrams-IsShort

follow-start_example : follow 7 "old\n" ("a\nb" ∷ "c\n" ∷ "d" ∷ []) (start (log 7 "old\n")) ≡ (
  (whole_lines (join ("a\nb" ∷ "c\n" ∷ "d" ∷ []))).0,
  record {
    offset = count (join_text "old\n" (join ("a\nb" ∷ "c\n" ∷ "d" ∷ [])));
    inode = some 7;
    buf = (whole_lines (join ("a\nb" ∷ "c\n" ∷ "d" ∷ []))).1;
  },
)
follow-start_example = follow-start 7 "old\n" ("a\nb" ∷ "c\n" ∷ "d" ∷ [])

abbrev conntrack_lines : List String
conntrack_lines =
    "tcp 6 10 src=10.0.0.5 dst=1.1.1.1 sport=5000 dport=443"
    ∷ "udp 17 10 src=10.0.0.5 dst=9.9.9.9 sport=5001 dport=53" ∷ []

abbrev table : Table
table = record {
  command = none;
  proc_file =
      some
        "tcp 6 10 src=10.0.0.5 dst=1.1.1.1 sport=5000 dport=443\nudp 17 10 src=10.0.0.5 dst=9.9.9.9 sport=5001 dport=53\n";
}

abbrev source : Source
source = record {
  seen = ("10.0.0.5", 5001, "9.9.9.9", 53, "udp") ∷ [];
  primed = true;
  counts = record { emitted = 4; dropped = 0 };
}

readable : read_conntrack table ≡ some conntrack_lines
unfolding read_conntrack split_lines
readable = refl

poll_once-new_example :
    (flows : List FlowRecord) × (seen : List FlowKey) × (let sent =
        emitted_to flows 20 queue source.counts in
      poll_once table 20 queue source
      ≡ (sent.0, sent.1, record { seen = seen; primed = true; counts = sent.2 }))
    × ((k : FlowKey)
        → (count_key k flows
            ≡ (if reported k conntrack_lines && not (elem k source.seen) then 1 else 0))
          × (elem k seen ≡ reported k conntrack_lines))
poll_once-new_example = poll_once-new table 20 queue source conntrack_lines refl readable
