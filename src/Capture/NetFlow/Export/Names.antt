-- ===== src/Capture/NetFlow/Export/Names.antt =====
-- The name of a protocol, by its number: what `_proto_name` is held to.
use sentinel_pi.Prelude.{ℕ, String, ◌≡◌, ◌==◌, if◌then◌else◌, arith}
use sentinel_pi.Capture.{proto_name}
use sentinel_pi.Text.Show.{show}

-- ICMP is 1, TCP 6 and UDP 17; another protocol goes by its number.
abbrev pub protocol_text : ℕ → String
protocol_text n =
    if n == 17 then "udp" else if n == 6 then "tcp" else if n == 1 then "icmp" else show n

pub proto_name_lem : (n : ℕ) → proto_name n ≡ protocol_text n
unfolding proto_name
proto_name_lem n = ground arith
