-- ===== src/Tests/Capture.antt =====
-- Runs of the flow sources.
use sentinel_pi.Prelude.{◌≡◌, refl, [], ◌∷◌, String, String-discrete, some, false}
use sentinel_pi.Capture.Bytes.{Bytes, unpack}
use sentinel_pi.Text.Show.{show}
use sentinel_pi.Text.{strip, lower}
use sentinel_pi.Text.Search.{split_lines, int, from_match, drop_chars, split_at}
use sentinel_pi.Capture.Conntrack.{parse_conntrack_line}
use sentinel_pi.Capture.Filterlog.{parse_filterlog_line}
use sentinel_pi.Capture.Addresses.{inet_ntop6, inet_ntoa}

doc : Bytes
doc = 32 ∷ 1 ∷ 13 ∷ 184 ∷ 0 ∷ 0 ∷ 0 ∷ 0 ∷ 0 ∷ 0 ∷ 0 ∷ 0 ∷ 0 ∷ 0 ∷ 0 ∷ 31 ∷ []

ntop_1 : inet_ntop6 doc ≡ "2001:db8::1f"
unfolding inet_ntop6 doc unpack show
ntop_1 = refl

ntop_2 :
    inet_ntop6 (0 ∷ 0 ∷ 0 ∷ 0 ∷ 0 ∷ 0 ∷ 0 ∷ 0 ∷ 0 ∷ 0 ∷ 255 ∷ 255 ∷ 1 ∷ 2 ∷ 3 ∷ 4 ∷ [])
    ≡ "::ffff:1.2.3.4"
unfolding inet_ntop6 unpack inet_ntoa show
ntop_2 = refl

ntop_3 : inet_ntop6 (0 ∷ 0 ∷ 0 ∷ 0 ∷ 0 ∷ 0 ∷ 0 ∷ 0 ∷ 0 ∷ 0 ∷ 0 ∷ 0 ∷ 0 ∷ 0 ∷ 0 ∷ 0 ∷ []) ≡ "::"
unfolding inet_ntop6 unpack inet_ntoa show
ntop_3 = refl

ntop_4 :
    inet_ntop6 (254 ∷ 128 ∷ 0 ∷ 0 ∷ 0 ∷ 1 ∷ 0 ∷ 0 ∷ 0 ∷ 0 ∷ 0 ∷ 0 ∷ 18 ∷ 52 ∷ 0 ∷ 0 ∷ [])
    ≡ "fe80:0:1::1234:0"
unfolding inet_ntop6 unpack inet_ntoa show
ntop_4 = refl

line : String
line =
    "ipv4     2 tcp      6 431999 ESTABLISHED src=10.0.0.5 dst=1.1.1.1 sport=5000 dport=443 src=1.1.1.1 dst=10.0.0.5 sport=443 dport=5000"

parse_line :
    parse_conntrack_line line
    ≡ some (record {
      src_ip = "10.0.0.5";
      src_port = 5000;
      dst_ip = "1.1.1.1";
      dst_port = 443;
      protocol = "tcp";
      size = 0;
    })
unfolding parse_conntrack_line line int
parse_line = refl

lines_of : split_lines false "a\r\nb\n\nc" ≡ "a" ∷ "b" ∷ "" ∷ "c" ∷ []
unfolding split_lines
lines_of = refl

log_line : String
log_line =
    "<134>Jul  1 12:00:00 fw filterlog[123]: 5,,,1000,em0,match,block,in,4,0x0,,64,0,0,DF,6,TCP,60,203.0.113.9,192.168.1.10,55555,22,0"

parse_log :
    parse_filterlog_line log_line
    ≡ some (record {
      src_ip = "203.0.113.9";
      src_port = 55555;
      dst_ip = "192.168.1.10";
      dst_port = 22;
      protocol = "tcp";
      size = 0;
    })
unfolding parse_filterlog_line log_line String-discrete from_match strip drop_chars split_at lower
parse_log = refl
