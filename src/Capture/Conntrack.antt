-- ===== src/Capture/Conntrack.antt =====
-- `ConntrackFlowSource` of capture/flow_ingest.py. What the command and the file in /proc give is an
-- argument of each poll.
pub mod Once
use sentinel_pi.Prelude.{
  ℕ, ◌+◌, String, Bool, true, false, ◌&&◌, not, Option, none, some, List, [], ◌∷◌, elem, eqb,
  string_key, five_key, ◌==◌, if◌then◌else◌,
}
use sentinel_pi.Prelude.Dict.{Dict, put}
use sentinel_pi.Models.{Datetime}
use sentinel_pi.Text.{is_digit}
use sentinel_pi.Text.Search.{search_word, search_value, non_space, int, split_lines}
use sentinel_pi.Capture.{FlowRecord, FlowKey, flow_key, Queue, Counts, emit_all}

port_of : Option String → ℕ
port_of digits = elim digits [ none ↦ 0 | some s ↦ int s ]

unfoldable pub parse_conntrack_line : String → Option FlowRecord
unfolding search_word search_value port_of
parse_conntrack_line line = elim (search_word false ("tcp" ∷ "udp" ∷ "icmp" ∷ []) line) [
  | none ↦ none
  | some protocol ↦ elim (search_value false non_space "src=" line) [
    | none ↦ none
    | some src_ip ↦ elim (search_value false non_space "dst=" line) [
      | none ↦ none
      | some dst_ip ↦ some (record {
        src_ip = src_ip;
        src_port = port_of (search_value false is_digit "sport=" line);
        dst_ip = dst_ip;
        dst_port = port_of (search_value false is_digit "dport=" line);
        protocol = protocol;
        size = 0;
      })
    ]
  ]
]

-- What `conntrack -L` gives, an exit code and its output or none if it cannot be run, and the file.
pub record Table : Type 0 where
  pub command : Option (ℕ × String)
  pub proc_file : Option String

unfoldable pub proc_lines : Table → Option (List String)
unfolding split_lines
proc_lines t = elim t.proc_file [ none ↦ none | some text ↦ some (split_lines false text) ]

-- `_read_conntrack`
unfoldable pub read_conntrack : Table → Option (List String)
unfolding proc_lines split_lines
read_conntrack t = elim t.command [
  | none ↦ proc_lines t
  | some (code, output) ↦
      if code == 0 && not (eqb output "") then some (split_lines false output) else proc_lines t
]

-- The flows of the lines by their keys, as `current`.
unfoldable pub current_from : List String → Dict FlowKey FlowRecord → Dict FlowKey FlowRecord
unfolding parse_conntrack_line
current_from [] d = d
current_from (line ∷ lines) d =
    current_from lines
      (elim (parse_conntrack_line line) [ none ↦ d | some flow ↦ put (flow_key flow) flow d ])

unfoldable pub keys : Dict FlowKey FlowRecord → List FlowKey
keys [] = []
keys ((k, flow) ∷ d) = k ∷ keys d

-- The flows of which the loop of `poll_once` takes care: those whose key was not seen.
unfoldable pub unseen : List FlowKey → Dict FlowKey FlowRecord → List FlowRecord
unseen seen [] = []
unseen seen ((k, flow) ∷ d) = if elem k seen then unseen seen d else flow ∷ unseen seen d

pub record Source : Type 0 where
  pub seen : List FlowKey
  pub primed : Bool
  pub counts : Counts

-- `poll_once`: how many flows it emitted.
unfoldable pub poll_once : Table → Datetime → Queue → Source → ℕ × Queue × Source
unfolding read_conntrack current_from keys unseen
poll_once t now q s = elim (read_conntrack t) [
  | none ↦ (0, q, s)
  | some lines ↦
      let current = current_from lines [] in
      let sent = emit_all (unseen s.seen current) now q s.counts in
      if not s.primed
      then (0, q, record s { seen = keys current; primed = true })
      else (sent.0, sent.1, record s { seen = keys current; counts = sent.2 })
]
