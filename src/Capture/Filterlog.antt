-- ===== src/Capture/Filterlog.antt =====
-- `FilterlogSource` of capture/flow_ingest.py. A position in the file is a number of characters, as
-- for an ASCII file without carriage returns.
pub mod Chunks
use Prim.Native.String.{◌++◌, count}
use sentinel_pi.Prelude.{
  ℕ, suc, ◌+◌, max, String, Bool, true, false, ◌&&◌, ◌||◌, not, Option, none, some, List, [], ◌∷◌,
  get_elem?, length, eqb, string_key, ltb, leb, ◌==◌, if◌then◌else◌,
}
use sentinel_pi.Models.{Datetime}
use sentinel_pi.Text.{strip, lower, contains}
use sentinel_pi.Text.Search.{split_at, from_match, drop_chars, int, isdigit}
use sentinel_pi.Capture.{FlowRecord, Queue, Counts, emit_all}

-- The body of a line: what follows the first colon of the tag, or the whole line if it has no tag.
csv_of : String → String
csv_of line = elim (from_match "filterlog" line) [
  | none ↦ strip line
  | some tagged ↦ elim (from_match ":" tagged) [ none ↦ "" | some rest ↦ strip (drop_chars 1 rest) ]
]

-- `f[i]`, for an index that is known to be there.
at : List String → ℕ → String
at f i = elim (get_elem? f i) [ none ↦ "" | some s ↦ s ]

-- `_port`
port : List String → ℕ → String → ℕ
unfolding at isdigit int
port f i proto =
    if (eqb proto "tcp" || eqb proto "udp") && ltb i (length f) && isdigit (at f i)
    then int (at f i)
    else 0

-- The end of `parse_filterlog_line`, with the places of the addresses and of the ports.
with_layout : List String → String → ℕ → ℕ → ℕ → ℕ → Option FlowRecord
unfolding at port
with_layout f proto src dst sport dport =
    if leb (length f) dst
    then none
    else if eqb (at f src) "" || eqb (at f dst) ""
    then none
    else some (record {
      src_ip = at f src;
      src_port = port f sport proto;
      dst_ip = at f dst;
      dst_port = port f dport proto;
      protocol = proto;
      size = 0;
    })

unfoldable pub parse_filterlog_line : String → Option FlowRecord
unfolding csv_of at with_layout
parse_filterlog_line line =
    let csv = csv_of line in
    let f = split_at b',' csv in
    if eqb csv ""
    then none
    else if leb (length f) 8
    then none
    else if eqb (at f 8) "4"
    then with_layout f (lower (at f 16)) 18 19 20 21
    else if eqb (at f 8) "6"
    then with_layout f (lower (at f 12)) 15 16 17 18
    else none

-- The file at one poll: what `os.stat` says, and the text if it can be opened.
pub record LogFile : Type 0 where
  pub inode : ℕ
  pub size : ℕ
  pub content : Option String

pub record Tail : Type 0 where
  pub offset : ℕ
  pub inode : Option ℕ
  pub buf : String

-- `start`, when the file is there: its end is where the reading begins.
unfoldable pub start : LogFile → Tail
start file = record { offset = file.size; inode = some file.inode; buf = "" }

-- `*complete, rest = parts`
unfoldable pub unsnoc : List String → List String × String
unsnoc [] = ([], "")
unsnoc (part ∷ []) = ([], part)
unsnoc (part ∷ next ∷ parts) = let rest = unsnoc (next ∷ parts) in (part ∷ rest.0, rest.1)

-- Rotation, or truncation: the file is read from the top.
unfoldable pub follow_file : LogFile → Tail → Tail
follow_file file s =
    let top : Tail = record { offset = 0; inode = some file.inode; buf = "" } in
    let same : Tail = record s { inode = some file.inode } in
    elim s.inode [
      | none ↦ if ltb file.size s.offset then top else same
      | some inode ↦ if not (inode == file.inode) || ltb file.size s.offset then top else same
    ]

-- The text that was read joins the buffer, and the lines that it completes leave it.
unfoldable pub take_lines : String → Tail → List String × Tail
unfolding unsnoc
take_lines text s =
    let buf = s.buf ++ text in
    if not (contains "\n" buf)
    then ([], record s { buf = buf })
    else (let parts = unsnoc (split_at 10 buf) in (parts.0, record s { buf = parts.1 }))

-- `_read_new_lines`; `none` is a file that is not there.
unfoldable pub read_new_lines : Option LogFile → Tail → List String × Tail
read_new_lines none s = ([], s)
read_new_lines (some file) s =
    let s' = follow_file file s in
    if file.size == s'.offset then ([], s') else elim file.content [
      | none ↦ ([], s')
      | some content ↦
          take_lines (drop_chars s'.offset content)
            (record s' { offset = max s'.offset (count content) })
    ]

unfoldable pub flows_of : List String → List FlowRecord
unfolding parse_filterlog_line
flows_of [] = []
flows_of (line ∷ lines) = elim (parse_filterlog_line line) [
  | none ↦ flows_of lines
  | some flow ↦ flow ∷ flows_of lines
]

-- `poll_once`: how many flows it emitted.
unfoldable pub poll_once :
    Option LogFile → Datetime → Queue → Counts → Tail → ℕ × Queue × Counts × Tail
unfolding read_new_lines flows_of
poll_once file now q c s =
    let read = read_new_lines file s in
    let sent = emit_all (flows_of read.0) now q c in (sent.0, sent.1, sent.2, read.1)
