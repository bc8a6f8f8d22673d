-- ===== src/Capture.antt =====
-- capture/: the events that detectors work on, and the flows that become such events. The queue is
-- Python's `queue.Queue`, which refuses an item that does not fit.
pub mod Bytes
pub mod Addresses
pub mod Queueing
pub mod NetFlow
pub mod Collector
pub mod Conntrack
pub mod Filterlog
use sentinel_pi.Prelude.{
  ℕ, ◌+◌, String, Bool, true, false, ◌&&◌, List, [], ◌∷◌, ◌++◌, ◌==◌, length, ltb, leb, not,
  if◌then◌else◌,
}
use sentinel_pi.Models.{Datetime}
use sentinel_pi.Text.Show.{show}

-- `CapturedConnection` of packet_capture.py
pub record CapturedConnection : Type 0 where
  pub timestamp : Datetime
  pub src_ip : String
  pub src_port : ℕ
  pub dst_ip : String
  pub dst_port : ℕ
  pub protocol : String
  pub flags : String
  pub size : ℕ

pub record FlowRecord : Type 0 where
  pub src_ip : String
  pub src_port : ℕ
  pub dst_ip : String
  pub dst_port : ℕ
  pub protocol : String
  pub size : ℕ

-- `FlowRecord.key`
abbrev pub FlowKey : Type 0
FlowKey = String × ℕ × String × ℕ × String

unfoldable pub flow_key : FlowRecord → FlowKey
flow_key f = (f.src_ip, f.src_port, f.dst_ip, f.dst_port, f.protocol)

-- `_proto_name`, for a number that `str` takes. Where it raises is in NetFlow.Raises.
unfoldable pub proto_name : ℕ → String
proto_name n =
    if n == 1 then "icmp" else if n == 6 then "tcp" else if n == 17 then "udp" else show n

-- `_to_event`
unfoldable pub to_event : FlowRecord → Datetime → CapturedConnection
to_event flow now = record {
  timestamp = now;
  src_ip = flow.src_ip;
  src_port = flow.src_port;
  dst_ip = flow.dst_ip;
  dst_port = flow.dst_port;
  protocol = flow.protocol;
  flags = "";
  size = flow.size;
}

-- A queue that holds at most `maxsize` items, or any number if that is 0.
pub record Queue : Type 0 where
  pub maxsize : ℕ
  pub items : List CapturedConnection

-- `queue.full()`
unfoldable pub is_full : Queue → Bool
is_full q = ltb 0 q.maxsize && leb q.maxsize (length q.items)

-- `_enqueue`: whether the flow was accepted.
unfoldable pub enqueue : FlowRecord → Datetime → Queue → Bool × Queue
unfolding is_full to_event
enqueue flow now q =
    if is_full q then (false, q) else (true, record q { items = q.items ++ to_event flow now ∷ [] })

-- The counters that the flow sources share.
pub record Counts : Type 0 where
  pub emitted : ℕ
  pub dropped : ℕ

-- `for flow in flows: if _enqueue(…): … else: …`, with the number that this call emitted.
unfoldable pub emit_all : List FlowRecord → Datetime → Queue → Counts → ℕ × Queue × Counts
unfolding enqueue
emit_all [] now q c = (0, q, c)
emit_all (flow ∷ flows) now q c =
    let (accepted, q') = enqueue flow now q in
    let c' : Counts =
      if accepted
      then record c { emitted = c.emitted + 1 }
      else record c { dropped = c.dropped + 1 } in
    let (n, q'', c'') = emit_all flows now q' c' in ((if accepted then n + 1 else n), q'', c'')
