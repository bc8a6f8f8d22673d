-- ===== src/Capture/Queueing.antt =====
-- What the flow sources' loop over `_enqueue` does to a queue, full or not.
use mathlib.Core.List.{append_assoc, append-nil}
use sentinel_pi.Prelude.{
  ℕ, zero, suc, ◌+◌, ◌-◌, ◌≤◌, ◌<◌, ◌≡◌, refl, Bool-cases, inl, inr, true, false, List, [], ◌∷◌,
  ◌++◌, map, length, length-append, length-take, take, ◌==◌, if◌then◌else◌, arith,
}
use sentinel_pi.Models.{Datetime}
use sentinel_pi.Capture.{
  FlowRecord, CapturedConnection, Queue, Counts, to_event, is_full, enqueue, emit_all,
}

-- The flows for which the queue has room: all of them if it is unbounded.
pub admitted : Queue → List FlowRecord → List FlowRecord
admitted q flows = if q.maxsize == 0 then flows else take (q.maxsize - length q.items) flows

pub events : Datetime → List FlowRecord → List CapturedConnection
events now flows = map (λ (f : FlowRecord). to_event f now) flows

-- The queue and the counters after the loop.
abbrev pub emitted_to : List FlowRecord → Datetime → Queue → Counts → ℕ × Queue × Counts
emitted_to flows now q c =
    let n = length (admitted q flows) in
    (
      n,
      record q { items = q.items ++ events now (admitted q flows) },
      record { emitted = c.emitted + n; dropped = c.dropped + (length flows - n) },
    )

admitted_full : (q : Queue) (flows : List FlowRecord) → is_full q ≡ true → admitted q flows ≡ []
unfolding is_full admitted
admitted_full q [] h = ground arith
admitted_full q (f ∷ flows) h =
    let none_left : q.maxsize - length q.items ≡ 0 = ground (arith, h) in
    rw none_left (ground (arith, h))

admitted_room :
    (q : Queue) (now : Datetime) (f : FlowRecord) (flows : List FlowRecord)
    → is_full q ≡ false
    → admitted q (f ∷ flows)
      ≡ f ∷ admitted (record q { items = q.items ++ to_event f now ∷ [] }) flows
unfolding is_full admitted
admitted_room q now f flows h = elim (Bool-cases (q.maxsize == 0)) [
  | inl e ↦ rw e refl
  | inr e ↦
      let one = length-append q.items (to_event f now ∷ []) in
      let left : q.maxsize - length q.items
          ≡ suc (q.maxsize - length (q.items ++ to_event f now ∷ [])) =
        ground (arith, h, e, one) in
      rw (e, left) refl
]

take_nil : (n : ℕ) → take {A = FlowRecord} n [] ≡ []
take_nil zero = refl
take_nil (suc n) = refl

admitted_nil : (q : Queue) → admitted q [] ≡ []
unfolding admitted
admitted_nil q = ground (arith, take_nil (q.maxsize - length q.items))

-- Each flow in turn is appended while there is room and counted as dropped once there is none.
pub emit_all_lem :
    (flows : List FlowRecord) (now : Datetime) (q : Queue) (c : Counts)
    → emit_all flows now q c ≡ emitted_to flows now q c
unfolding emit_all events
emit_all_lem [] now q c = rw (admitted_nil q) (rw (append-nil q.items) (ground arith))
emit_all_lem (f ∷ flows) now q c = elim (Bool-cases (is_full q)) [
  | inl full ↦
      let refused : enqueue f now q ≡ (false, q) = unfold enqueue in rw full refl in
      let c' : Counts = record c { dropped = c.dropped + 1 } in
      rw
        (
          refused,
          emit_all_lem flows now q c',
          admitted_full q flows full,
          admitted_full q (f ∷ flows) full,
        )
        (ground arith)
  | inr room ↦
      let q' : Queue = record q { items = q.items ++ to_event f now ∷ [] } in
      let c' : Counts = record c { emitted = c.emitted + 1 } in
      let taken : enqueue f now q ≡ (true, q') = unfold enqueue in rw room refl in
      rw
        (
          taken,
          emit_all_lem flows now q' c',
          admitted_room q now f flows room,
          append_assoc q.items (to_event f now ∷ []) (events now (admitted q' flows)),
        )
        (ground arith)
]

-- The queue stays within its size.
pub length-admitted :
    (q : Queue) (flows : List FlowRecord)
    → 0 < q.maxsize
    → length q.items ≤ q.maxsize
    → length q.items + length (admitted q flows) ≤ q.maxsize
unfolding admitted
length-admitted q flows bounded h = ground (arith, length-take (q.maxsize - length q.items) flows)
