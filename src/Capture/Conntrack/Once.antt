-- ===== src/Capture/Conntrack/Once.antt =====
-- `ConntrackFlowSource.poll_once`: which flows a poll emits, and how often.
use sentinel_pi.Prelude.{
  ℕ, suc, ◌≡◌, refl, sym, if_pos, if_neg, Bool, true, false, ◌||◌, ◌&&◌, not, String, none, some,
  Option-cases, inl, inr, List, [], ◌∷◌, elem, eqb, five_key, if◌then◌else◌, arith,
}
use sentinel_pi.Prelude.Dict.{Dict, get, put, IsUnique, put-IsUnique}
use sentinel_pi.Models.{Datetime}
use sentinel_pi.Capture.{FlowRecord, FlowKey, flow_key, Queue}
use sentinel_pi.Capture.Queueing.{emitted_to, emit_all_lem}
use sentinel_pi.Capture.Conntrack.{
  Table, Source, parse_conntrack_line, read_conntrack, current_from, keys, unseen, poll_once,
}

-- Whether a line of the table is of a flow with the key.
pub reported : FlowKey → List String → Bool
reported k [] = false
reported k (line ∷ lines) = elim (parse_conntrack_line line) [
  | none ↦ reported k lines
  | some flow ↦ eqb k (flow_key flow) || reported k lines
]

-- How many of the flows have the key.
pub count_key : FlowKey → List FlowRecord → ℕ
count_key k [] = 0
count_key k (flow ∷ flows) =
    if eqb k (flow_key flow) then suc (count_key k flows) else count_key k flows

-- Each flow stands under its own key.
abbrev IsKeyed : Dict FlowKey FlowRecord → Type 0
IsKeyed [] = Unit
IsKeyed ((k, flow) ∷ d) = (k ≡ flow_key flow) × IsKeyed d

put-IsKeyed :
    (flow : FlowRecord) (d : Dict FlowKey FlowRecord)
    → IsKeyed d
    → IsKeyed (put (flow_key flow) flow d)
unfolding put
put-IsKeyed flow [] h = (refl, tt)
put-IsKeyed flow ((j, f) ∷ d) h = elim (five_key.dec (flow_key flow) j) [
  | yes e ↦ rw (if_pos _ e) (sym e, h.1)
  | no e ↦ rw (if_neg _ e) (h.0, put-IsKeyed flow d h.1)
]

elem-keys-put :
    (k j : FlowKey) (flow : FlowRecord) (d : Dict FlowKey FlowRecord)
    → elem k (keys (put j flow d)) ≡ (eqb k j || elem k (keys d))
unfolding keys put
elem-keys-put k j flow [] = ground arith
elem-keys-put k j flow ((i, f) ∷ d) = ground (arith, elem-keys-put k j flow d)

get-keys : (k : FlowKey) (d : Dict FlowKey FlowRecord) → get k d ≡ none → elem k (keys d) ≡ false
unfolding keys get
get-keys k [] h = refl
get-keys k ((j, f) ∷ d) h = ground (arith, get-keys k d)

elem-current_from :
    (k : FlowKey) (lines : List String) (d : Dict FlowKey FlowRecord)
    → elem k (keys (current_from lines d)) ≡ (reported k lines || elem k (keys d))
unfolding current_from reported
elem-current_from k [] d = refl
elem-current_from k (line ∷ lines) d = elim (Option-cases (parse_conntrack_line line)) [
  | inl e ↦ rw (e, current_from, reported) (elem-current_from k lines d)
  | inr (flow, e) ↦
      rw (e, current_from, reported)
        (ground (
          arith,
          elem-current_from k lines (put (flow_key flow) flow d),
          elem-keys-put k (flow_key flow) flow d,
        ))
]

count_key-unseen :
    (k : FlowKey) (seen : List FlowKey) (d : Dict FlowKey FlowRecord)
    → IsUnique d
    → IsKeyed d
    → count_key k (unseen seen d) ≡ (if elem k (keys d) && not (elem k seen) then 1 else 0)
unfolding count_key unseen keys
count_key-unseen k seen [] u h = refl
count_key-unseen k seen ((j, f) ∷ d) u h =
    ground (arith, h.0, get-keys j d u.0, count_key-unseen k seen d u.1 h.1)

current_from-lem :
    (lines : List String) (d : Dict FlowKey FlowRecord)
    → IsUnique d
    → IsKeyed d
    → IsUnique (current_from lines d) × IsKeyed (current_from lines d)
unfolding current_from
current_from-lem [] d u h = (u, h)
current_from-lem (line ∷ lines) d u h = elim (Option-cases (parse_conntrack_line line)) [
  | inl e ↦ rw (e, current_from) (current_from-lem lines d u h)
  | inr (flow, e) ↦
      rw (e, current_from)
        (current_from-lem lines (put (flow_key flow) flow d) (put-IsUnique (flow_key flow) flow d u)
          (put-IsKeyed flow d h))
]

-- A poll of a primed source that can read the table takes care of a list of flows in which a key
-- stands exactly once if the table reports it and the last poll did not see it, and otherwise not at
-- all. The flows for which the queue has room are appended to it and counted as emitted, the others
-- as dropped, and the keys that the table reports are the ones seen.
pub poll_once-new :
    (t : Table) (now : Datetime) (q : Queue) (s : Source) (lines : List String)
    → s.primed ≡ true
    → read_conntrack t ≡ some lines
    → (flows : List FlowRecord) × (seen : List FlowKey) × (let sent =
          emitted_to flows now q s.counts in
        poll_once t now q s
        ≡ (sent.0, sent.1, record { seen = seen; primed = true; counts = sent.2 }))
      × ((k : FlowKey)
          → (count_key k flows ≡ (if reported k lines && not (elem k s.seen) then 1 else 0))
            × (elem k seen ≡ reported k lines))
unfolding poll_once
poll_once-new t now q s lines primed readable =
    let current = current_from lines [] in
    let flows = unseen s.seen current in
    let ok = current_from-lem lines [] tt tt in
    (
      flows,
      keys current,
      rw (readable, poll_once, emit_all_lem flows now q s.counts) (ground (arith, primed)),
      λ k.
          let e = elem-current_from k lines [] in
          (ground (arith, e, count_key-unseen k s.seen current ok.0 ok.1), ground (arith, e)),
    )
