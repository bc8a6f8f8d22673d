-- ===== src/Detectors/Lateral/Seen.antt =====
-- What the lateral movement detector has seen: an admin connection is reported as new at most once.
use sentinel_pi.Prelude.{
  ℕ, String, ◌≡◌, ◌∙◌, ap, Bool, true, false, ◌||◌, Option, none, List, [], ◌∷◌, string_key,
  triple_key, elem, elem-head, elem-tail, arith, if◌then◌else◌, if_intro,
}
use sentinel_pi.Models.{Alert, Datetime}
use sentinel_pi.Network.{Address, Subnet}
use sentinel_pi.Capture.{CapturedConnection}
use sentinel_pi.World.{Trace, Env}
use sentinel_pi.Detectors.PortScan.{ProcConnection, append_entry, to_alerts}
use sentinel_pi.Detectors.Lateral.{
  Lateral, Baseline, is_admin, add_pair, check_admin_fanout, check_new_admin_connection,
  record_internal_connection, process_captured, is_followed, record_all, poll_connections,
}

-- A source, a destination and an admin port.
abbrev pub Link : Type 0
Link = String × String × ℕ

abbrev pub is_known : Link → Lateral → Bool
is_known k d = elem k d.known_admin_pairs

-- Whether one of two hosts is in the whitelist.
abbrev pub is_exempt : String → String → Lateral → Bool
is_exempt src dst d = elem src d.config.whitelist_ips || elem dst d.config.whitelist_ips

-- Nothing that was known is forgotten.
abbrev Keeps : Lateral → {A : Type 0} → A × Lateral → Type 0
Keeps d out = (k : Link) → is_known k d ≡ true → is_known k out.1 ≡ true

-- What the detector is told of, each time with what the baseline answers then.
pub data Input : Type 0 where
  captured : CapturedConnection → Baseline → Trace → Input
  polled : List (ProcConnection × Baseline) → Trace → Input

add_pair-adds : (k : Link) (d : Lateral) → is_known k (add_pair k d) ≡ true
unfolding add_pair
add_pair-adds k d =
    if_intro (λ ks. elem k ks ≡ true) (elem k d.known_admin_pairs) (λ known. known)
      (λ _. elem-head k d.known_admin_pairs)

add_pair-keeps : (k j : Link) (d : Lateral) → is_known j d ≡ true → is_known j (add_pair k d) ≡ true
unfolding add_pair
add_pair-keeps k j d h =
    if_intro (λ ks. elem j ks ≡ true) (elem k d.known_admin_pairs) (λ _. h)
      (λ _. elem-tail j k d.known_admin_pairs h)

module _ (env : Env) (ip_address : String → Option Address) (ip_network : String → Option Subnet)
    (join_set : List String → String) where
  -- The alert on many targets, and no other.
  unfoldable pub fanout_only : String → String → ℕ → Datetime → Lateral → Trace → List Alert
  fanout_only src dst port now d t =
      let recorded = record d {
        internal_conns = append_entry src (now, (dst, port)) d.internal_conns;
      } in
      if is_exempt src dst d
      then []
      else to_alerts (check_admin_fanout env ip_address ip_network join_set src now recorded t).0

  check_admin_fanout-known :
      (src : String) (now : Datetime) (d : Lateral) (t : Trace)
      → (check_admin_fanout env ip_address ip_network join_set src now d t).1.known_admin_pairs
        ≡ d.known_admin_pairs
  unfolding check_admin_fanout
  check_admin_fanout-known src now d t = ground arith

  check_new_admin_connection-Keeps :
      (src dst : String) (port : ℕ) (now : Datetime) (b : Baseline) (d : Lateral) (t : Trace)
      → Keeps d
          (check_new_admin_connection env ip_address ip_network join_set src dst port now b d t)
  unfolding check_new_admin_connection
  check_new_admin_connection-Keeps src dst port now b d t k h =
      ground (arith, h, add_pair-keeps (src, dst, port) k d h)

  -- After the check the connection is known, whatever came of it.
  check_new_admin_connection-known :
      (src dst : String) (port : ℕ) (now : Datetime) (b : Baseline) (d : Lateral) (t : Trace)
      → is_known
          (src, dst, port)
          (check_new_admin_connection env ip_address ip_network join_set src dst port now b d t).1
        ≡ true
  unfolding check_new_admin_connection
  check_new_admin_connection-known src dst port now b d t =
      ground (arith, add_pair-adds (src, dst, port) d)

  -- A known connection is not new.
  check_new_admin_connection-silent :
      (src dst : String) (port : ℕ) (now : Datetime) (b : Baseline) (d : Lateral) (t : Trace)
      → is_known (src, dst, port) d ≡ true
      → (check_new_admin_connection env ip_address ip_network join_set src dst port now b d t).0
        ≡ none
  unfolding check_new_admin_connection
  check_new_admin_connection-silent src dst port now b d t h = ground (arith, h)

  -- Recording keeps what is known, and knows the connection if it is an admin connection of hosts
  -- that are not in the whitelist.
  record_internal_connection-Keeps :
      (src dst : String) (port : ℕ) (now : Datetime) (b : Baseline) (d : Lateral) (t : Trace)
      → Keeps d
          (record_internal_connection env ip_address ip_network join_set src dst port now b d t)
  unfolding record_internal_connection
  record_internal_connection-Keeps src dst port now b d t k h =
      let recorded = record d {
        internal_conns = append_entry src (now, (dst, port)) d.internal_conns;
      } in
      let d' : Lateral =
        (check_admin_fanout env ip_address ip_network join_set src now recorded t).1 in
      let same : is_known k d' ≡ is_known k d =
        ap (elem k) (check_admin_fanout-known src now recorded t) in
      ground (arith, h, same, check_new_admin_connection-Keeps src dst port now b d' t k)

  record_internal_connection-known :
      (src dst : String) (port : ℕ) (now : Datetime) (b : Baseline) (d : Lateral) (t : Trace)
      → is_exempt src dst d ≡ false
      → is_admin port ≡ true
      → is_known
          (src, dst, port)
          (record_internal_connection env ip_address ip_network join_set src dst port now b d t).1
        ≡ true
  unfolding record_internal_connection
  record_internal_connection-known src dst port now b d t out admin =
      let recorded = record d {
        internal_conns = append_entry src (now, (dst, port)) d.internal_conns;
      } in
      let d' : Lateral =
        (check_admin_fanout env ip_address ip_network join_set src now recorded t).1 in
      ground (arith, out, admin, check_new_admin_connection-known src dst port now b d' t)

  process_captured-Keeps :
      (c : CapturedConnection) (b : Baseline) (d : Lateral) (t : Trace)
      → Keeps d (process_captured env ip_address ip_network join_set c b d t)
  unfolding process_captured
  process_captured-Keeps c b d t k h =
      ground (
        arith,
        h,
        record_internal_connection-Keeps c.src_ip c.dst_ip c.dst_port c.timestamp b d t k,
      )

  record_all-Keeps :
      (cs : List (ProcConnection × Baseline)) (now : Datetime) (d : Lateral) (t : Trace)
      → Keeps d (record_all env ip_address ip_network join_set cs now d t)
  unfolding record_all
  record_all-Keeps [] now d t k h = h
  record_all-Keeps ((c, b) ∷ cs) now d t k h =
      let followed : Lateral =
        (record_internal_connection env ip_address ip_network join_set c.local_ip c.remote_ip
          c.remote_port now b d t).1 in
      let test : Bool = is_followed env ip_address ip_network join_set d.config c in
      let d' : Lateral = if test then followed else d in
      record_all-Keeps cs now d' t k (
        if_intro (λ s. is_known k s ≡ true) test
          (λ _. record_internal_connection-Keeps c.local_ip c.remote_ip c.remote_port now b d t k h)
          (λ _. h))

  poll_connections-Keeps :
      (cs : List (ProcConnection × Baseline)) (d : Lateral) (t : Trace)
      → Keeps d (poll_connections env ip_address ip_network join_set cs d t)
  unfolding poll_connections
  poll_connections-Keeps cs d t k h = record_all-Keeps cs (env.clock t) _ t k h

  -- The detector after all that it is told.
  unfoldable pub after : List Input → Lateral → Lateral
  after [] d = d
  after (captured c b t ∷ rest) d =
      after rest (process_captured env ip_address ip_network join_set c b d t).1
  after (polled cs t ∷ rest) d =
      after rest (poll_connections env ip_address ip_network join_set cs d t).1

  after-keeps :
      (inputs : List Input) (d : Lateral) (k : Link)
      → is_known k d ≡ true
      → is_known k (after inputs d) ≡ true
  unfolding after
  after-keeps [] d k h = h
  after-keeps (captured c b t ∷ rest) d k h =
      after-keeps rest _ k (process_captured-Keeps c b d t k h)
  after-keeps (polled cs t ∷ rest) d k h = after-keeps rest _ k (poll_connections-Keeps cs d t k h)

  record_internal_connection-silent :
      (src dst : String) (port : ℕ) (now : Datetime) (b : Baseline) (d : Lateral) (t : Trace)
      → is_known (src, dst, port) d ≡ true
      → (record_internal_connection env ip_address ip_network join_set src dst port now b d t).0
        ≡ fanout_only src dst port now d t
  unfolding record_internal_connection fanout_only
  record_internal_connection-silent src dst port now b d t h =
      let recorded = record d {
        internal_conns = append_entry src (now, (dst, port)) d.internal_conns;
      } in
      let d' : Lateral =
        (check_admin_fanout env ip_address ip_network join_set src now recorded t).1 in
      let same : is_known (src, dst, port) d' ≡ is_known (src, dst, port) d =
        ap (elem (src, dst, port)) (check_admin_fanout-known src now recorded t) in
      let silent : (check_new_admin_connection env ip_address ip_network join_set src dst port now b
            d' t).0
          ≡ none =
        check_new_admin_connection-silent src dst port now b d' t (same ∙ h) in
      if_intro (λ (out : List Alert × Lateral). out.0 ≡ fanout_only src dst port now d t)
        (is_exempt src dst d) (λ e. ground (arith, e)) (λ e. ground (arith, e, silent))

  -- An admin connection between hosts that are not in the whitelist is reported as new at most once:
  -- once it has been recorded, whatever is captured and polled after that and whatever the baseline
  -- answers, recording it again gives the alert on many targets, if that is due, and no other.
  pub record_internal_connection_once :
      (src dst : String) (port : ℕ) (now later : Datetime) (b b' : Baseline) (d : Lateral)
      (t t' : Trace) (inputs : List Input)
      → is_exempt src dst d ≡ false
      → is_admin port ≡ true
      → let first =
          (record_internal_connection env ip_address ip_network join_set src dst port now b d
            t).1 in
        let d' = after inputs first in
        (record_internal_connection env ip_address ip_network join_set src dst port later b' d'
          t').0
        ≡ fanout_only src dst port later d' t'
  record_internal_connection_once src dst port now later b b' d t t' inputs out admin =
      record_internal_connection-silent src dst port later b' _ t' (
        after-keeps inputs _ (src, dst, port)
          (record_internal_connection-known src dst port now b d t out admin))
