-- ===== src/Detectors/Profiles/Hosts/Repeats.antt =====
-- A connection that is handled a second time before a restart is on the host's profile.
use sentinel_pi.Prelude.{
  ℕ, ◌≡◌, refl, String, Bool, true, false, ◌&&◌, ◌||◌, not, Option, List, [], ◌∷◌, eqb, ltb, ◌==◌,
  string_key, nat_key, pair_key, if_intro,
}
use sentinel_pi.Models.{Alert}
use sentinel_pi.Network.{Address, Subnet}
use sentinel_pi.World.{Trace, Env, ok}
use sentinel_pi.Text.Show.{show}
use sentinel_pi.Capture.{CapturedConnection}
use sentinel_pi.Inventory.Tracker.{Tracker}
use sentinel_pi.Detectors.Profiles.{Moment, ProfileConfig, Handled}
use sentinel_pi.Detectors.Profiles.Held.{IsHeld}
use sentinel_pi.Detectors.Profiles.Hosts.{
  Dimension, dst_port, peer, protocol, byte_range, dimension_name, byte_bucket, HostProfiles,
  Outcome, then_observe, observe_dimension, is_here, process_profile,
}
use sentinel_pi.Detectors.Profiles.Hosts.Steps.{
  then_observe-keeps, then_observe-ok, then_observe-none, observe_dimension-IsHeld,
  observe_dimension-ok, observe_dimension-none,
}

module _ (env : Env) (ip_address : String → Option Address) (ip_network : String → Option Subnet)
    (config : ProfileConfig) where
  -- What `_process_event` does for one dimension: its test, the value and the least number of others.
  abbrev test_of : CapturedConnection → Dimension → Bool
  test_of c dst_port = not (c.dst_port == 0)
  test_of c peer =
      not (eqb c.dst_ip "")
      && is_here env ip_address ip_network config c.dst_ip
      && not (eqb c.dst_ip c.src_ip)
  test_of c protocol = not (eqb c.protocol "")
  test_of c byte_range = ltb 0 c.size

  abbrev value_of : CapturedConnection → Dimension → String
  value_of c dst_port = show c.dst_port
  value_of c peer = c.dst_ip
  value_of c protocol = c.protocol
  value_of c byte_range = byte_bucket c.size

  abbrev min_known : Dimension → ℕ
  min_known dst_port = config.min_known_ports
  min_known peer = config.min_known_peers
  min_known protocol = config.min_known_protocols
  min_known byte_range = config.min_known_byte_ranges

  abbrev look_at :
      CapturedConnection
      → (Dimension → Moment)
      → Tracker
      → Trace
      → Dimension
      → HostProfiles
      → Outcome
  look_at c m s t dim p =
      observe_dimension env ip_address ip_network config (test_of c dim) c.src_ip dim
        (value_of c dim) (min_known dim) (m dim) s t p

  -- One dimension after another. `process_profile` computes to this on all four.
  abbrev look_at_all :
      CapturedConnection
      → (Dimension → Moment)
      → Tracker
      → Trace
      → Dimension
      → List Dimension
      → HostProfiles
      → Outcome
  look_at_all c m s t dim [] p = look_at c m s t dim p
  look_at_all c m s t dim (next ∷ dims) p =
      then_observe (look_at c m s t dim p) (look_at_all c m s t next dims)

  abbrev others : List Dimension
  others = peer ∷ protocol ∷ byte_range ∷ []

  abbrev is_away : CapturedConnection → Bool
  is_away c = eqb c.src_ip "" || not (is_here env ip_address ip_network config c.src_ip)

  look_at-IsHeld :
      (h : String × String) (v : String) (c : CapturedConnection) (m : Dimension → Moment)
      (s : Tracker) (t : Trace) (dim : Dimension) (p : HostProfiles)
      → IsHeld h v p
      → IsHeld h v (look_at c m s t dim p).1
  look_at-IsHeld h v c m s t dim p =
      observe_dimension-IsHeld env ip_address ip_network config h v (test_of c dim) c.src_ip dim
        (value_of c dim) (min_known dim) (m dim) s t p

  look_at_all-IsHeld :
      (h : String × String) (v : String) (c : CapturedConnection) (m : Dimension → Moment)
      (s : Tracker) (t : Trace) (dim : Dimension) (dims : List Dimension) (p : HostProfiles)
      → IsHeld h v p
      → IsHeld h v (look_at_all c m s t dim dims p).1
  look_at_all-IsHeld h v c m s t dim [] p held = look_at-IsHeld h v c m s t dim p held
  look_at_all-IsHeld h v c m s t dim (next ∷ dims) p held =
      then_observe-keeps (IsHeld h v) (look_at c m s t dim p) (look_at_all c m s t next dims)
        (look_at-IsHeld h v c m s t dim p held) (λ q. look_at_all-IsHeld h v c m s t next dims q)

  process_profile-IsHeld :
      (h : String × String) (v : String) (c : CapturedConnection) (m : Dimension → Moment)
      (s : Tracker) (t : Trace) (p : HostProfiles)
      → IsHeld h v p
      → IsHeld h v (process_profile env ip_address ip_network config c m s t p).1
  unfolding process_profile
  process_profile-IsHeld h v c m s t p held =
      if_intro (λ (out : Outcome). IsHeld h v out.1) (is_away c) (λ _. held)
        (λ _. look_at_all-IsHeld h v c m s t dst_port others p held)

  -- A dimension that is looked at has its value in memory.
  abbrev IsCovered : CapturedConnection → Dimension → HostProfiles → Type 0
  IsCovered c dim p =
      test_of c dim ≡ true → IsHeld (c.src_ip, dimension_name dim) (value_of c dim) p

  abbrev AreCovered : CapturedConnection → Dimension → List Dimension → HostProfiles → Type 0
  AreCovered c dim [] p = IsCovered c dim p
  AreCovered c dim (next ∷ dims) p = IsCovered c dim p × AreCovered c next dims p

  AreCovered-kept :
      (c : CapturedConnection) (dim : Dimension) (dims : List Dimension) (p q : HostProfiles)
      → ((h : String × String) (v : String) → IsHeld h v p → IsHeld h v q)
      → AreCovered c dim dims p
      → AreCovered c dim dims q
  AreCovered-kept c dim [] p q keep covered = λ on. keep _ _ (covered on)
  AreCovered-kept c dim (next ∷ dims) p q keep (covered, rest) =
      ((λ on. keep _ _ (covered on)), AreCovered-kept c next dims p q keep rest)

  look_at-ok :
      (c : CapturedConnection) (m : Dimension → Moment) (s : Tracker) (t : Trace) (dim : Dimension)
      (p : HostProfiles) (alerts : List Alert)
      → (look_at c m s t dim p).0 ≡ ok alerts
      → IsCovered c dim (look_at c m s t dim p).1
  look_at-ok c m s t dim p alerts =
      observe_dimension-ok env ip_address ip_network config (test_of c dim) c.src_ip dim
        (value_of c dim) (min_known dim) (m dim) s t p alerts

  look_at_all-ok :
      (c : CapturedConnection) (m : Dimension → Moment) (s : Tracker) (t : Trace) (dim : Dimension)
      (dims : List Dimension) (p : HostProfiles) (alerts : List Alert)
      → (look_at_all c m s t dim dims p).0 ≡ ok alerts
      → AreCovered c dim dims (look_at_all c m s t dim dims p).1
  look_at_all-ok c m s t dim [] p alerts e = look_at-ok c m s t dim p alerts e
  look_at_all-ok c m s t dim (next ∷ dims) p alerts e =
      then_observe-ok (IsCovered c dim) (AreCovered c dim (next ∷ dims)) (look_at c m s t dim p)
        (look_at_all c m s t next dims) alerts e (λ xs. look_at-ok c m s t dim p xs)
        (λ q ys covered e'. (
          AreCovered-kept c dim [] q (look_at_all c m s t next dims q).1
              (λ h v. look_at_all-IsHeld h v c m s t next dims q) covered,
          look_at_all-ok c m s t next dims q ys e',
        ))

  look_at-none :
      (c : CapturedConnection) (m : Dimension → Moment) (s : Tracker) (t : Trace) (dim : Dimension)
      (p : HostProfiles)
      → IsCovered c dim p
      → (look_at c m s t dim p).0 ≡ ok []
  look_at-none c m s t dim p =
      observe_dimension-none env ip_address ip_network config (test_of c dim) c.src_ip dim
        (value_of c dim) (min_known dim) (m dim) s t p

  look_at_all-none :
      (c : CapturedConnection) (m : Dimension → Moment) (s : Tracker) (t : Trace) (dim : Dimension)
      (dims : List Dimension) (p : HostProfiles)
      → AreCovered c dim dims p
      → (look_at_all c m s t dim dims p).0 ≡ ok []
  look_at_all-none c m s t dim [] p covered = look_at-none c m s t dim p covered
  look_at_all-none c m s t dim (next ∷ dims) p (covered, rest) =
      then_observe-none (AreCovered c next dims) (look_at c m s t dim p)
        (look_at_all c m s t next dims) (look_at-none c m s t dim p covered)
        (AreCovered-kept c next dims p (look_at c m s t dim p).1
          (λ h v. look_at-IsHeld h v c m s t dim p) rest)
        (λ q. look_at_all-none c m s t next dims q)

  process_profile-AreCovered :
      (c : CapturedConnection) (m : Dimension → Moment) (s : Tracker) (t : Trace) (p : HostProfiles)
      (alerts : List Alert)
      → is_away c ≡ false
      → (process_profile env ip_address ip_network config c m s t p).0 ≡ ok alerts
      → AreCovered c dst_port others (process_profile env ip_address ip_network config c m s t p).1
  unfolding process_profile
  process_profile-AreCovered c m s t p alerts here =
      if_intro (λ (out : Outcome). out.0 ≡ ok alerts → AreCovered c dst_port others out.1)
        (is_away c) (λ e _. absurd cc) (λ _. look_at_all-ok c m s t dst_port others p alerts)

  process_profile-none :
      (c : CapturedConnection) (m : Dimension → Moment) (s : Tracker) (t : Trace) (p : HostProfiles)
      → (is_away c ≡ false → AreCovered c dst_port others p)
      → (process_profile env ip_address ip_network config c m s t p).0 ≡ ok []
  unfolding process_profile
  process_profile-none c m s t p covered =
      if_intro (λ (out : Outcome). out.0 ≡ ok []) (is_away c) (λ _. refl)
        (λ here. look_at_all-none c m s t dst_port others p (covered here))

  -- What is on the profile stays there, over all connections.
  unfoldable pub after_profiles : List (Handled (Dimension → Moment)) → HostProfiles → HostProfiles
  after_profiles [] p = p
  after_profiles ((c, (m, (s, t))) ∷ rest) p =
      after_profiles rest (process_profile env ip_address ip_network config c m s t p).1

  after_profiles-IsHeld :
      (handled : List (Handled (Dimension → Moment))) (p : HostProfiles) (h : String × String)
      (v : String)
      → IsHeld h v p
      → IsHeld h v (after_profiles handled p)
  unfolding after_profiles
  after_profiles-IsHeld [] p h v held = held
  after_profiles-IsHeld ((c, (m, (s, t))) ∷ rest) p h v held =
      after_profiles-IsHeld rest _ h v (process_profile-IsHeld h v c m s t p held)

  -- Once a connection has been handled without an exception, the same connection gives no alert until
  -- a restart, whatever connections are handled in between and whichever calls of the database raise
  -- then or later.
  pub process_profile_repeated :
      (c : CapturedConnection) (m m' : Dimension → Moment) (s s' : Tracker) (t t' : Trace)
      (p : HostProfiles) (alerts : List Alert) (handled : List (Handled (Dimension → Moment)))
      → (process_profile env ip_address ip_network config c m s t p).0 ≡ ok alerts
      → (process_profile env ip_address ip_network config c m' s' t'
          (after_profiles handled (process_profile env ip_address ip_network config c m s t p).1)).0
        ≡ ok []
  process_profile_repeated c m m' s s' t t' p alerts handled e =
      let p' = (process_profile env ip_address ip_network config c m s t p).1 in
      process_profile-none c m' s' t' (after_profiles handled p') (λ here.
        AreCovered-kept c dst_port others p' (after_profiles handled p')
          (after_profiles-IsHeld handled p') (process_profile-AreCovered c m s t p alerts here e))
