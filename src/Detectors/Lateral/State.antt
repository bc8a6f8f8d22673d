-- ===== src/Detectors/Lateral/State.antt =====
-- The state of `LateralMovementDetector`, and what it reads of it.
use sentinel_pi.Prelude.{
  ℕ, ◌+◌, String, Bool, true, false, none, some, List, [], ◌∷◌, map, keep, ltb, string_key,
  triple_key, nat_key, elem, if◌then◌else◌,
}
use sentinel_pi.Prelude.Dict
use sentinel_pi.Prelude.Dict.{Dict}
use sentinel_pi.Models.{Datetime, seconds}
use sentinel_pi.Text.Show.{sorted_set}
use sentinel_pi.Detectors.Adaptive.{Adaptive}
use sentinel_pi.Detectors.PortScan.{recent_entries, entries_of}

-- The entries of the configuration that the detector reads.
pub record LateralConfig : Type 0 where
  pub whitelist_ips : List String
  pub subnets : List String
  pub lateral_movement_dest_threshold : ℕ

-- The state of `LateralMovementDetector`. Of the set of known pairs only membership is read.
pub record Lateral : Type 0 where
  pub config : LateralConfig
  pub internal_conns : Dict String (List (Datetime × (String × ℕ)))
  pub known_admin_pairs : List (String × String × ℕ)
  pub admin_pairs_initialized : Bool
  pub last_alert : Dict String Datetime
  pub adaptive : Adaptive

-- What the detector asks the baseline engine, as it answers at one moment.
pub record Baseline : Type 0 where
  pub is_learning : Bool
  pub is_known_destination : String → String → ℕ → String → Bool

-- `ADMIN_PORTS`
abbrev pub admin_ports : Dict ℕ String
admin_ports =
    (22, "SSH")
    ∷ (23, "Telnet")
    ∷ (135, "MS-RPC")
    ∷ (139, "NetBIOS")
    ∷ (445, "SMB")
    ∷ (3389, "RDP")
    ∷ (5985, "WinRM-HTTP")
    ∷ (5986, "WinRM-HTTPS")
    ∷ []

-- `port in ADMIN_PORTS`
unfoldable pub is_admin : ℕ → Bool
is_admin port = elim (Dict.get port admin_ports) [ none ↦ false | some name ↦ true ]

-- `ADMIN_PORTS[port]`, where the port has been tested
unfoldable pub protocol_name : ℕ → String
protocol_name port = elim (Dict.get port admin_ports) [ none ↦ "" | some name ↦ name ]

-- `_is_on_cooldown`
unfoldable pub is_on_cooldown : String → Datetime → ℕ → Dict String Datetime → Bool
is_on_cooldown key now interval last_alert = elim (Dict.get key last_alert) [
  | none ↦ false
  | some last ↦ ltb now (last + seconds interval)
]

-- `self._known_admin_pairs.add(key)`
unfoldable pub add_pair : String × String × ℕ → Lateral → Lateral
add_pair key d = record d {
  known_admin_pairs =
      if elem key d.known_admin_pairs then d.known_admin_pairs else key ∷ d.known_admin_pairs;
}

-- The recent admin connections of a source, as targets with their ports.
unfoldable pub admin_entries : String → Datetime → Lateral → List (String × ℕ)
admin_entries src now d =
    keep (λ entry. is_admin entry.1) (recent_entries now (entries_of src d.internal_conns))

-- `unique_admin_targets`
unfoldable pub admin_targets : String → Datetime → Lateral → List String
unfolding admin_entries
admin_targets src now d = sorted_set (map (λ entry. entry.0) (admin_entries src now d))
