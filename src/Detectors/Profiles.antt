-- ===== src/Detectors/Profiles.antt =====
-- What the detectors of new countries, active hours and host profiles share: the values that a host
-- has shown, in memory and in a table of storage/database.py. The table is a dictionary of sets, each
-- without its column `first_seen`; a set is a list without repetition.
pub mod Once
pub mod Held
pub mod Countries
pub mod Hours
pub mod Hosts
pub mod Reports
use Prim.Native.String.{◌++◌}
use sentinel_pi.Prelude.{
  ℕ, ◌-◌, String, Bool, true, false, ◌||◌, not, Option, none, some, List, [], ◌∷◌, length, leb,
  elem, eqb, string_key, Key, if◌then◌else◌,
}
use sentinel_pi.Prelude.Dict
use sentinel_pi.Prelude.Dict.{Dict}
use sentinel_pi.Models.{Alert}
use sentinel_pi.Inventory.Tracker.{Tracker}
use sentinel_pi.Capture.{CapturedConnection}
use sentinel_pi.World.{Trace, Result, ok, raised}

-- `_seen`, which is filled from the table when a host is first met, and the table.
pub record Profiles (H V : Type 0) : Type 0 where
  pub seen : Dict H (List V)
  pub rows : Dict H (List V)

-- What an observation meets: the exceptions of the database, and whether the baseline is learning.
pub record Moment : Type 0 where
  pub read_error : Option String
  pub write_error : Option String
  pub is_learning : Bool

-- `set.add`
unfoldable pub add_value : {V : Type 0} ⦃value_key : Key V⦄ → V → List V → List V
add_value v vs = if elem v vs then vs else v ∷ vs

-- `SELECT value … WHERE ip=?`
unfoldable pub values_of : {H V : Type 0} ⦃host_key : Key H⦄ → H → Dict H (List V) → List V
values_of h rows = elim (Dict.get h rows) [ none ↦ [] | some vs ↦ vs ]

module _ {H V : Type 0} ⦃host_key : Key H⦄ ⦃value_key : Key V⦄ where
  -- `INSERT OR IGNORE`
  unfoldable pub insert_row : H → V → Dict H (List V) → Dict H (List V)
  unfolding add_value values_of
  insert_row h v rows = Dict.put h (add_value v (values_of h rows)) rows

  -- The set of a host in memory, read from the table if it is not there yet.
  unfoldable pub load : H → Moment → Profiles H V → Result (List V)
  unfolding values_of
  load h m p = elim (Dict.get h p.seen) [
    | some vs ↦ ok vs
    | none ↦ elim m.read_error [ some message ↦ raised message | none ↦ ok (values_of h p.rows) ]
  ]

  -- A value that is not in the set: it is added, then written. The number of the other values is the
  -- result, if the host is established and nothing keeps the detector quiet.
  unfoldable pub observe_in :
      ℕ → Bool → H → V → Moment → Profiles H V → List V → Result (Option ℕ) × Profiles H V
  unfolding add_value insert_row
  observe_in min_known is_trusted h v m p vs =
      let added : Profiles H V = record p { seen = Dict.put h (add_value v vs) p.seen } in
      if elem v vs
      then (ok none, record p { seen = Dict.put h vs p.seen })
      else elim m.write_error [
        | some message ↦ (raised message, added)
        | none ↦ (
          ok (
              if not (leb min_known (length vs)) || m.is_learning || is_trusted
              then none
              else some (length vs)),
          record added { rows = insert_row h v p.rows },
        )
      ]

  -- `_observe` of the host profile detector, and what the other two do in `_process_event`
  unfoldable pub observe :
      ℕ → Bool → H → V → Moment → Profiles H V → Result (Option ℕ) × Profiles H V
  unfolding load observe_in
  observe min_known is_trusted h v m p = elim (load h m p) [
    | raised message ↦ (raised message, p)
    | ok vs ↦ observe_in min_known is_trusted h v m p vs
  ]

  -- A restart of the service: the memory is lost, the table stays.
  unfoldable pub restart : Profiles H V → Profiles H V
  restart p = record p { seen = [] }

-- The entries of the configuration that these detectors read.
pub record ProfileConfig : Type 0 where
  pub whitelist_ips : List String
  pub subnets : List String
  pub active_hours_min_known : ℕ
  pub min_known_ports : ℕ
  pub min_known_peers : ℕ
  pub min_known_protocols : ℕ
  pub min_known_byte_ranges : ℕ

-- A connection that is handled, and what the detector meets then.
abbrev pub Handled : Type 0 → Type 0
Handled M = CapturedConnection × (M × (Tracker × Trace))

-- `device.hostname` of the inventory, and `f" ({hostname})" if hostname else ""`
unfoldable pub hostname_of : String → Tracker → String
hostname_of ip s = elim (Dict.get ip s.devices_by_ip) [ none ↦ "" | some d ↦ d.hostname ]

unfoldable pub in_brackets : String → String
in_brackets name = if eqb name "" then "" else " (" ++ name ++ ")"

-- `return self._build_alert(…)`, where something is to be reported
abbrev pub reported : Result (Option ℕ) → (ℕ → Alert) → Result (List Alert)
reported (raised message) alert = raised message
reported (ok none) alert = ok []
reported (ok (some others)) alert = ok (alert others ∷ [])
