-- ===== src/Responders/Iptables.antt =====
-- iptables, seen through the commands of a trace. A rule is the list of arguments behind `-I` or
-- `-D`; how often it is in force is read off the trace.
use sentinel_pi.Prelude.{
  ℕ, suc, ◌-◌, ◌<◌, String, ◌≡◌, ◌⊎◌, Bool, true, false, Option, some, ◌&&◌, [], ◌∷◌, string_key,
  argv_key, String-discrete, eqb, if◌then◌else◌, arith,
}
use sentinel_pi.Network.{Address, v4}
use sentinel_pi.World.{Argv, returned, exit_status, ran, Trace, Env}

-- How often a rule is in force after a command.
unfoldable pub change : Argv → Argv → ℕ → ℕ
change (program ∷ flag ∷ rest) rule n =
    if eqb program "iptables" && eqb rest rule
    then if eqb flag "-I" then suc n else if eqb flag "-D" then n - 1 else n
    else n
change _ rule n = n

unfoldable pub in_force : Argv → Trace → ℕ
unfolding change String-discrete
in_force rule [] = 0
in_force rule (ran argv ∷ t) = change argv rule (in_force rule t)
in_force rule (_ ∷ t) = in_force rule t

abbrev pub out_rule : String → Argv
out_rule ip = "OUTPUT" ∷ "-d" ∷ ip ∷ "-j" ∷ "DROP" ∷ []

abbrev pub in_rule : String → Argv
in_rule ip = "INPUT" ∷ "-s" ∷ ip ∷ "-j" ∷ "DROP" ∷ []

abbrev pub is_ipv4 : Option Address → Bool
is_ipv4 (some (v4 n)) = true
is_ipv4 _ = false

-- The rule drops the traffic to or from an IPv4 address. iptables refuses an IPv6 address.
abbrev pub IsDrop : (String → Option Address) → Argv → Type 0
IsDrop ip_address rule =
    (ip : String) × (is_ipv4 (ip_address ip) ≡ true) × ((rule ≡ out_rule ip) ⊎ (rule ≡ in_rule ip))

-- iptables as its manual describes it, run with the privileges that it needs and on such rules: `-I`
-- inserts, `-C` finds a rule that is in force and fails on one that is not, `-D` deletes one that is
-- in force.
pub record IsIptables (ip_address : String → Option Address) (env : Env) : Type 0 where
  pub inserts :
      (rule : Argv) (t : Trace)
      → IsDrop ip_address rule
      → env.runner t ("iptables" ∷ "-I" ∷ rule) ≡ returned (exit_status 0) ""
  pub finds :
      (rule : Argv) (t : Trace)
      → IsDrop ip_address rule
      → 0 < in_force rule t
      → env.runner t ("iptables" ∷ "-C" ∷ rule) ≡ returned (exit_status 0) ""
  pub misses :
      (rule : Argv) (t : Trace)
      → IsDrop ip_address rule
      → in_force rule t ≡ 0
      → env.runner t ("iptables" ∷ "-C" ∷ rule) ≡ returned (exit_status 1) ""
  pub deletes :
      (rule : Argv) (t : Trace)
      → IsDrop ip_address rule
      → 0 < in_force rule t
      → env.runner t ("iptables" ∷ "-D" ∷ rule) ≡ returned (exit_status 0) ""

pub in_force-check :
    (rule checked : Argv) (t : Trace)
    → in_force rule (ran ("iptables" ∷ "-C" ∷ checked) ∷ t) ≡ in_force rule t
unfolding in_force
in_force-check rule checked t = ground arith

pub in_force-insert :
    (rule r : Argv) (t : Trace)
    → in_force rule (ran ("iptables" ∷ "-I" ∷ r) ∷ t)
      ≡ (if eqb r rule then suc (in_force rule t) else in_force rule t)
unfolding in_force
in_force-insert rule r t = ground arith

pub in_force-delete :
    (rule r : Argv) (t : Trace)
    → in_force rule (ran ("iptables" ∷ "-D" ∷ r) ∷ t)
      ≡ (if eqb r rule then in_force rule t - 1 else in_force rule t)
unfolding in_force
in_force-delete rule r t = ground arith
