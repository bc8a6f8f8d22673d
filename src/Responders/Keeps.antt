-- ===== src/Responders/Keeps.antt =====
-- The four responders keep the promise of `IsSafe`.
use Prim.Native.String.{◌++◌}
use sentinel_pi.Prelude.{
  String, ◌≡◌, Bool, true, false, eqb_refl, Option, none, some, List, [], ◌∷◌, All, string_key,
  argv_key, eqb, elem, elem-head, elem-tail, arith, if_intro, option_intro, if◌then◌else◌,
}
use sentinel_pi.Network.{Address}
use sentinel_pi.Text.{matching_line, search_handle}
use sentinel_pi.World.{
  Argv, ResponderAction, ran, Trace, Env, RunResult, returned, run_raised, ActionError,
  command_failed, Result, ok, raised,
}
use sentinel_pi.World.Audit.{audited, undoes, checks, is_nft_undo}
use sentinel_pi.Responders.{ResponseConfig, is_failure, command_error}
use sentinel_pi.Responders.ArpRestore
use sentinel_pi.Responders.DnsSinkhole
use sentinel_pi.Responders.DnsSinkhole.{sinkhole_via_hosts}
use sentinel_pi.Responders.Firewall
use sentinel_pi.Responders.Firewall.{
  is_nftables, Expiry, check_argv, after_check, expire_one, expire_iptables, delete_rule,
  delete_marked, after_listing, expire_chain, expire_nftables,
}
use sentinel_pi.Responders.KillSwitch
use sentinel_pi.Responders.Safety.{
  IsAnnounced, IsUndoing, IsSafe, Covers, Covers-ran, run_commands-audited,
}

module _ (env : Env) where
  after_check-Covers :
      (p : Argv → Bool) (argv : Argv) (r : RunResult) (t : Trace)
      → p argv ≡ true
      → Covers p t
      → Covers p (after_check env argv r t).1
  unfolding after_check
  after_check-Covers p argv (run_raised exc) t h c = c
  after_check-Covers p argv (returned code output) t h c =
      let deleted = Covers-ran p argv t h c in
      if_intro (λ (out : Option (Bool × ActionError) × Trace). Covers p out.1) (is_failure code)
        (λ _. c)
        (λ _.
          option_intro (λ (out : Option (Bool × ActionError) × Trace). Covers p out.1)
            (command_error env argv t) deleted (λ _. deleted))

  -- A roll-back runs its commands and their checks alone.
  expire_iptables-Covers :
      (p : Argv → Bool) (cs : List Argv) (t : Trace)
      → ((argv : Argv) → elem argv cs ≡ true → p argv ≡ true)
      → ((argv : Argv) → elem argv (checks cs) ≡ true → p argv ≡ true)
      → Covers p t
      → Covers p (expire_iptables env cs t).1
  unfolding expire_iptables expire_one check_argv
  expire_iptables-Covers p [] t h k c = c
  expire_iptables-Covers p ([] ∷ cs) t h k c = c
  expire_iptables-Covers p ((program ∷ []) ∷ cs) t h k c = c
  expire_iptables-Covers p ((program ∷ flag ∷ rest) ∷ cs) t h k c =
      let argv : Argv = program ∷ flag ∷ rest in
      let check : Argv = program ∷ "-C" ∷ rest in
      let checked = Covers-ran p check t (k check (elem-head check (checks cs))) c in
      let step =
        after_check-Covers p argv (env.runner t check) (ran check ∷ t) (h argv (elem-head argv cs))
          checked in
      let (outcome, t') = after_check env argv (env.runner t check) (ran check ∷ t) in
      option_intro (λ (out : Expiry). Covers p out.1) outcome
        (expire_iptables-Covers p cs t' (λ x m. h x (elem-tail x argv cs m))
          (λ x m. k x (elem-tail x check (checks cs) m)) step)
        (λ _. step)

  -- Every step of nft in a roll-back is one.
  abbrev HasNft : (Argv → Bool) → Type 0
  HasNft p = (argv : Argv) → is_nft_undo argv ≡ true → p argv ≡ true

  abbrev Step : Type 0
  Step = Result (Option (Bool × ActionError)) × Trace

  delete_rule-Covers :
      (p : Argv → Bool) (chain handle : String) (t : Trace)
      → HasNft p
      → elem chain ("output" ∷ "input" ∷ []) ≡ true
      → Covers p t
      → Covers p (delete_rule env chain handle t).1
  unfolding delete_rule
  delete_rule-Covers p chain handle t nft known c =
      let argv : Argv =
        "nft" ∷ "delete" ∷ "rule" ∷ "inet" ∷ "filter" ∷ chain ∷ "handle" ∷ handle ∷ [] in
      let fixed : Argv = "nft" ∷ "delete" ∷ "rule" ∷ "inet" ∷ "filter" ∷ "handle" ∷ [] in
      let deleted = Covers-ran p argv t (nft argv (rw (eqb_refl fixed, known))) c in
      by_result (env.runner t argv) deleted
    where
      by_result :
          (r : RunResult) {t' : Trace}
          → Covers p t'
          → Covers p
              (elim r as (λ _. Step) [
                | run_raised exc ↦ (raised exc, t')
                | returned code output ↦ (
                  ok (
                      if is_failure code
                      then some (
                        false,
                        command_failed
                            ("nft" ∷ "delete" ∷ "rule" ∷ "inet" ∷ "filter" ∷ chain ∷ "handle"
                              ∷ handle ∷ [])
                            code
                            output,
                      )
                      else none),
                  t',
                )
              ]).1
      by_result (run_raised exc) c = c
      by_result (returned code output) c = c

  delete_marked-Covers :
      (p : Argv → Bool) (chain marker output : String) (t : Trace)
      → HasNft p
      → elem chain ("output" ∷ "input" ∷ []) ≡ true
      → Covers p t
      → Covers p (delete_marked env chain marker output t).1
  unfolding delete_marked
  delete_marked-Covers p chain marker output t nft known c =
      let matching = matching_line marker output in
      if_intro (λ (out : Step). Covers p out.1) (eqb matching "") (λ _. c)
        (λ _.
          option_intro (λ (out : Step). Covers p out.1) (search_handle matching) c
            (λ handle. delete_rule-Covers p chain handle t nft known c))

  after_listing-Covers :
      (p : Argv → Bool) (chain marker : String) (argv : Argv) (r : RunResult) (t : Trace)
      → HasNft p
      → elem chain ("output" ∷ "input" ∷ []) ≡ true
      → Covers p t
      → Covers p (after_listing env chain marker argv r t).1
  unfolding after_listing
  after_listing-Covers p chain marker argv (run_raised exc) t nft known c = c
  after_listing-Covers p chain marker argv (returned code output) t nft known c =
      if_intro (λ (out : Step). Covers p out.1) (is_failure code) (λ _. c)
        (λ _. delete_marked-Covers p chain marker output t nft known c)

  expire_chain-Covers :
      (p : Argv → Bool) (a : ResponderAction) (chain : String) (t : Trace)
      → HasNft p
      → elem chain ("output" ∷ "input" ∷ []) ≡ true
      → Covers p t
      → Covers p (expire_chain env a chain t).1
  expire_chain-Covers p a chain t nft known c =
      let argv : Argv = "nft" ∷ "-a" ∷ "list" ∷ "chain" ∷ "inet" ∷ "filter" ∷ chain ∷ [] in
      let fixed : Argv = "nft" ∷ "-a" ∷ "list" ∷ "chain" ∷ "inet" ∷ "filter" ∷ [] in
      unfold expire_chain in
      after_listing-Covers p chain ("sentinelpi:" ++ a.action_id ++ ":" ++ chain) argv
        (env.runner t argv) (ran argv ∷ t) nft known
        (Covers-ran p argv t (nft argv (rw (eqb_refl fixed, known))) c)

  expire_nftables-Covers :
      (p : Argv → Bool) (chains : List String) (a : ResponderAction) (t : Trace)
      → HasNft p
      → All (λ chain. elem chain ("output" ∷ "input" ∷ []) ≡ true) chains
      → Covers p t
      → Covers p (expire_nftables env chains a t).1
  unfolding expire_nftables
  expire_nftables-Covers p [] a t nft known c = c
  expire_nftables-Covers p (chain ∷ chains) a t nft known c =
      let step = expire_chain-Covers p a chain t nft known.0 c in
      go (expire_chain env a chain t).0 step
        (expire_nftables-Covers p chains a (expire_chain env a chain t).1 nft known.1 step)
    where
      go :
          (outcome : Result (Option (Bool × ActionError))) {t' : Trace}
          → Covers p t'
          → Covers p (expire_nftables env chains a t').1
          → Covers p
              (elim outcome as (λ _. Expiry) [
                | raised exc ↦ (raised exc, t')
                | ok none ↦ expire_nftables env chains a t'
                | ok (some result) ↦ (ok result, t')
              ]).1
      go (raised exc) c more = c
      go (ok none) c more = more
      go (ok (some result)) c more = c

  both_chains :
      All {A = String}
        (λ (chain : String). elem chain ("output" ∷ "input" ∷ []) ≡ true)
        ("output" ∷ "input" ∷ [])
  both_chains = (
    elem-head {K = String} "output" ("input" ∷ []),
    (
      elem-tail {K = String} "input" "output" ("input" ∷ []) (elem-head {K = String} "input" []),
      tt,
    ),
  )

  -- What the ledger announces of a roll-back covers its commands.
  IsUndoing-Covers :
      (a : ResponderAction) (t : Trace)
      → IsUndoing a t
      → audited t ≡ true
      → Covers (undoes a.rollback_commands) t
  IsUndoing-Covers a t h k = record { announced = h.undo; audit = k }

  audited-sinkhole :
      (a : ResponderAction) (t : Trace)
      → IsAnnounced a t
      → audited t ≡ true
      → audited (sinkhole_via_hosts env a t).2 ≡ true
  unfolding sinkhole_via_hosts audited
  audited-sinkhole a t h k = ground (arith, h.domain)

  module _ (ip_address : String → Option Address) (rc : ResponseConfig) where
    -- The firewall responder, with either backend.
    pub firewall-IsSafe : IsSafe (Firewall.responder env ip_address rc)
    unfolding Firewall.responder Firewall.expire
    firewall-IsSafe = record {
      execute_safe = λ a t h k. run_commands-audited env a.commands a t h.commands k;
      expire_safe = λ a t h k.
          let c = IsUndoing-Covers a t h k in
          let p = undoes a.rollback_commands in
          if_intro (λ (out : Expiry). audited out.1 ≡ true) (is_nftables rc)
            (λ _.
              (expire_nftables-Covers p ("output" ∷ "input" ∷ []) a t (λ argv m. ground (arith, m))
                both_chains c).audit)
            (λ _.
              (expire_iptables-Covers p a.rollback_commands t (λ argv m. ground (arith, m))
                (λ argv m. ground (arith, m)) c).audit);
    }

    pub sinkhole-IsSafe : IsSafe (DnsSinkhole.responder env ip_address rc)
    unfolding DnsSinkhole.responder
    sinkhole-IsSafe = record {
      execute_safe = λ a t h k.
          ground
            (arith, run_commands-audited env a.commands a t h.commands k, audited-sinkhole a t h k);
      expire_safe = λ a t h k. k;
    }

  module _ (rc : ResponseConfig) where
    pub arp_restore-IsSafe : IsSafe (ArpRestore.responder env rc)
    unfolding ArpRestore.responder
    arp_restore-IsSafe = record {
      execute_safe = λ a t h k. run_commands-audited env a.commands a t h.commands k;
      expire_safe = λ a t h k. k;
    }

    pub killswitch-IsSafe : IsSafe (KillSwitch.responder env rc)
    unfolding KillSwitch.responder
    killswitch-IsSafe = record {
      execute_safe = λ a t h k. run_commands-audited env a.commands a t h.commands k;
      expire_safe = λ a t h k. k;
    }
