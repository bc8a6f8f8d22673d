-- ===== src/Responders/DnsSinkhole.antt =====
-- responders/dns_sinkhole.py: block a domain in a hosts file, in Pi-hole or in Unbound.
use Prim.Native.String.{◌++◌}
use sentinel_pi.Prelude.{
  String, Bool, true, false, ◌&&◌, ◌||◌, not, Option, none, some, List, [], ◌∷◌, map, string_key,
  elem, eqb, if◌then◌else◌,
}
use sentinel_pi.Models.{Alert}
use sentinel_pi.Network.{Address, is_valid_ip}
use sentinel_pi.Responders.{ResponseConfig, Responder, new_action, run_commands, default_expire}
use sentinel_pi.Responders.Gates.{category_in, severity_at_least}
use sentinel_pi.Text.{contains, lower, strip, strip_dots, ends_with}
use sentinel_pi.World.{
  Argv, file_text, os_error, read_raised, hosts_write_failed, ResponderAction, sinkholed, Trace,
  Env, Result, ok, raised,
}

unfoldable pub blockable_domain : (String → Option Address) → ResponseConfig → Alert → Option String
blockable_domain ip_address rc alert =
    let candidate = strip_dots (lower (strip alert.related_host)) in
    if eqb candidate "" || is_valid_ip ip_address candidate || not (contains "." candidate)
    then none
    else if elem candidate (map lower rc.whitelist_domains)
    then none
    else some candidate

-- The test that keeps a second line for the same domain out of the file.
unfoldable pub already_sinkholed : String → String → Bool
already_sinkholed domain existing =
    contains (" " ++ domain ++ "\n") existing || ends_with (" " ++ domain) existing

module _ (env : Env) where
  -- `_sinkhole_via_hosts`
  unfoldable pub sinkhole_via_hosts :
      ResponderAction → Trace → Result (Unit {0}) × ResponderAction × Trace
  sinkhole_via_hosts action t =
      let done = record action { executed = true; success = true } in
      let failed = λ (exc : String). record action {
        executed = true;
        success = false;
        error = hosts_write_failed exc;
      } in
      elim (env.hosts_text t) [
        | read_raised exc ↦ (raised exc, action, t)
        | os_error exc ↦ (ok tt, failed exc, t)
        | file_text existing ↦
            if already_sinkholed action.target existing
            then (ok tt, done, t)
            else elim (env.hosts_error t action.target) [
              | none ↦ (ok tt, done, sinkholed action.target ∷ t)
              | some exc ↦ (ok tt, failed exc, sinkholed action.target ∷ t)
            ]
      ]

  module _ (ip_address : String → Option Address) (rc : ResponseConfig) where
    unfoldable pub can_handle : Alert → Bool
    can_handle alert =
        rc.dns_sinkhole_enabled
        && category_in alert rc.sinkhole_categories
        && severity_at_least alert rc.sinkhole_min_severity
        && elim (blockable_domain ip_address rc alert) as (λ _. Bool) [
          | none ↦ false
          | some _ ↦ true
        ]

    unfoldable pub build_commands : String → List Argv
    build_commands domain =
        if eqb rc.dns_sinkhole_backend "pihole"
        then ("pihole" ∷ "-b" ∷ domain ∷ []) ∷ []
        else if eqb rc.dns_sinkhole_backend "unbound"
        then ("unbound-control" ∷ "local_zone" ∷ domain ∷ "always_nxdomain" ∷ []) ∷ []
        else []

    unfoldable pub plan : Alert → Trace → Option ResponderAction
    unfolding build_commands new_action
    plan alert t = elim (blockable_domain ip_address rc alert) [
      | none ↦ none
      | some domain ↦
          let desc =
            if eqb rc.dns_sinkhole_backend "hosts"
            then "Sinkhole " ++ domain ++ " → 0.0.0.0 in " ++ rc.dns_sinkhole_hosts_file
            else "Sinkhole " ++ domain ++ " via " ++ rc.dns_sinkhole_backend in
          some (new_action env "DNSSinkholeResponder" domain desc (build_commands domain) 0 t)
    ]

    unfoldable pub execute : ResponderAction → Trace → Result (Unit {0}) × ResponderAction × Trace
    unfolding sinkhole_via_hosts
    execute action t =
        let (action', t') = run_commands env action.commands action t in
        if eqb rc.dns_sinkhole_backend "hosts"
        then sinkhole_via_hosts action t
        else (ok tt, action', t')

    unfoldable pub responder : Responder
    unfolding can_handle plan execute default_expire
    responder = record {
      name = "DNSSinkholeResponder";
      can_handle = λ alert. ok (can_handle alert);
      plan = λ alert t. ok (plan alert t);
      execute = execute;
      expire = default_expire "DNSSinkholeResponder";
    }
