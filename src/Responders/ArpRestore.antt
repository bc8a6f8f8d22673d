-- ===== src/Responders/ArpRestore.antt =====
-- responders/arp_restore.py: pin the configured MAC address of the gateway.
use Prim.Native.String.{◌++◌}
use sentinel_pi.Prelude.{
  String, Bool, true, false, ◌&&◌, ◌||◌, not, Option, none, some, List, [], ◌∷◌, ite, string_key,
  eqb, if◌then◌else◌,
}
use sentinel_pi.Models.{Alert, arp_anomaly, Category-discrete}
use sentinel_pi.Responders.{ResponseConfig, Responder, new_action, run_commands, default_expire}
use sentinel_pi.Responders.Gates.{severity_at_least}
use sentinel_pi.World.{Argv, ResponderAction, Trace, Env, ok}

module _ (env : Env) (rc : ResponseConfig) where
  unfoldable pub can_handle : Alert → Bool
  unfolding Category-discrete
  can_handle alert =
      rc.arp_restore_enabled
      && ite (Category-discrete alert.category arp_anomaly) true false
      && alert.extra.is_gateway
      && severity_at_least alert rc.arp_restore_min_severity
      && not (eqb rc.gateway_ip "")
      && not (eqb rc.gateway_mac "")

  unfoldable pub first_interface : List String → String
  first_interface [] = "eth0"
  first_interface (i ∷ is) = i

  unfoldable pub build_commands : String → String → List Argv
  unfolding first_interface
  build_commands gw_ip gw_mac =
      if eqb rc.arp_restore_backend "ip"
      then ("ip"
          ∷ "neigh"
          ∷ "replace"
          ∷ gw_ip
          ∷ "lladdr"
          ∷ gw_mac
          ∷ "dev"
          ∷ first_interface rc.interfaces
          ∷ [])
        ∷ []
      else ("arp" ∷ "-s" ∷ gw_ip ∷ gw_mac ∷ []) ∷ []

  unfoldable pub plan : Alert → Trace → Option ResponderAction
  unfolding build_commands new_action
  plan alert t =
      if eqb rc.gateway_ip "" || eqb rc.gateway_mac ""
      then none
      else some (
          new_action env "ARPRestoreResponder" rc.gateway_ip
            ("Pin trusted gateway MAC " ++ rc.gateway_mac ++ " for " ++ rc.gateway_ip ++ " ("
              ++ rc.arp_restore_backend ++ ")")
            (build_commands rc.gateway_ip rc.gateway_mac) 0 t)

  unfoldable pub responder : Responder
  unfolding can_handle plan default_expire
  responder = record {
    name = "ARPRestoreResponder";
    can_handle = λ alert. ok (can_handle alert);
    plan = λ alert t. ok (plan alert t);
    execute = λ action t.
        let (action', t') = run_commands env action.commands action t in (ok tt, action', t');
    expire = default_expire "ARPRestoreResponder";
  }
