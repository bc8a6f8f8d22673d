-- ===== src/Responders/Plans.antt =====
-- What the firewall responder chooses to block.
use sentinel_pi.Prelude.{
  String, ◌≡◌, ◌≢◌, ◌⊎◌, true, false, Option, none, some, string_key, argv_key, elem, arith,
}
use sentinel_pi.Models.{Alert}
use sentinel_pi.Network.{Address, is_private_ip, is_valid_ip}
use sentinel_pi.World.{ResponderAction, Trace, Env}
use sentinel_pi.Responders.{ResponseConfig}
use sentinel_pi.Responders.Firewall.{blockable_ip, can_handle, plan}

module _ (env : Env) (ip_address : String → Option Address) (rc : ResponseConfig) where
  -- What `plan` blocks is one of the alert's two hosts, a valid address that is neither private nor
  -- whitelisted.
  pub plan-blockable :
      (alert : Alert) (t : Trace) (a : ResponderAction)
      → plan env ip_address rc alert t ≡ some a
      → ((a.target ≡ alert.related_host) ⊎ (a.target ≡ alert.affected_host))
        × (is_valid_ip ip_address a.target ≡ true)
        × (is_private_ip ip_address a.target ≡ false)
        × (elem a.target rc.whitelist_ips ≡ false)
  unfolding plan blockable_ip
  plan-blockable alert t a h = ground arith

  -- An alert that `can_handle` accepts is planned for.
  plan-can_handle :
      (alert : Alert) (t : Trace)
      → can_handle env ip_address rc alert ≡ true
      → plan env ip_address rc alert t ≢ none
  unfolding plan can_handle
  plan-can_handle alert t h = ground arith
