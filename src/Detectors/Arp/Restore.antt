-- ===== src/Detectors/Arp/Restore.antt =====
-- The alerts of the ARP detector at the responder of responders/arp_restore.py.
use sentinel_pi.Prelude.{
  ◌≡◌, ◌≢◌, ◌≤◌, refl, sym, subst, String, true, false, some, eqb_refl, eqb_ne, string_key, arith,
}
use sentinel_pi.Models.{Severity, parse_severity, rank, critical, Category-discrete}
use sentinel_pi.World.{Trace, Env}
use sentinel_pi.Inventory.Tracker.{Surroundings}
use sentinel_pi.Responders.{ResponseConfig}
use sentinel_pi.Responders.ArpRestore
use sentinel_pi.Responders.Gates.{severity_at_least, severity_at_least_iff}
use sentinel_pi.Detectors.Arp.{CapturedArp, ArpConfig, conflict_alert, gateway_mac_change_alert}

critical-highest : (s : Severity) → rank s ≤ rank critical
unfolding rank
critical-highest s = ground arith

module _ (env : Env) (surroundings : Surroundings) (rc : ResponseConfig) where
  severity_at_least-critical :
      (arp : CapturedArp) (config : ArpConfig) (was : String) (t : Trace) (least : Severity)
      → arp.src_ip ≡ config.gateway_ip
      → parse_severity rc.arp_restore_min_severity ≡ some least
      → severity_at_least
          (conflict_alert env surroundings config arp was t)
          rc.arp_restore_min_severity
        ≡ true
  unfolding conflict_alert
  severity_at_least-critical arp config was t least e parsed =
      let alert = conflict_alert env surroundings config arp was t in
      let top : alert.severity ≡ critical = rw (e, eqb_refl config.gateway_ip) refl in
      (severity_at_least_iff alert rc.arp_restore_min_severity least parsed).1
        (subst (λ s. rank least ≤ rank s) (sym top) (critical-highest least))

  -- Where the responder is enabled and has the gateway's addresses and a severity that parses, it
  -- accepts the alert on a conflict about the gateway's address. It never accepts the alert that the
  -- gateway's MAC address has changed, which does not say that it is about the gateway.
  pub can_handle-conflict_alert :
      (arp : CapturedArp) (config : ArpConfig) (was : String) (t : Trace) (least : Severity)
      → rc.arp_restore_enabled ≡ true
      → rc.gateway_ip ≢ ""
      → rc.gateway_mac ≢ ""
      → parse_severity rc.arp_restore_min_severity ≡ some least
      → arp.src_ip ≡ config.gateway_ip
      → (ArpRestore.can_handle env rc (conflict_alert env surroundings config arp was t) ≡ true)
        × (ArpRestore.can_handle env rc (gateway_mac_change_alert env surroundings arp was t)
            ≡ false)
  unfolding ArpRestore.can_handle Category-discrete conflict_alert gateway_mac_change_alert
  can_handle-conflict_alert arp config was t least on ip mac parsed e =
      let alert = conflict_alert env surroundings config arp was t in
      let severe = severity_at_least-critical arp config was t least e parsed in
      let about : alert.extra.is_gateway ≡ true = rw (e, eqb_refl config.gateway_ip) refl in
      (
        ground (arith, on, severe, about, eqb_ne rc.gateway_ip "" ip, eqb_ne rc.gateway_mac "" mac),
        ground arith,
      )
