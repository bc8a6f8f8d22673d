-- ===== src/Detectors/Profiles/Countries.antt =====
-- detectors/geo_country_detector.py. The look-ups of countries are given to it, and are parameters.
use Prim.Native.String.{◌++◌}
use sentinel_pi.Prelude.{
  String, Bool, ◌&&◌, ◌||◌, not, Option, List, [], elem, eqb, string_key, if◌then◌else◌,
}
use sentinel_pi.Models.{Alert, medium, connection_anomaly, new, no_extra}
use sentinel_pi.Network.{Address, Subnet, is_private_ip, ip_in_any_subnet}
use sentinel_pi.World.{Trace, Env, Result, ok}
use sentinel_pi.Capture.{CapturedConnection}
use sentinel_pi.Inventory.Tracker.{Tracker, is_trusted_device}
use sentinel_pi.Detectors.Profiles.{
  Profiles, Moment, observe, ProfileConfig, hostname_of, in_brackets, reported,
}

module _ (env : Env) (ip_address : String → Option Address) (ip_network : String → Option Subnet)
    (geo_lookup name_lookup : String → String) (config : ProfileConfig) where
  -- `_build_alert`
  unfoldable pub country_alert : String → String → String → Tracker → Trace → Alert
  country_alert src dst country s t =
      let named = name_lookup dst in
      let country_name = if eqb named "" then country else named in
      record {
        alert_id = env.uuid t;
        timestamp = env.clock t;
        severity = medium;
        category = connection_anomaly;
        affected_host = src;
        affected_mac = "";
        related_host = dst;
        title =
            "New country for " ++ src ++ in_brackets (hostname_of src s) ++ ": " ++ country_name;
        description =
            src ++ " connected to " ++ dst ++ ", the first time this host has reached "
            ++ country_name ++ " (" ++ country
            ++ "). Could be a new service/CDN or VPN — or data leaving to an "
            ++ "unexpected place. Worth a glance, especially for a host that normally stays local.";
        dedup_key = "newcountry:" ++ src ++ ":" ++ country;
        status = new;
        extra = no_extra;
      }

  -- The tests before the look-up.
  unfoldable pub is_outbound : CapturedConnection → Bool
  is_outbound c =
      not (eqb c.src_ip "")
      && not (eqb c.dst_ip "")
      && ip_in_any_subnet ip_address ip_network c.src_ip config.subnets
      && not (is_private_ip ip_address c.dst_ip || elem c.dst_ip config.whitelist_ips)

  -- `_process_event`, for a connection that was captured
  unfoldable pub process_country :
      CapturedConnection
      → Moment
      → Tracker
      → Trace
      → Profiles String String
      → Result (List Alert) × Profiles String String
  unfolding is_outbound country_alert
  process_country c m s t p =
      let country = geo_lookup c.dst_ip in
      let (result, p') = observe 0 (is_trusted_device c.src_ip "" s) c.src_ip country m p in
      if not (is_outbound c)
      then (ok [], p)
      else if eqb country ""
      then (ok [], p)
      else (reported result (λ others. country_alert c.src_ip c.dst_ip country s t), p')
