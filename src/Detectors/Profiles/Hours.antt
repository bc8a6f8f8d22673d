-- ===== src/Detectors/Profiles/Hours.antt =====
-- detectors/active_hours_detector.py. The hour of `clock.now()` is given with each connection.
pub mod Lost
use Prim.Native.String.{◌++◌}
use sentinel_pi.Prelude.{
  ℕ, String, Bool, true, false, ◌||◌, not, List, [], ◌∷◌, eqb, ltb, string_key, nat_key,
  if◌then◌else◌, Option,
}
use sentinel_pi.Models.{Alert, medium, connection_anomaly, new, no_extra}
use sentinel_pi.Network.{Address, Subnet, ip_in_any_subnet}
use sentinel_pi.World.{Trace, Env, Result, ok, raised}
use sentinel_pi.Text.Show.{show}
use sentinel_pi.Capture.{CapturedConnection}
use sentinel_pi.Inventory.Tracker.{Tracker, is_trusted_device}
use sentinel_pi.Detectors.Profiles.{
  Profiles, Moment, observe, ProfileConfig, hostname_of, in_brackets, reported,
}

-- `f"{hour:02d}:00"`
unfoldable pub clock_text : ℕ → String
clock_text hour = (if ltb hour 10 then "0" else "") ++ show hour ++ ":00"

module _ (env : Env) (ip_address : String → Option Address) (ip_network : String → Option Subnet)
    (config : ProfileConfig) where
  -- `_build_alert`
  unfoldable pub hour_alert : String → ℕ → ℕ → Tracker → Trace → Alert
  unfolding clock_text
  hour_alert src hour known_hours s t = record {
    alert_id = env.uuid t;
    timestamp = env.clock t;
    severity = medium;
    category = connection_anomaly;
    affected_host = src;
    affected_mac = "";
    related_host = "";
    title =
        "Unusual activity hour for "
        ++ src
        ++ in_brackets (hostname_of src s)
        ++ ": "
        ++ clock_text hour;
    description =
        src
        ++ " opened a connection around "
        ++ clock_text hour
        ++ " UTC — an hour it has never been active before (its profile spans "
        ++ show known_hours
        ++ " other hours). Off-profile activity, "
        ++ "especially overnight, can indicate malware beaconing or a compromised host.";
    dedup_key = "activehour:" ++ src ++ ":" ++ show hour;
    status = new;
    extra = no_extra;
  }

  -- `_process_event`, for a connection that was captured
  unfoldable pub process_hour :
      CapturedConnection
      → Moment
      → Tracker
      → Trace
      → Profiles String ℕ
      → Result (List Alert) × Profiles String ℕ
  unfolding hour_alert
  process_hour c m s t p =
      let hour = env.hour t in
      let (result, p') =
        observe config.active_hours_min_known (is_trusted_device c.src_ip "" s) c.src_ip hour m p in
      if eqb c.src_ip "" || not (ip_in_any_subnet ip_address ip_network c.src_ip config.subnets)
      then (ok [], p)
      else (reported result (λ others. hour_alert c.src_ip hour others s t), p')
