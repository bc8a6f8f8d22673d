-- ===== src/Detectors/Profiles/Hours/Lost.antt =====
-- An hour of a host that is observed stays in memory, also where its alert is lost.
use sentinel_pi.Prelude.{
  ℕ, ◌≡◌, refl, sym, ap, String, false, ◌||◌, not, Option, none, List, [], ◌∷◌, eqb, string_key,
  nat_key, pair_key, if_intro,
}
use sentinel_pi.Models.{Alert}
use sentinel_pi.Network.{Address, Subnet, ip_in_any_subnet}
use sentinel_pi.World.{Trace, Env, Result, ok}
use sentinel_pi.Capture.{CapturedConnection}
use sentinel_pi.Inventory.Tracker.{Tracker, is_trusted_device}
use sentinel_pi.Detectors.Profiles.{Profiles, Moment, ProfileConfig, Handled, reported}
use sentinel_pi.Detectors.Profiles.Held.{IsHeld, observe-IsHeld, held-IsQuiet, observe-IsHeld_new}
use sentinel_pi.Detectors.Profiles.Hours.{hour_alert, process_hour}

module _ (env : Env) (ip_address : String → Option Address) (ip_network : String → Option Subnet)
    (config : ProfileConfig) where
  process_hour-IsHeld :
      (h : String) (v : ℕ) (c : CapturedConnection) (m : Moment) (s : Tracker) (t : Trace)
      (p : Profiles String ℕ)
      → IsHeld h v p
      → IsHeld h v (process_hour env ip_address ip_network config c m s t p).1
  unfolding process_hour
  process_hour-IsHeld h v c m s t p held =
      if_intro (λ (out : Result (List Alert) × Profiles String ℕ). IsHeld h v out.1)
        (eqb c.src_ip "" || not (ip_in_any_subnet ip_address ip_network c.src_ip config.subnets))
        (λ _. held)
        (λ _.
          observe-IsHeld h c.src_ip v (env.hour t) config.active_hours_min_known
            (is_trusted_device c.src_ip "" s) m p held)

  -- The detector of hours after some connections.
  unfoldable pub after_hours : List (Handled Moment) → Profiles String ℕ → Profiles String ℕ
  after_hours [] p = p
  after_hours ((c, (m, (s, t))) ∷ rest) p =
      after_hours rest (process_hour env ip_address ip_network config c m s t p).1

  after_hours-IsHeld :
      (h : String) (v : ℕ) (handled : List (Handled Moment)) (p : Profiles String ℕ)
      → IsHeld h v p
      → IsHeld h v (after_hours handled p)
  unfolding after_hours
  after_hours-IsHeld h v [] p held = held
  after_hours-IsHeld h v ((c, (m, (s, t))) ∷ rest) p held =
      after_hours-IsHeld h v rest _ (process_hour-IsHeld h v c m s t p held)

  -- A connection is handled whose profile can be read. From then on, until a restart, a connection of
  -- the same host in the same hour of the day gives no alert, also if the write of the hour had
  -- raised, and with it the alert of the first connection was lost.
  pub process_hour_lost :
      (c c' : CapturedConnection) (m m' : Moment) (s s' : Tracker) (t t' : Trace)
      (p : Profiles String ℕ) (handled : List (Handled Moment))
      → m.read_error ≡ none
      → c'.src_ip ≡ c.src_ip
      → env.hour t' ≡ env.hour t
      → (process_hour env ip_address ip_network config c' m' s' t'
          (after_hours handled (process_hour env ip_address ip_network config c m s t p).1)).0
        ≡ ok []
  unfolding process_hour
  process_hour_lost c c' m m' s s' t t' p handled reads host hour =
      let p' = after_hours handled (process_hour env ip_address ip_network config c m s t p).1 in
      let min = config.active_hours_min_known in
      let outside =
        eqb c.src_ip "" || not (ip_in_any_subnet ip_address ip_network c.src_ip config.subnets) in
      let P : Result (List Alert) × Profiles String ℕ → Type 0 = λ out. out.0 ≡ ok [] in
      let H : Profiles String ℕ → Type 0 = λ q. IsHeld c.src_ip (env.hour t) q in
      if_intro P
        (eqb c'.src_ip "" || not (ip_in_any_subnet ip_address ip_network c'.src_ip config.subnets))
        (λ _. refl)
        (λ inside.
          let was : outside ≡ false = rw (sym host) inside in
          let first : H (process_hour env ip_address ip_network config c m s t p).1 =
            if_intro (λ (out : Result (List Alert) × Profiles String ℕ). H out.1) outside
              (λ e. absurd cc)
              (λ _.
                observe-IsHeld_new c.src_ip (env.hour t) min (is_trusted_device c.src_ip "" s) m p
                  reads) in
          let held : IsHeld c'.src_ip (env.hour t') p' =
            rw (host, hour) (after_hours-IsHeld c.src_ip (env.hour t) handled _ first) in
          ap
            (λ r. reported r (λ others.
              hour_alert env ip_address ip_network config c'.src_ip (env.hour t') others s' t'))
            (held-IsQuiet c'.src_ip (env.hour t') min (is_trusted_device c'.src_ip "" s') m' p'
              held))
