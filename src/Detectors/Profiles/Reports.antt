-- ===== src/Detectors/Profiles/Reports.antt =====
-- What the detectors of countries and hours report over time.
use sentinel_pi.Prelude.{
  ℕ, ◌≡◌, refl, String, not, Option, none, some, List, [], ◌∷◌, eqb, string_key, nat_key, if_intro,
}
use sentinel_pi.Models.{Alert}
use sentinel_pi.Network.{Address, Subnet}
use sentinel_pi.World.{Trace, Env, Result, ok, raised}
use sentinel_pi.Capture.{CapturedConnection}
use sentinel_pi.Inventory.Tracker.{Tracker, is_trusted_device}
use sentinel_pi.Detectors.Profiles.{Profiles, Moment, observe, restart, ProfileConfig, reported}
use sentinel_pi.Detectors.Profiles.Once.{
  IsQuiet, IsKnown, observe-IsKnown, restart-IsKnown, observe-IsQuiet, observe-IsKnown_new,
}
use sentinel_pi.Detectors.Profiles.Countries.{is_outbound, process_country}

-- No alert: an empty list, or an exception.
abbrev pub IsSilent : Result (List Alert) → Type 0
IsSilent (raised message) = Unit
IsSilent (ok alerts) = alerts ≡ []

reported-IsSilent :
    (r : Result (Option ℕ)) (alert : ℕ → Alert) → IsQuiet r → IsSilent (reported r alert)
reported-IsSilent (raised message) alert q = tt
reported-IsSilent (ok none) alert q = refl
reported-IsSilent (ok (some n)) alert q = absurd cc

-- Where an alert is reported, there was something to report.
reported-some :
    (r : Result (Option ℕ)) (alert : ℕ → Alert) (a : Alert) (rest : List Alert)
    → reported r alert ≡ ok (a ∷ rest)
    → (n : ℕ) × (r ≡ ok (some n))
reported-some (raised message) alert a rest e = absurd cc
reported-some (ok none) alert a rest e = absurd cc
reported-some (ok (some n)) alert a rest e = (n, refl)

-- What happens to a detector: it handles a connection, or the service is restarted.
pub data Input : Type 0 where
  captured : CapturedConnection → Moment → Tracker → Trace → Input
  restarted : Input

module _ (env : Env) (ip_address : String → Option Address) (ip_network : String → Option Subnet)
    (geo_lookup name_lookup : String → String) (config : ProfileConfig) where
  process_country-IsKnown :
      (h v : String) (c : CapturedConnection) (m : Moment) (s : Tracker) (t : Trace)
      (p : Profiles String String)
      → IsKnown h v p
      → IsKnown h v
          (process_country env ip_address ip_network geo_lookup name_lookup config c m s t p).1
  unfolding process_country
  process_country-IsKnown h v c m s t p known =
      let P : Result (List Alert) × Profiles String String → Type 0 = λ out. IsKnown h v out.1 in
      let place = geo_lookup c.dst_ip in
      if_intro P (not (is_outbound env ip_address ip_network geo_lookup name_lookup config c))
        (λ _. known)
        (λ _.
          if_intro P (eqb place "") (λ _. known)
            (λ _. observe-IsKnown h c.src_ip v place 0 (is_trusted_device c.src_ip "" s) m p known))

  -- The detector after connections and restarts.
  unfoldable pub runs : List Input → Profiles String String → Profiles String String
  runs [] p = p
  runs (captured c m s t ∷ inputs) p =
      runs inputs
        (process_country env ip_address ip_network geo_lookup name_lookup config c m s t p).1
  runs (restarted ∷ inputs) p = runs inputs (restart p)

  runs-IsKnown :
      (h v : String) (inputs : List Input) (p : Profiles String String)
      → IsKnown h v p
      → IsKnown h v (runs inputs p)
  unfolding runs
  runs-IsKnown h v [] p known = known
  runs-IsKnown h v (captured c m s t ∷ inputs) p known =
      runs-IsKnown h v inputs _ (process_country-IsKnown h v c m s t p known)
  runs-IsKnown h v (restarted ∷ inputs) p known =
      runs-IsKnown h v inputs (restart p) (restart-IsKnown h v p known)

  process_country-IsKnown_new :
      (c : CapturedConnection) (m : Moment) (s : Tracker) (t : Trace) (p : Profiles String String)
      (a : Alert) (rest : List Alert)
      → let out =
          process_country env ip_address ip_network geo_lookup name_lookup config c m s t p in
        out.0 ≡ ok (a ∷ rest) → IsKnown c.src_ip (geo_lookup c.dst_ip) out.1
  unfolding process_country
  process_country-IsKnown_new c m s t p a rest =
      let place = geo_lookup c.dst_ip in
      let P : Result (List Alert) × Profiles String String → Type 0 =
        λ out. out.0 ≡ ok (a ∷ rest) → IsKnown c.src_ip place out.1 in
      let trusted = is_trusted_device c.src_ip "" s in
      if_intro P (not (is_outbound env ip_address ip_network geo_lookup name_lookup config c))
        (λ _ e. absurd cc)
        (λ _.
          if_intro P (eqb place "") (λ _ e. absurd cc)
            (λ _ e.
              let (n, found) = reported-some (observe 0 trusted c.src_ip place m p).0 _ a rest e in
              observe-IsKnown_new c.src_ip place 0 trusted m p n found))

  -- A host's new country is reported at most once: after the report, whatever connections are
  -- handled, whichever calls of the database raise and however often the service is restarted, a
  -- connection of the host to that country gives no alert.
  pub process_country_once :
      (c c' : CapturedConnection) (m m' : Moment) (s s' : Tracker) (t t' : Trace)
      (p : Profiles String String) (a : Alert) (rest : List Alert) (inputs : List Input)
      → let first =
          process_country env ip_address ip_network geo_lookup name_lookup config c m s t p in
        first.0 ≡ ok (a ∷ rest)
        → c'.src_ip ≡ c.src_ip
        → geo_lookup c'.dst_ip ≡ geo_lookup c.dst_ip
        → IsSilent
            (process_country env ip_address ip_network geo_lookup name_lookup config c' m' s' t'
              (runs inputs first.1)).0
  unfolding process_country
  process_country_once c c' m m' s s' t t' p a rest inputs e host place =
      let first =
        process_country env ip_address ip_network geo_lookup name_lookup config c m s t p in
      let p' = runs inputs first.1 in
      let known : IsKnown c'.src_ip (geo_lookup c'.dst_ip) p' =
        rw (host, place)
          (runs-IsKnown c.src_ip (geo_lookup c.dst_ip) inputs first.1
            (process_country-IsKnown_new c m s t p a rest e)) in
      let P : Result (List Alert) × Profiles String String → Type 0 = λ out. IsSilent out.0 in
      if_intro P (not (is_outbound env ip_address ip_network geo_lookup name_lookup config c'))
        (λ _. refl)
        (λ _.
          if_intro P (eqb (geo_lookup c'.dst_ip) "") (λ _. refl)
            (λ _. reported-IsSilent _ _ (
              observe-IsQuiet c'.src_ip (geo_lookup c'.dst_ip) 0 (is_trusted_device c'.src_ip "" s')
                m' p' known)))
