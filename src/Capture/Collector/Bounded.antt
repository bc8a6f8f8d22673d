-- ===== src/Capture/Collector/Bounded.antt =====
-- The limits that `NetFlowCollector` keeps, whatever an exporter sends.
pub mod Steps
pub mod Datagrams
use sentinel_pi.Prelude.{
  ℕ, zero, suc, ◌+◌, ◌≤◌, ◌<◌, ◌≡◌, ◌≢◌, ◌∙◌, refl, sym, ap, String, Option, none, some, List, [],
  ◌∷◌, length, if_pos, if_neg, ite, if_intro, string_key, numbered_key, nat_key, arith, leb,
  if◌then◌else◌,
}
use sentinel_pi.Prelude.Dict.{Dict, get, put, remove, IsUnique, AllValues, get-put_self, get-put_ne}
use sentinel_pi.Prelude.Dict.Order.{remove-IsUnique}
use sentinel_pi.Capture.NetFlow.{Templates}
use sentinel_pi.Capture.Collector.{
  Context, Cache, Exporters, Collector, keys_of, delete_keys, evict_exporters,
}
use sentinel_pi.Capture.Collector.Contexts.{delete_keys-keeps, delete_keys-all}

-- The exporter of every context is among the known ones.
abbrev pub IsTracked : Exporters → Cache → Type 0
IsTracked xs [] = Unit
IsTracked xs ((k, ts) ∷ t) = (get k.0 xs ≢ none) × IsTracked xs t

-- At most `max_exporters` exporters are known, with at most `max_domains_per_exporter` contexts each,
-- of at most `max_templates_per_context` templates each; the exporter of every context is known.
pub record IsBounded (c : Collector) : Type 0 where
  pub some_exporter : 1 ≤ c.max_exporters
  pub some_domain : 1 ≤ c.max_domains_per_exporter
  pub exporters : length c.exporters ≤ c.max_exporters
  pub domains : (x : String) → length (keys_of x c.templates) ≤ c.max_domains_per_exporter
  pub sizes : AllValues (λ (ts : Templates). length ts ≤ c.max_templates_per_context) c.templates
  pub tracked : IsTracked c.exporters c.templates
  pub unique : IsUnique c.templates

pub remove-IsTracked :
    (xs : Exporters) (k : Context) (t : Cache) → IsTracked xs t → IsTracked xs (remove k t)
unfolding remove
remove-IsTracked xs k [] h = h
remove-IsTracked xs k ((j, ts) ∷ t) h = elim (numbered_key.dec k j) [
  | yes e ↦ rw (if_pos _ e) (remove-IsTracked xs k t h.1)
  | no e ↦ rw (if_neg _ e) (h.0, remove-IsTracked xs k t h.1)
]

pub put-IsTracked :
    (xs : Exporters) (k : Context) (ts : Templates) (t : Cache)
    → get k.0 xs ≢ none
    → IsTracked xs t
    → IsTracked xs (put k ts t)
unfolding put
put-IsTracked xs k ts [] known h = (known, tt)
put-IsTracked xs k ts ((j, us) ∷ t) known h = elim (numbered_key.dec k j) [
  | yes e ↦ rw (if_pos _ e) h
  | no e ↦ rw (if_neg _ e) (h.0, put-IsTracked xs k ts t known h.1)
]

-- Where the known exporters of one dictionary are known in another.
pub IsTracked-mono :
    (xs ys : Exporters) (t : Cache)
    → ((x : String) → get x xs ≢ none → get x ys ≢ none)
    → IsTracked xs t
    → IsTracked ys t
IsTracked-mono xs ys [] f h = h
IsTracked-mono xs ys ((k, ts) ∷ t) f h = (f k.0 h.0, IsTracked-mono xs ys t f h.1)

pub get-put_mono :
    (x : String) (xs : Exporters) (y : String) → get y xs ≢ none → get y (put x tt xs) ≢ none
get-put_mono x xs y h = elim (string_key.dec y x) [
  | yes e ↦ λ q. let p = get-put_self x tt xs in ground (arith, p, q, e)
  | no e ↦ λ q. h (sym (get-put_ne x y tt xs e) ∙ q)
]

-- An exporter with no context can go.
pop-IsTracked :
    (x : String) (u : Unit {0}) (xs : Exporters) (t : Cache)
    → keys_of x t ≡ []
    → IsTracked ((x, u) ∷ xs) t
    → IsTracked xs t
unfolding keys_of get
pop-IsTracked x u xs [] e h = h
pop-IsTracked x u xs ((k, ts) ∷ t) e h =
    (ground (arith, h.0, e), pop-IsTracked x u xs t (ground (arith, e)) h.1)

pub evict_exporters-IsTracked :
    (limit : ℕ) (xs : Exporters) (t : Cache) (e : ℕ)
    → IsUnique t
    → IsTracked xs t
    → let r = evict_exporters limit xs t e in IsTracked r.0 r.1
unfolding evict_exporters
evict_exporters-IsTracked limit [] t e u h = h
evict_exporters-IsTracked limit ((x, v) ∷ xs) t e u h =
    let ks = keys_of x t in
    let deleted = delete_keys ks t e in
    let unique = delete_keys-keeps (λ (t : Cache). IsUnique t) remove-IsUnique ks t e u in
    let tracked =
      delete_keys-keeps (λ (t : Cache). IsTracked ((x, v) ∷ xs) t) (remove-IsTracked ((x, v) ∷ xs))
        ks t e h in
    let gone = delete_keys-all x ks t e u refl in
    if_intro (λ (r : Exporters × Cache × ℕ). IsTracked r.0 r.1) (leb limit (length ((x, v) ∷ xs)))
      (λ _.
        evict_exporters-IsTracked limit xs deleted.0 deleted.1 unique
          (pop-IsTracked x v xs deleted.0 gone tracked))
      (λ _. h)

pub length-evict_exporters :
    (limit : ℕ) (xs : Exporters) (t : Cache) (e : ℕ)
    → 1 ≤ limit
    → length (evict_exporters limit xs t e).0 < limit
unfolding evict_exporters
length-evict_exporters limit [] t e h = h
length-evict_exporters limit ((x, v) ∷ xs) t e h =
    let deleted = delete_keys (keys_of x t) t e in
    ground (arith, length-evict_exporters limit xs deleted.0 deleted.1 h)
