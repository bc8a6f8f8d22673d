-- ===== src/Capture/Collector/Contexts.antt =====
-- The contexts of an exporter under the operations on the cache.
use sentinel_pi.Prelude.{
  ℕ, ◌+◌, ◌≤◌, ◌<◌, ◌≡◌, ◌≢◌, refl, ap, String, none, List, [], ◌∷◌, length, ite, string_key,
  numbered_key, arith, leb, if_intro,
}
use sentinel_pi.Prelude.Dict.{get, put, remove, IsUnique}
use sentinel_pi.Prelude.Dict.Order.{remove_missing, remove-IsUnique}
use sentinel_pi.Capture.NetFlow.{Templates}
use sentinel_pi.Capture.Collector.{
  Context, Cache, Exporters, keys_of, delete_keys, evict_exporters, evict_domains,
}

pub keys_of-remove :
    (x : String) (k : Context) (t : Cache) → length (keys_of x (remove k t)) ≤ length (keys_of x t)
unfolding keys_of remove
keys_of-remove x k [] = omega arith
keys_of-remove x k ((j, ts) ∷ t) = ground (arith, keys_of-remove x k t)

pub keys_of-remove_present :
    (k : Context) (t : Cache)
    → get k t ≢ none
    → length (keys_of k.0 (remove k t)) < length (keys_of k.0 t)
unfolding keys_of remove get
keys_of-remove_present k [] h = absurd (h refl)
keys_of-remove_present k ((j, ts) ∷ t) h =
    ground (arith, keys_of-remove k.0 k t, keys_of-remove_present k t)

pub keys_of-put :
    (x : String) (k : Context) (ts : Templates) (t : Cache)
    → length (keys_of x (put k ts t)) ≤ length (keys_of x t) + ite (string_key.dec k.0 x) 1 0
unfolding keys_of put
keys_of-put x k ts [] = ground arith
keys_of-put x k ts ((j, us) ∷ t) = ground (arith, keys_of-put x k ts t)

pub keys_of-put_present :
    (x : String) (k : Context) (ts : Templates) (t : Cache)
    → get k t ≢ none
    → keys_of x (put k ts t) ≡ keys_of x t
unfolding keys_of put get
keys_of-put_present x k ts [] h = absurd (h refl)
keys_of-put_present x k ts ((j, us) ∷ t) h = ground (arith, keys_of-put_present x k ts t)

pub keys_of-remove_head :
    (x : String) (k : Context) (ks : List Context) (t : Cache)
    → IsUnique t
    → keys_of x t ≡ k ∷ ks
    → keys_of x (remove k t) ≡ ks
unfolding keys_of remove
keys_of-remove_head x k ks [] u h = cc
keys_of-remove_head x k ks ((j, ts) ∷ t) u h =
    ground (arith, u.0, remove_missing j t, keys_of-remove_head x k ks t u.1)

-- What every removal keeps, the loops keep.
module _ (P : Cache → Type 0) (step : (k : Context) (t : Cache) → P t → P (remove k t)) where
  pub delete_keys-keeps : (ks : List Context) (t : Cache) (e : ℕ) → P t → P (delete_keys ks t e).0
  unfolding delete_keys
  delete_keys-keeps [] t e h = h
  delete_keys-keeps (k ∷ ks) t e h = delete_keys-keeps ks (remove k t) (e + 1) (step k t h)

  pub evict_domains-keeps :
      (limit : ℕ) (ks : List Context) (t : Cache) (e : ℕ) → P t → P (evict_domains limit ks t e).0
  unfolding evict_domains
  evict_domains-keeps limit [] t e h = h
  evict_domains-keeps limit (k ∷ ks) t e h =
      if_intro (λ (r : Cache × ℕ). P r.0) (leb limit (length (k ∷ ks)))
        (λ _. evict_domains-keeps limit ks (remove k t) (e + 1) (step k t h)) (λ _. h)

  pub evict_exporters-keeps :
      (limit : ℕ) (xs : Exporters) (t : Cache) (e : ℕ) → P t → P (evict_exporters limit xs t e).1
  unfolding evict_exporters
  evict_exporters-keeps limit [] t e h = h
  evict_exporters-keeps limit ((x, u) ∷ xs) t e h =
      let ks = keys_of x t in
      let deleted = delete_keys ks t e in
      if_intro (λ (r : Exporters × Cache × ℕ). P r.1) (leb limit (length ((x, u) ∷ xs)))
        (λ _. evict_exporters-keeps limit xs deleted.0 deleted.1 (delete_keys-keeps ks t e h))
        (λ _. h)

-- All contexts of an exporter are deleted.
pub delete_keys-all :
    (x : String) (ks : List Context) (t : Cache) (e : ℕ)
    → IsUnique t
    → keys_of x t ≡ ks
    → keys_of x (delete_keys ks t e).0 ≡ []
unfolding delete_keys
delete_keys-all x [] t e u h = h
delete_keys-all x (k ∷ ks) t e u h =
    delete_keys-all x ks (remove k t) (e + 1) (remove-IsUnique k t u)
      (keys_of-remove_head x k ks t u h)

-- There is room for one more context.
pub evict_domains-room :
    (x : String) (limit : ℕ) (ks : List Context) (t : Cache) (e : ℕ)
    → 1 ≤ limit
    → IsUnique t
    → keys_of x t ≡ ks
    → length (keys_of x (evict_domains limit ks t e).0) < limit
unfolding evict_domains
evict_domains-room x limit [] t e some_room u h = omega (arith, ap length h)
evict_domains-room x limit (k ∷ ks) t e some_room u h = ground (
  arith,
  ap length h,
  evict_domains-room x limit ks (remove k t) (e + 1) some_room (remove-IsUnique k t u)
      (keys_of-remove_head x k ks t u h),
)
