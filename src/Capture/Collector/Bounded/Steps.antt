-- ===== src/Capture/Collector/Bounded/Steps.antt =====
-- Each operation of `NetFlowCollector` keeps the limits, and none raises `KeyError`.
use sentinel_pi.Prelude.{
  ℕ, ◌≤◌, ◌≡◌, ◌≢◌, ◌∙◌, refl, sym, String, Option, none, some, Option-cases, inl, inr, [], ◌∷◌,
  length, string_key, numbered_key, nat_key, arith,
}
use sentinel_pi.Prelude.Dict.{
  get, put, remove, IsUnique, put-IsUnique, AllValues, AllValues-put, AllValues-remove,
  get-AllValues, get-put_self, length-put,
}
use sentinel_pi.Prelude.Dict.Order.{
  move_to_end, remove-IsUnique, length-move_to_end, get-move_to_end,
}
use sentinel_pi.Capture.NetFlow.{Templates}
use sentinel_pi.Capture.Collector.{
  Context, Cache, Exporters, Collector, keys_of, evict_exporters, evict_domains, touch_exporter,
  add_context, touch_context, get_template_cache,
}
use sentinel_pi.Capture.Collector.Contexts.{
  keys_of-remove, keys_of-remove_present, keys_of-put, evict_domains-keeps, evict_exporters-keeps,
  evict_domains-room,
}
use sentinel_pi.Capture.Collector.Bounded.{
  IsTracked, IsBounded, remove-IsTracked, put-IsTracked, IsTracked-mono, get-put_mono,
  evict_exporters-IsTracked, length-evict_exporters,
}

-- Small caches: what removals keep.
abbrev IsSmall : ℕ → ℕ → Cache → Type 0
IsSmall domains size t =
    ((x : String) → length (keys_of x t) ≤ domains)
    × AllValues (λ (ts : Templates). length ts ≤ size) t
    × IsUnique t

remove-IsSmall :
    (domains size : ℕ) (k : Context) (t : Cache)
    → IsSmall domains size t
    → IsSmall domains size (remove k t)
remove-IsSmall domains size k t h = (
  (λ x. omega (arith, keys_of-remove x k t, h.0 x)),
  AllValues-remove (λ (ts : Templates). length ts ≤ size) k t h.1,
  remove-IsUnique k t h.2,
)

small :
    (c : Collector)
    → IsBounded c
    → IsSmall c.max_domains_per_exporter c.max_templates_per_context c.templates
small c b = (b.domains, b.sizes, b.unique)

-- The collector is within its limits and knows the exporter.
abbrev IsReady : String → Option Collector → Type 0
IsReady x r = (c : Collector) × (r ≡ some c) × IsBounded c × (get x c.exporters ≢ none)

move_to_end-present :
    (x : String) (c : Collector)
    → get x c.exporters ≢ none
    → (xs : Exporters) × (move_to_end x c.exporters ≡ some xs)
      × (length xs ≤ length c.exporters)
      × ((y : String) → get y xs ≡ get y c.exporters)
unfolding move_to_end
move_to_end-present x c h = elim (Option-cases (get x c.exporters)) [
  | inl e ↦ absurd (h e)
  | inr (u, e) ↦ (
    put x u (remove x c.exporters),
    rw (e, move_to_end) refl,
    length-move_to_end x u c.exporters h,
    (λ y. get-move_to_end x y u c.exporters e),
  )
]

touch_exporter-IsReady : (x : String) (c : Collector) → IsBounded c → IsReady x (touch_exporter x c)
unfolding touch_exporter
touch_exporter-IsReady x c b = elim (Option-cases (get x c.exporters)) [
  | inl e ↦
      let room = evict_exporters c.max_exporters c.exporters c.templates c.cache_evictions in
      let kept =
        evict_exporters-keeps
          (λ (t : Cache). IsSmall c.max_domains_per_exporter c.max_templates_per_context t)
          (remove-IsSmall c.max_domains_per_exporter c.max_templates_per_context) c.max_exporters
          c.exporters c.templates c.cache_evictions (small c b) in
      let space =
        length-evict_exporters c.max_exporters c.exporters c.templates c.cache_evictions
          b.some_exporter in
      let tracked =
        evict_exporters-IsTracked c.max_exporters c.exporters c.templates c.cache_evictions b.unique
          b.tracked in
      let c' : Collector = record c {
        exporters = put x tt room.0;
        templates = room.1;
        cache_evictions = room.2;
      } in
      (
        c',
        rw (e, touch_exporter) refl,
        record {
          some_exporter = b.some_exporter;
          some_domain = b.some_domain;
          exporters = omega (arith, length-put x tt room.0, space);
          domains = kept.0;
          sizes = kept.1;
          tracked = IsTracked-mono room.0 (put x tt room.0) room.1 (get-put_mono x room.0) tracked;
          unique = kept.2;
        },
        (λ q. let p = get-put_self x tt room.0 in cc),
      )
  | inr (u, e) ↦
      let known : get x c.exporters ≢ none = λ q. cc in
      let moved = move_to_end-present x c known in
      (
        record c { exporters = moved.0 },
        rw (e, moved.1, touch_exporter) refl,
        record {
          some_exporter = b.some_exporter;
          some_domain = b.some_domain;
          exporters = omega (arith, moved.2, b.exporters);
          domains = b.domains;
          sizes = b.sizes;
          tracked =
              IsTracked-mono c.exporters moved.0 c.templates (λ y h q. h (sym (moved.3 y) ∙ q))
                b.tracked;
          unique = b.unique;
        },
        (λ q. known (sym (moved.3 x) ∙ q)),
      )
]

add_context-IsBounded :
    (x : String) (d : ℕ) (c : Collector)
    → IsBounded c
    → get x c.exporters ≢ none
    → IsBounded (add_context x d c) × (get (x, d) (add_context x d c).templates ≡ some [])
unfolding add_context
add_context-IsBounded x d c b known =
    let limit = c.max_domains_per_exporter in
    let ks = keys_of x c.templates in
    let room = evict_domains limit ks c.templates c.cache_evictions in
    let kept =
      evict_domains-keeps (λ (t : Cache). IsSmall limit c.max_templates_per_context t)
        (remove-IsSmall limit c.max_templates_per_context) limit ks c.templates c.cache_evictions
        (small c b) in
    let tracked =
      evict_domains-keeps (λ (t : Cache). IsTracked c.exporters t) (remove-IsTracked c.exporters)
        limit ks c.templates c.cache_evictions b.tracked in
    let space =
      evict_domains-room x limit ks c.templates c.cache_evictions b.some_domain b.unique refl in
    (
      record {
        some_exporter = b.some_exporter;
        some_domain = b.some_domain;
        exporters = b.exporters;
        domains = λ y. ground (arith, keys_of-put y (x, d) [] room.0, kept.0 y, space);
        sizes =
            AllValues-put (λ (ts : Templates). length ts ≤ c.max_templates_per_context) (x, d) []
              room.0 (omega arith) kept.1;
        tracked = put-IsTracked c.exporters (x, d) [] room.0 known tracked;
        unique = put-IsUnique (x, d) [] room.0 kept.2;
      },
      get-put_self (x, d) [] room.0,
    )

-- The exporter of a context is known.
pub IsTracked-known :
    (xs : Exporters) (k : Context) (t : Cache) → IsTracked xs t → get k t ≢ none → get k.0 xs ≢ none
unfolding get
IsTracked-known xs k [] h found = absurd (found refl)
IsTracked-known xs k ((j, ts) ∷ t) h found = ground (arith, h.0, IsTracked-known xs k t h.1)

move_context-IsBounded :
    (x : String) (d : ℕ) (ts : Templates) (c : Collector)
    → IsBounded c
    → get (x, d) c.templates ≡ some ts
    → IsBounded (record c { templates = put (x, d) ts (remove (x, d) c.templates) })
move_context-IsBounded x d ts c b found =
    let t = remove (x, d) c.templates in
    let here : get (x, d) c.templates ≢ none = λ q. cc in
    let P = λ (us : Templates). length us ≤ c.max_templates_per_context in
    let less = keys_of-remove_present (x, d) c.templates here in
    record {
      some_exporter = b.some_exporter;
      some_domain = b.some_domain;
      exporters = b.exporters;
      domains = λ y. ground (
        arith,
        keys_of-put y (x, d) ts t,
        keys_of-remove y (x, d) c.templates,
        b.domains y,
        less,
      );
      sizes =
          AllValues-put P (x, d) ts t (get-AllValues P (x, d) c.templates ts found b.sizes)
            (AllValues-remove P (x, d) c.templates b.sizes);
      tracked =
          put-IsTracked c.exporters (x, d) ts t
            (IsTracked-known c.exporters (x, d) c.templates b.tracked here)
            (remove-IsTracked c.exporters (x, d) c.templates b.tracked);
      unique = put-IsUnique (x, d) ts t (remove-IsUnique (x, d) c.templates b.unique);
    }

-- The cache of a context is found or made, and never by a `KeyError`.
abbrev pub IsServed : String → ℕ → Option (Templates × Collector) → Type 0
IsServed x d r =
    (ts : Templates) × (c : Collector) × (r ≡ some (ts, c))
    × IsBounded c
    × (get (x, d) c.templates ≡ some ts)

touch_context-IsServed :
    (x : String) (d : ℕ) (ts : Templates) (c : Collector)
    → IsBounded c
    → get (x, d) c.templates ≡ some ts
    → (c' : Collector) × (touch_context x d c ≡ some c')
      × IsBounded c'
      × (get (x, d) c'.templates ≡ some ts)
unfolding touch_context move_to_end
touch_context-IsServed x d ts c b found =
    let here : get (x, d) c.templates ≢ none = λ q. cc in
    let known = IsTracked-known c.exporters (x, d) c.templates b.tracked here in
    let moved = move_to_end-present x c known in
    let templates = put (x, d) ts (remove (x, d) c.templates) in
    let b' = move_context-IsBounded x d ts c b found in
    (
      record c { templates = templates; exporters = moved.0 },
      rw (found, touch_context) (ground (arith, moved.1)),
      record {
        some_exporter = b.some_exporter;
        some_domain = b.some_domain;
        exporters = omega (arith, moved.2, b.exporters);
        domains = b'.domains;
        sizes = b'.sizes;
        tracked =
            IsTracked-mono c.exporters moved.0 templates (λ y h q. h (sym (moved.3 y) ∙ q))
              b'.tracked;
        unique = b'.unique;
      },
      get-put_self (x, d) ts (remove (x, d) c.templates),
    )

pub get_template_cache-IsServed :
    (x : String) (d : ℕ) (c : Collector) → IsBounded c → IsServed x d (get_template_cache x d c)
unfolding get_template_cache
get_template_cache-IsServed x d c b = elim (Option-cases (get (x, d) c.templates)) [
  | inl e ↦
      let ready = touch_exporter-IsReady x c b in
      let added = add_context-IsBounded x d ready.0 ready.2 ready.3 in
      ([], add_context x d ready.0, rw (e, ready.1, get_template_cache) refl, added.0, added.1)
  | inr (ts, e) ↦
      let touched = touch_context-IsServed x d ts c b e in
      (ts, touched.0, rw (e, touched.1, get_template_cache) refl, touched.2, touched.3)
]
