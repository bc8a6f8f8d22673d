-- ===== src/Capture/Collector/Bounded/Datagrams.antt =====
-- `NetFlowCollector._handle_datagram` is total and keeps the limits.
use sentinel_pi.Prelude.{
  ℕ, ◌+◌, ◌≤◌, ◌≡◌, ◌≢◌, String, Bool-cases, Option, none, some, Option-cases, inl, inr, List, [],
  ◌∷◌, All, length, string_key, numbered_key, nat_key, arith, refl, max,
}
use sentinel_pi.Prelude.Dict.{get, put, put-IsUnique, AllValues-put}
use sentinel_pi.Models.{Datetime}
use sentinel_pi.Network.{Address, Subnet}
use sentinel_pi.Capture.{Queue, Counts, emit_all}
use sentinel_pi.Capture.Bytes.{Bytes}
use sentinel_pi.Capture.NetFlow.{Templates, parse_netflow}
use sentinel_pi.Capture.NetFlow.Short.{AreBytes, parse_raises-none}
use sentinel_pi.Capture.Collector.{
  Context, Collector, new_collector, trim_templates, template_context, exporter_allowed, ingest,
  handle_datagram, run, keys_of,
}
use sentinel_pi.Capture.Collector.Contexts.{keys_of-put_present}
use sentinel_pi.Capture.Collector.Limits.{limits, run-limits}
use sentinel_pi.Capture.Collector.Bounded.{IsBounded, put-IsTracked}
use sentinel_pi.Capture.Collector.Bounded.Steps.{IsTracked-known, get_template_cache-IsServed}

length-trim_templates :
    (limit : ℕ) (ts : Templates) (e : ℕ) → length (trim_templates limit ts e).0 ≤ limit
unfolding trim_templates
length-trim_templates limit [] e = omega arith
length-trim_templates limit (t ∷ ts) e = ground (arith, length-trim_templates limit ts (e + 1))

-- The templates of a context change in place.
put_context-IsBounded :
    (k : Context) (ts : Templates) (c : Collector)
    → IsBounded c
    → get k c.templates ≢ none
    → length ts ≤ c.max_templates_per_context
    → IsBounded (record c { templates = put k ts c.templates })
put_context-IsBounded k ts c b here fits = record {
  some_exporter = b.some_exporter;
  some_domain = b.some_domain;
  exporters = b.exporters;
  domains = λ y. rw (keys_of-put_present y k ts c.templates here) (b.domains y);
  sizes =
      AllValues-put (λ (us : Templates). length us ≤ c.max_templates_per_context) k ts c.templates
        fits b.sizes;
  tracked =
      put-IsTracked c.exporters k ts c.templates
        (IsTracked-known c.exporters k c.templates b.tracked here) b.tracked;
  unique = put-IsUnique k ts c.templates b.unique;
}

-- The counters do not matter.
counters-IsBounded :
    (rejected malformed evictions : ℕ) (counts : Counts) (c : Collector)
    → IsBounded c
    → IsBounded (record c {
      rejected_exporters = rejected;
      malformed = malformed;
      cache_evictions = evictions;
      counts = counts;
    })
counters-IsBounded rejected malformed evictions counts c b = record {
  some_exporter = b.some_exporter;
  some_domain = b.some_domain;
  exporters = b.exporters;
  domains = b.domains;
  sizes = b.sizes;
  tracked = b.tracked;
  unique = b.unique;
}

-- The operation gives a result, and the collector is within its limits.
abbrev pub Handles : Option (ℕ × Queue × Collector) → Type 0
Handles r = (n : ℕ) × (q : Queue) × (c : Collector) × (r ≡ some (n, q, c)) × IsBounded c

-- A datagram of at most 1785 bytes.
abbrev pub IsShort : Bytes × String × Datetime → Type 0
IsShort (bs, exporter, now) = AreBytes 1785 bs

module _ (ip_address : String → Option Address) where
  ingest-Handles :
      (bs : Bytes) (k : Context) (now : Datetime) (q : Queue) (c : Collector)
      → AreBytes 1785 bs
      → IsBounded c
      → Handles (ingest ip_address bs k now q c)
  unfolding ingest
  ingest-Handles bs (x, d) now q c small b =
      let served = get_template_cache-IsServed x d c b in
      let c' = served.1 in
      let parsed = parse_netflow bs served.0 c'.max_records_per_datagram in
      let trimmed = trim_templates c'.max_templates_per_context parsed.1 c'.cache_evictions in
      let sent = emit_all parsed.0 now q c'.counts in
      let templates = put (x, d) trimmed.0 c'.templates in
      let changed : Collector = record c' { templates = templates } in
      let b' =
        put_context-IsBounded (x, d) trimmed.0 c' served.3 (λ e. let f = served.4 in cc)
          (length-trim_templates c'.max_templates_per_context parsed.1 c'.cache_evictions) in
      (
        sent.0,
        sent.1,
        record changed { cache_evictions = trimmed.1; counts = sent.2 },
        rw (served.2, parse_raises-none bs served.0 c'.max_records_per_datagram small, ingest) refl,
        counters-IsBounded c'.rejected_exporters c'.malformed trimmed.1 sent.2 changed b',
      )

  -- Whatever a datagram of at most 1785 bytes holds and whoever sends it, a collector that is within
  -- its limits handles it
  -- without a `KeyError` and is within its limits again.
  handle_datagram-Handles :
      (bs : Bytes) (exporter : String) (now : Datetime) (q : Queue) (c : Collector)
      → AreBytes 1785 bs
      → IsBounded c
      → Handles (handle_datagram ip_address bs exporter now q c)
  unfolding handle_datagram
  handle_datagram-Handles bs exporter now q c small b =
      elim (Bool-cases (exporter_allowed ip_address c exporter)) [
        | inl allowed ↦ elim (Option-cases (template_context bs exporter)) [
          | inl e ↦ (
            0,
            q,
            record c { malformed = c.malformed + 1 },
            rw (allowed, e, handle_datagram) refl,
            counters-IsBounded c.rejected_exporters (c.malformed + 1) c.cache_evictions c.counts c
                b,
          )
          | inr (k, e) ↦
              let h = ingest-Handles bs k now q c small b in
              (h.0, h.1, h.2, rw (allowed, e, handle_datagram) h.3, h.4)
        ]
        | inr refused ↦ (
          0,
          q,
          record c { rejected_exporters = c.rejected_exporters + 1 },
          rw (refused, handle_datagram) refl,
          counters-IsBounded (c.rejected_exporters + 1) c.malformed c.cache_evictions c.counts c b,
        )
      ]

  run-IsBounded :
      (datagrams : List (Bytes × String × Datetime)) (q : Queue) (c : Collector)
      → All IsShort datagrams
      → IsBounded c
      → (q' : Queue) × (c' : Collector) × (run ip_address datagrams q c ≡ some (q', c'))
        × IsBounded c'
  unfolding run
  run-IsBounded [] q c small b = (q, c, refl, b)
  run-IsBounded ((bs, exporter, now) ∷ datagrams) q c small b =
      let h = handle_datagram-Handles bs exporter now q c small.0 b in
      let rest = run-IsBounded datagrams h.1 h.2 small.1 h.4 in
      (rest.0, rest.1, rw (h.3, run) rest.2, rest.3)

new_collector-IsBounded :
    (allowed : List Subnet) (exporters domains templates records : ℕ)
    → IsBounded (new_collector allowed exporters domains templates records)
unfolding new_collector keys_of
new_collector-IsBounded allowed exporters domains templates records = record {
  some_exporter = omega arith;
  some_domain = omega arith;
  exporters = omega arith;
  domains = λ x. omega arith;
  sizes = tt;
  tracked = tt;
  unique = tt;
}

-- Whatever datagrams of at most 1785 bytes arrive, from whomever, a new collector with any limits
-- handles them all without a KeyError; after them its limits are still those it was made with, 1
-- for a limit of 0, it knows at most so many exporters, with at most so many contexts each and at
-- most so many templates in each, and the exporter of every context is known.
pub run_lem :
    (ip_address : String → Option Address) (allowed : List Subnet)
    (exporters domains templates records : ℕ) (datagrams : List (Bytes × String × Datetime))
    (q : Queue)
    → All IsShort datagrams
    → let c = new_collector allowed exporters domains templates records in
      (q' : Queue) × (c' : Collector) × (run ip_address datagrams q c ≡ some (q', c'))
      × IsBounded c'
      × (limits c' ≡ (max 1 exporters, max 1 domains, max 1 templates, allowed))
unfolding new_collector
run_lem ip_address allowed exporters domains templates records datagrams q small =
    let c = new_collector allowed exporters domains templates records in
    let r =
      run-IsBounded ip_address datagrams q c small
        (new_collector-IsBounded allowed exporters domains templates records) in
    (r.0, r.1, r.2, r.3, run-limits ip_address datagrams q c r.0 r.1 r.2)
