-- ===== src/Capture/Collector.antt =====
-- `NetFlowCollector` of capture/flow_ingest.py: which exporters are heard, and the cache of their
-- templates, the least recently used of which is evicted. `ipaddress.ip_address` is a parameter.
pub mod Limits
pub mod Contexts
pub mod Bounded
use sentinel_pi.Prelude.{
  ℕ, zero, suc, ◌+◌, max, String, Bool, true, false, Option, none, some, List, [], ◌∷◌, ite, length,
  take, drop, ltb, leb, ◌==◌, ◌&&◌, not, string_key, numbered_key, nat_key, if◌then◌else◌,
}
use sentinel_pi.Prelude.Dict.{Dict, get, put, remove}
use sentinel_pi.Prelude.Dict.Order.{move_to_end}
use sentinel_pi.Models.{Datetime}
use sentinel_pi.Network.{Address, Subnet, in_any}
use sentinel_pi.Capture.{Queue, Counts, emit_all}
use sentinel_pi.Capture.Bytes.{Bytes, from_bytes}
use sentinel_pi.Capture.NetFlow.{Templates, word_0, parse_netflow}
use sentinel_pi.Capture.NetFlow.Raises.{parse_raises}

-- An exporter and its source or observation domain.
abbrev pub Context : Type 0
Context = String × ℕ

abbrev pub Cache : Type 0
Cache = Dict Context Templates

-- The keys of `_exporters`; its values are all `None`.
abbrev pub Exporters : Type 0
Exporters = Dict String (Unit {0})

pub record Collector : Type 0 where
  pub allowed_exporters : List Subnet
  pub max_exporters : ℕ
  pub max_domains_per_exporter : ℕ
  pub max_templates_per_context : ℕ
  pub max_records_per_datagram : ℕ
  pub templates : Cache
  pub exporters : Exporters
  pub counts : Counts
  pub rejected_exporters : ℕ
  pub malformed : ℕ
  pub cache_evictions : ℕ

-- `__init__`, for numbers that are not negative.
unfoldable pub new_collector : List Subnet → ℕ → ℕ → ℕ → ℕ → Collector
new_collector allowed exporters domains templates records = record {
  allowed_exporters = allowed;
  max_exporters = max 1 exporters;
  max_domains_per_exporter = max 1 domains;
  max_templates_per_context = max 1 templates;
  max_records_per_datagram = max 1 records;
  templates = [];
  exporters = [];
  counts = record { emitted = 0; dropped = 0 };
  rejected_exporters = 0;
  malformed = 0;
  cache_evictions = 0;
}

-- `_template_context`
unfoldable pub template_context : Bytes → String → Option Context
template_context bs exporter =
    if ltb (length bs) 2
    then none
    else if word_0 bs == 5
    then some (exporter, 0)
    else if word_0 bs == 9 && leb 20 (length bs)
    then some (exporter, from_bytes (take 4 (drop 16 bs)))
    else if word_0 bs == 10 && leb 16 (length bs)
    then some (exporter, from_bytes (take 4 (drop 12 bs)))
    else none

-- `[item for item in self._templates if item[0] == exporter]`
unfoldable pub keys_of : String → Cache → List Context
keys_of exporter [] = []
keys_of exporter ((k, ts) ∷ cache) =
    ite (string_key.dec k.0 exporter) (k ∷ keys_of exporter cache) (keys_of exporter cache)

-- `del self._templates[stale_key]; self.cache_evictions += 1`, for each key.
unfoldable pub delete_keys : List Context → Cache → ℕ → Cache × ℕ
delete_keys [] cache evictions = (cache, evictions)
delete_keys (k ∷ ks) cache evictions = delete_keys ks (remove k cache) (evictions + 1)

-- `while len(self._exporters) >= self._max_exporters: …`. The limit is at least 1, so that the loop
-- ends before there is nothing to pop.
unfoldable pub evict_exporters : ℕ → Exporters → Cache → ℕ → Exporters × Cache × ℕ
unfolding keys_of delete_keys
evict_exporters limit [] cache evictions = ([], cache, evictions)
evict_exporters limit ((stale, u) ∷ exporters) cache evictions =
    let deleted = delete_keys (keys_of stale cache) cache evictions in
    let rest = evict_exporters limit exporters deleted.0 deleted.1 in
    if leb limit (length ((stale, u) ∷ exporters))
    then rest
    else ((stale, u) ∷ exporters, cache, evictions)

-- `while len(exporter_keys) >= self._max_domains_per_exporter: …`
unfoldable pub evict_domains : ℕ → List Context → Cache → ℕ → Cache × ℕ
evict_domains limit [] cache evictions = (cache, evictions)
evict_domains limit (stale ∷ ks) cache evictions =
    let rest = evict_domains limit ks (remove stale cache) (evictions + 1) in
    if leb limit (length (stale ∷ ks)) then rest else (cache, evictions)

-- The exporter becomes the most recent, others making room for one that is new. `none` stands for
-- the `KeyError` of `move_to_end`, here and below.
unfoldable pub touch_exporter : String → Collector → Option Collector
unfolding evict_exporters move_to_end
touch_exporter exporter c = elim (get exporter c.exporters) [
  | none ↦
      let room = evict_exporters c.max_exporters c.exporters c.templates c.cache_evictions in
      some (record c {
        exporters = put exporter tt room.0;
        templates = room.1;
        cache_evictions = room.2;
      })
  | some _ ↦ elim (move_to_end exporter c.exporters) [
    | none ↦ none
    | some exporters ↦ some (record c { exporters = exporters })
  ]
]

-- The end of `_get_template_cache`: an empty cache for a context that has none.
unfoldable pub add_context : String → ℕ → Collector → Collector
unfolding evict_domains keys_of
add_context exporter domain_id c =
    let room =
      evict_domains c.max_domains_per_exporter (keys_of exporter c.templates) c.templates
        c.cache_evictions in
    record c { templates = put (exporter, domain_id) [] room.0; cache_evictions = room.1 }

-- A context that is there becomes the most recent, and so does its exporter.
unfoldable pub touch_context : String → ℕ → Collector → Option Collector
unfolding move_to_end
touch_context exporter domain_id c = elim (move_to_end (exporter, domain_id) c.templates) [
  | none ↦ none
  | some templates ↦ elim (move_to_end exporter c.exporters) [
    | none ↦ none
    | some exporters ↦ some (record c { templates = templates; exporters = exporters })
  ]
]

-- `_get_template_cache`: the templates of the context, which the caller changes in place.
unfoldable pub get_template_cache : String → ℕ → Collector → Option (Templates × Collector)
unfolding touch_exporter add_context touch_context
get_template_cache exporter domain_id c = elim (get (exporter, domain_id) c.templates) [
  | some existing ↦ elim (touch_context exporter domain_id c) [
    | none ↦ none
    | some c' ↦ some (existing, c')
  ]
  | none ↦ elim (touch_exporter exporter c) [
    | none ↦ none
    | some c' ↦ some ([], add_context exporter domain_id c')
  ]
]

-- `_trim_templates`, with the count of evictions.
unfoldable pub trim_templates : ℕ → Templates → ℕ → Templates × ℕ
trim_templates limit [] evictions = ([], evictions)
trim_templates limit (oldest ∷ templates) evictions =
    let rest = trim_templates limit templates (evictions + 1) in
    if ltb limit (length (oldest ∷ templates)) then rest else (oldest ∷ templates, evictions)

module _ (ip_address : String → Option Address) where
  -- `_exporter_allowed`
  unfoldable pub exporter_allowed : Collector → String → Bool
  unfolding in_any
  exporter_allowed c exporter = elim (ip_address exporter) [
    | none ↦ false
    | some address ↦ in_any c.allowed_exporters address
  ]

  -- What follows once the context is known: the number of flows emitted, the queue, the collector. If
  -- the parser raises, the templates that it learned stay, and they are not trimmed.
  unfoldable pub ingest :
      Bytes → Context → Datetime → Queue → Collector → Option (ℕ × Queue × Collector)
  unfolding get_template_cache trim_templates
  ingest bs (exporter, domain_id) now q c = elim (get_template_cache exporter domain_id c) [
    | none ↦ none
    | some (ts, c') ↦
        let parsed = parse_netflow bs ts c'.max_records_per_datagram in
        let trimmed = trim_templates c'.max_templates_per_context parsed.1 c'.cache_evictions in
        let sent = emit_all parsed.0 now q c'.counts in
        elim (parse_raises bs ts c'.max_records_per_datagram) [
          | some learned ↦ some (
            0,
            q,
            record c' {
              templates = put (exporter, domain_id) learned c'.templates;
              malformed = c'.malformed + 1;
            },
          )
          | none ↦ some (
            sent.0,
            sent.1,
            record c' {
              templates = put (exporter, domain_id) trimmed.0 c'.templates;
              cache_evictions = trimmed.1;
              counts = sent.2;
            },
          )
        ]
  ]

  -- `_handle_datagram`
  unfoldable pub handle_datagram :
      Bytes → String → Datetime → Queue → Collector → Option (ℕ × Queue × Collector)
  unfolding exporter_allowed template_context ingest
  handle_datagram bs exporter now q c =
      if not (exporter_allowed c exporter)
      then some (0, q, record c { rejected_exporters = c.rejected_exporters + 1 })
      else elim (template_context bs exporter) [
        | none ↦ some (0, q, record c { malformed = c.malformed + 1 })
        | some context ↦ ingest bs context now q c
      ]

  -- The loop of `_run`, on the datagrams that arrive before it is stopped.
  unfoldable pub run :
      List (Bytes × String × Datetime) → Queue → Collector → Option (Queue × Collector)
  unfolding handle_datagram
  run [] q c = some (q, c)
  run ((bs, exporter, now) ∷ datagrams) q c = elim (handle_datagram bs exporter now q c) [
    | none ↦ none
    | some (n, q', c') ↦ run datagrams q' c'
  ]
