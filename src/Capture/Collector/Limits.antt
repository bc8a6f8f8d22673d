-- ===== src/Capture/Collector/Limits.antt =====
-- The limits of `NetFlowCollector` are set once: no operation changes them.
use sentinel_pi.Prelude.{
  ℕ, ◌≡◌, ◌∙◌, String, Option, some, Option-cases, inl, inr, List, [], ◌∷◌, string_key,
  numbered_key, nat_key, arith,
}
use sentinel_pi.Models.{Datetime}
use sentinel_pi.Network.{Address, Subnet}
use sentinel_pi.Capture.{Queue}
use sentinel_pi.Capture.Bytes.{Bytes}
use sentinel_pi.Capture.NetFlow.{Templates}
use sentinel_pi.Capture.Collector.{
  Context, Collector, touch_exporter, add_context, touch_context, get_template_cache,
  template_context, ingest, handle_datagram, run,
}

abbrev pub Limits : Type 0
Limits = ℕ × ℕ × ℕ × List Subnet

abbrev pub limits : Collector → Limits
limits c =
    (c.max_exporters, c.max_domains_per_exporter, c.max_templates_per_context, c.allowed_exporters)

touch_exporter-limits :
    (x : String) (c c' : Collector) → touch_exporter x c ≡ some c' → limits c' ≡ limits c
unfolding touch_exporter
touch_exporter-limits x c c' e = ground arith

touch_context-limits :
    (x : String) (d : ℕ) (c c' : Collector) → touch_context x d c ≡ some c' → limits c' ≡ limits c
unfolding touch_context
touch_context-limits x d c c' e = ground arith

get_template_cache-limits :
    (x : String) (d : ℕ) (c c' : Collector) (ts : Templates)
    → get_template_cache x d c ≡ some (ts, c')
    → limits c' ≡ limits c
unfolding get_template_cache add_context
get_template_cache-limits x d c c' ts e = elim (Option-cases (touch_exporter x c)) [
  | inl p ↦ elim (Option-cases (touch_context x d c)) [
    | inl q ↦ ground arith
    | inr (c'', q) ↦ ground (arith, touch_context-limits x d c c'' q)
  ]
  | inr (c1, p) ↦ elim (Option-cases (touch_context x d c)) [
    | inl q ↦ ground (arith, touch_exporter-limits x c c1 p)
    | inr (c'', q) ↦
        ground (arith, touch_exporter-limits x c c1 p, touch_context-limits x d c c'' q)
  ]
]

module _ (ip_address : String → Option Address) where
  ingest-limits :
      (bs : Bytes) (k : Context) (now : Datetime) (q : Queue) (c : Collector) (n : ℕ) (q' : Queue)
      (c' : Collector)
      → ingest ip_address bs k now q c ≡ some (n, q', c')
      → limits c' ≡ limits c
  unfolding ingest
  ingest-limits bs (x, d) now q c n q' c' e = elim (Option-cases (get_template_cache x d c)) [
    | inl p ↦ ground arith
    | inr ((ts, c1), p) ↦ ground (arith, get_template_cache-limits x d c c1 ts p)
  ]

  handle_datagram-limits :
      (bs : Bytes) (exporter : String) (now : Datetime) (q : Queue) (c : Collector) (n : ℕ)
      (q' : Queue) (c' : Collector)
      → handle_datagram ip_address bs exporter now q c ≡ some (n, q', c')
      → limits c' ≡ limits c
  unfolding handle_datagram
  handle_datagram-limits bs exporter now q c n q' c' e =
      elim (Option-cases (template_context bs exporter)) [
        | inl p ↦ ground arith
        | inr (k, p) ↦ ground (arith, ingest-limits bs k now q c n q' c')
      ]

  pub run-limits :
      (datagrams : List (Bytes × String × Datetime)) (q : Queue) (c : Collector) (q' : Queue)
      (c' : Collector)
      → run ip_address datagrams q c ≡ some (q', c')
      → limits c' ≡ limits c
  unfolding run
  run-limits [] q c q' c' e = ground arith
  run-limits ((bs, exporter, now) ∷ datagrams) q c q' c' e =
      elim (Option-cases (handle_datagram ip_address bs exporter now q c)) [
        | inl p ↦ ground arith
        | inr ((n, q1, c1), p) ↦
            run-limits datagrams q1 c1 q' c' (ground arith)
            ∙ handle_datagram-limits bs exporter now q c n q1 c1 p
      ]
