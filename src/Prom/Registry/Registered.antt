-- ===== src/Prom/Registry/Registered.antt =====
-- What `register_metrics` (proxy/src/prom.rs) leaves in the registry.
use Prim.Native.Char.{code}
use Prim.Native.String.{String}
use text.Mathlib.Text.{◌==◌}
use shredstream_proxy.Common.{
  ℕ, ◌≡◌, refl, ◌∙◌, ap, Bool, true, false, not, ◌&&◌, ◌||◌, some, List, [], ◌∷◌, for_each, Ensures,
  ensures, Ensures-bind, Ensures-mono, ltb, leb, arith,
}
use shredstream_proxy.Prom.{
  PromEvent, observe_dedup_time, observe_send_packet_count, observe_send_duration,
  observe_recv_interval, observe_recv_packet_count, inc_packets_received, inc_packets_deduped,
  inc_packets_forwarded, inc_packets_forward_failed, inc_packets_by_source,
}
use shredstream_proxy.Prom.Registry.{
  Prometheus, Metric, dedup_duration_hist, send_duration_hist, send_packet_count_hist,
  recv_interval_hist, recv_packet_count_hist, packets_received_total, packets_deduped_total,
  packets_forwarded_total, packets_forward_failed_total, packets_by_source, name_of, metric_of,
  all_metrics, build, register_metric, register_metrics,
}

-- The code points of a text.
abbrev pub codes : String → List ℕ
codes String.[] = []
codes (String.◌∷◌ c s) = code c ∷ codes s

-- The characters of a metric's or a label's name, which must not start with a digit.
abbrev pub is_letter : ℕ → Bool
is_letter c = (leb b'a' c && leb c b'z') || (leb b'A' c && leb c b'Z') || leb b'_' c && leb c b'_'

abbrev pub is_letters : List ℕ → Bool
is_letters [] = true
is_letters (c ∷ cs) = is_letter c && is_letters cs

abbrev pub is_name : List ℕ → Bool
is_name [] = false
is_name (c ∷ cs) = is_letters (c ∷ cs)

abbrev pub are_names : List String → Bool
are_names [] = true
are_names (s ∷ rest) = is_name (codes s) && are_names rest

abbrev pub increases : List ℕ → Bool
increases [] = true
increases (a ∷ []) = true
increases (a ∷ b ∷ rest) = ltb a b && increases (b ∷ rest)

abbrev pub has : String → List String → Bool
has n [] = false
has n (x ∷ xs) = (x == n) || has n xs

abbrev pub are_distinct : List String → Bool
are_distinct [] = true
are_distinct (n ∷ ns) = not (has n ns) && are_distinct ns

-- What the crate documents: a metric is built if its name and labels are names (of letters and
-- underscores, here) and its buckets increase, and is registered where no metric has its name.
pub record PrometheusLaws (P : Prometheus) : Type 0 where
  pub named : P.Collector → String
  pub names : P.Registry → List String
  pub histogram-builds :
      (n : String) (buckets : List ℕ)
      → is_name (codes n) ≡ true
      → increases buckets ≡ true
      → (c : P.Collector) × (P.histogram n buckets ≡ some c) × (named c ≡ n)
  pub counter-builds :
      (n : String)
      → is_name (codes n) ≡ true
      → (c : P.Collector) × (P.counter n ≡ some c) × (named c ≡ n)
  pub vec-builds :
      (n : String) (labels : List String)
      → is_name (codes n) ≡ true
      → are_names labels ≡ true
      → (c : P.Collector) × (P.int_counter_vec n labels ≡ some c) × (named c ≡ n)
  pub register-adds :
      (r : P.Registry) (c : P.Collector)
      → has (named c) (names r) ≡ false
      → (r' : P.Registry) × (P.register r c ≡ some r') × (names r' ≡ named c ∷ names r)

module _ (P : Prometheus) (laws : PrometheusLaws P) where
  build-named : (m : Metric) → (c : P.Collector) × (build P m ≡ some c) × (laws.named c ≡ name_of m)
  unfolding build
  build-named dedup_duration_hist = laws.histogram-builds _ _ refl refl
  build-named send_duration_hist = laws.histogram-builds _ _ refl refl
  build-named send_packet_count_hist = laws.histogram-builds _ _ refl refl
  build-named recv_interval_hist = laws.histogram-builds _ _ refl refl
  build-named recv_packet_count_hist = laws.histogram-builds _ _ refl refl
  build-named packets_received_total = laws.counter-builds _ refl
  build-named packets_deduped_total = laws.counter-builds _ refl
  build-named packets_forwarded_total = laws.counter-builds _ refl
  build-named packets_forward_failed_total = laws.counter-builds _ refl
  build-named packets_by_source = laws.vec-builds _ _ refl refl

  -- The metrics have names of their own, and none of the given ones.
  abbrev apart : List Metric → List String → Bool
  apart [] ns = true
  apart (m ∷ ms) ns = not (has (name_of m) ns) && apart ms (name_of m ∷ ns)

  -- The names after the metrics were registered.
  abbrev named_after : List Metric → List String → List String
  named_after [] ns = ns
  named_after (m ∷ ms) ns = named_after ms (name_of m ∷ ns)

  register_metric-adds :
      (m : Metric) (r : P.Registry)
      → has (name_of m) (laws.names r) ≡ false
      → Ensures (λ r'. laws.names r' ≡ name_of m ∷ laws.names r) (register_metric P m r)
  unfolding register_metric
  register_metric-adds m r h =
      let (c, built, named) = build-named m in
      let (r', added, names) = laws.register-adds r c (ap (λ n. has n (laws.names r)) named ∙ h) in
      rw built (rw added (ensures (names ∙ ap (λ n. n ∷ laws.names r) named)))

  register_each-adds :
      (ms : List Metric) (r : P.Registry)
      → apart ms (laws.names r) ≡ true
      → Ensures
          (λ r'. laws.names r' ≡ named_after ms (laws.names r))
          (for_each (register_metric P) ms r)
  unfolding for_each
  register_each-adds [] r h = ensures refl
  register_each-adds (m ∷ ms) r h =
      Ensures-bind _ (register_metric-adds m r (ground (arith, h))) λ r' e.
        Ensures-mono (register_each-adds ms r' (ap (apart ms) e ∙ ground (arith, h)))
          λ r'' f. f ∙ ap (named_after ms) e

  -- With the crate's laws, `register_metrics` returns in a registry without metrics; the names in
  -- the registry are then distinct, and the name of the metric of every call of the module is one
  -- of them.
  pub register_metrics-Registered :
      (registry : P.Registry)
      → laws.names registry ≡ []
      → Ensures
          (λ r.
            (are_distinct (laws.names r) ≡ true)
            × ((e : PromEvent) → has (name_of (metric_of e)) (laws.names r) ≡ true))
          (register_metrics P registry)
  unfolding register_metrics
  register_metrics-Registered registry empty =
      Ensures-mono (register_each-adds all_metrics registry (ap (apart all_metrics) empty ∙ refl))
        λ r e.
          let all : laws.names r ≡ named_after all_metrics [] =
            e ∙ ap (named_after all_metrics) empty in
          (ap are_distinct all ∙ refl, λ call. ap (has (name_of (metric_of call))) all ∙ fed call)
    where
      fed : (call : PromEvent) → has (name_of (metric_of call)) (named_after all_metrics []) ≡ true
      fed (observe_dedup_time n) = refl
      fed (observe_send_packet_count n) = refl
      fed (observe_send_duration n) = refl
      fed (observe_recv_interval n) = refl
      fed (observe_recv_packet_count n) = refl
      fed (inc_packets_received n) = refl
      fed (inc_packets_deduped n) = refl
      fed (inc_packets_forwarded n) = refl
      fed (inc_packets_forward_failed n) = refl
      fed (inc_packets_by_source addr status n) = refl
