-- ===== src/Prom/Registry.antt =====
-- proxy/src/prom.rs: the static metrics and `register_metrics`. Building and registering a metric
-- is the prometheus crate's. A bucket's bound is given in tenths.
pub mod Registered
use Prim.Native.Char.{code}
use Prim.Native.String.{String}
use text.Mathlib.Text.{◌==◌}
use text.Mathlib.TextPositions.{eq_refl}
use shredstream_proxy.Common.{
  ℕ, ◌≡◌, refl, sym, ◌∙◌, ap, subst, Bool, true, false, not, ◌&&◌, ◌||◌, Option, none, some, List,
  [], ◌∷◌, Outcome, returns, ◌>>=◌, unwrap, for_each, Ensures, ensures, Ensures-bind, Ensures-mono,
  All, ltb, leb, arith,
}
use shredstream_proxy.Prom.{
  PromEvent, observe_dedup_time, observe_send_packet_count, observe_send_duration,
  observe_recv_interval, observe_recv_packet_count, inc_packets_received, inc_packets_deduped,
  inc_packets_forwarded, inc_packets_forward_failed, inc_packets_by_source,
}

-- The prometheus crate; `none` is an `Err`.
pub record Prometheus : Type 1 where
  pub Registry : Type 0
  pub Collector : Type 0
  -- `Histogram::with_opts(HistogramOpts::new(name, ..).buckets(..))`
  pub histogram : String → List ℕ → Option Collector
  -- `Counter::new(name, ..)`
  pub counter : String → Option Collector
  -- `IntCounterVec::new(Opts::new(name, ..), labels)`
  pub int_counter_vec : String → List String → Option Collector
  -- `Registry::register`
  pub register : Registry → Collector → Option Registry

-- The `static ref`s.
pub data Metric : Type 0 where
  dedup_duration_hist send_duration_hist send_packet_count_hist recv_interval_hist
        recv_packet_count_hist packets_received_total packets_deduped_total packets_forwarded_total
        packets_forward_failed_total packets_by_source :
      Metric

abbrev pub name_of : Metric → String
name_of dedup_duration_hist = "shredstream_dedup_duration_usec"
name_of send_duration_hist = "shredstream_send_duration_usec"
name_of send_packet_count_hist = "shredstream_send_packet_count"
name_of recv_interval_hist = "shredstream_recv_interval_usec"
name_of recv_packet_count_hist = "shredstream_recv_packet_count"
name_of packets_received_total = "shredstream_packets_received_total"
name_of packets_deduped_total = "shredstream_packets_deduped_total"
name_of packets_forwarded_total = "shredstream_packets_forwarded_total"
name_of packets_forward_failed_total = "shredstream_packets_forward_failed_total"
name_of packets_by_source = "shredstream_packets_by_source"

-- The metric that a call feeds.
abbrev pub metric_of : PromEvent → Metric
metric_of (observe_dedup_time n) = dedup_duration_hist
metric_of (observe_send_packet_count n) = send_packet_count_hist
metric_of (observe_send_duration n) = send_duration_hist
metric_of (observe_recv_interval n) = recv_interval_hist
metric_of (observe_recv_packet_count n) = recv_packet_count_hist
metric_of (inc_packets_received n) = packets_received_total
metric_of (inc_packets_deduped n) = packets_deduped_total
metric_of (inc_packets_forwarded n) = packets_forwarded_total
metric_of (inc_packets_forward_failed n) = packets_forward_failed_total
metric_of (inc_packets_by_source addr status n) = packets_by_source

-- The order of `register_metrics`.
abbrev pub all_metrics : List Metric
all_metrics =
    dedup_duration_hist ∷ send_duration_hist ∷ send_packet_count_hist ∷ recv_interval_hist
    ∷ recv_packet_count_hist ∷ packets_received_total ∷ packets_deduped_total
    ∷ packets_forwarded_total ∷ packets_forward_failed_total ∷ packets_by_source ∷ []

module _ (P : Prometheus) where
  pub build : Metric → Option P.Collector
  build dedup_duration_hist =
      P.histogram "shredstream_dedup_duration_usec" (5 ∷ 10 ∷ 20 ∷ 30 ∷ 50 ∷ 80 ∷ 130 ∷ 210 ∷ [])
  build send_duration_hist =
      P.histogram "shredstream_send_duration_usec"
        (5 ∷ 10 ∷ 20 ∷ 30 ∷ 50 ∷ 80 ∷ 130 ∷ 210 ∷ 340 ∷ 550 ∷ [])
  build send_packet_count_hist =
      P.histogram "shredstream_send_packet_count" (10 ∷ 20 ∷ 30 ∷ 50 ∷ 100 ∷ 200 ∷ 500 ∷ 1000 ∷ [])
  build recv_interval_hist =
      P.histogram "shredstream_recv_interval_usec"
        (10 ∷ 50 ∷ 100 ∷ 250 ∷ 500 ∷ 1000 ∷ 2000 ∷ 5000 ∷ 10000 ∷ 20000 ∷ [])
  build recv_packet_count_hist =
      P.histogram "shredstream_recv_packet_count"
        (10 ∷ 20 ∷ 30 ∷ 50 ∷ 100 ∷ 200 ∷ 300 ∷ 400 ∷ 500 ∷ 640 ∷ 1000 ∷ [])
  build packets_received_total = P.counter "shredstream_packets_received_total"
  build packets_deduped_total = P.counter "shredstream_packets_deduped_total"
  build packets_forwarded_total = P.counter "shredstream_packets_forwarded_total"
  build packets_forward_failed_total = P.counter "shredstream_packets_forward_failed_total"
  build packets_by_source =
      P.int_counter_vec "shredstream_packets_by_source" ("addr" ∷ "status" ∷ [])

  -- The first use of a `static ref` builds it, with an `unwrap`; then it is registered.
  unfoldable pub register_metric : Metric → P.Registry → Outcome P.Registry
  unfolding build
  register_metric m registry = unwrap (build m) >>= λ c. unwrap (P.register registry c)

  unfoldable pub register_metrics : P.Registry → Outcome P.Registry
  unfolding register_metric for_each
  register_metrics registry = for_each register_metric all_metrics registry
