-- ===== src/Metrics/Conservation.antt =====
-- `ShredMetrics` (proxy/src/forwarder.rs) over any run of the accessory thread: counting, `report`
-- and `reset` keep each cumulative total.
use shredstream_proxy.Common.{
  ℕ, ◌+◌, ◌%◌, ◌^◌, ◌≡◌, refl, Bool, true, false, List, [], ◌∷◌, add_u64, arith,
}
use shredstream_proxy.Metrics.{ShredMetrics, report, reset}

-- What happens to the connection counters: some are added to, or the metrics tick fires.
pub data MetricsStep : Type 0 where
  add_counts : (received success_forward fail_forward duplicate : ℕ) → MetricsStep
  report_and_reset : MetricsStep

unfoldable pub metrics_step : ShredMetrics → MetricsStep → ShredMetrics
unfolding report reset
metrics_step m (add_counts r s f d) = record m {
  received = add_u64 m.received r;
  success_forward = add_u64 m.success_forward s;
  fail_forward = add_u64 m.fail_forward f;
  duplicate = add_u64 m.duplicate d;
}
metrics_step m report_and_reset = reset (report m).0

unfoldable pub metrics_run : ShredMetrics → List MetricsStep → ShredMetrics
unfolding metrics_step
metrics_run m [] = m
metrics_run m (s ∷ rest) = metrics_run (metrics_step m s) rest

-- All that was added over a run.
abbrev pub added : (MetricsStep → ℕ) → List MetricsStep → ℕ
added f [] = 0
added f (s ∷ rest) = f s + added f rest

abbrev pub received_of : MetricsStep → ℕ
received_of (add_counts r s f d) = r
received_of report_and_reset = 0

abbrev pub success_of : MetricsStep → ℕ
success_of (add_counts r s f d) = s
success_of report_and_reset = 0

abbrev pub fail_of : MetricsStep → ℕ
fail_of (add_counts r s f d) = f
fail_of report_and_reset = 0

abbrev pub duplicate_of : MetricsStep → ℕ
duplicate_of (add_counts r s f d) = d
duplicate_of report_and_reset = 0

abbrev pub total_received : ShredMetrics → ℕ
total_received m = m.agg_received_cumulative + m.received

abbrev pub total_success : ShredMetrics → ℕ
total_success m = m.agg_success_forward_cumulative + m.success_forward

abbrev pub total_fail : ShredMetrics → ℕ
total_fail m = m.agg_fail_forward_cumulative + m.fail_forward

abbrev pub total_duplicate : ShredMetrics → ℕ
total_duplicate m = m.duplicate_cumulative + m.duplicate

-- The totals of `m'` are those of `m` and what was added.
abbrev Adds : ShredMetrics → List MetricsStep → ShredMetrics → Type 0
Adds m steps m' =
    (total_received m' % 2 ^ 64 ≡ (total_received m + added received_of steps) % 2 ^ 64)
    × (total_success m' % 2 ^ 64 ≡ (total_success m + added success_of steps) % 2 ^ 64)
    × (total_fail m' % 2 ^ 64 ≡ (total_fail m + added fail_of steps) % 2 ^ 64)
    × (total_duplicate m' % 2 ^ 64 ≡ (total_duplicate m + added duplicate_of steps) % 2 ^ 64)

metrics_step-Adds : (m : ShredMetrics) (s : MetricsStep) → Adds m (s ∷ []) (metrics_step m s)
unfolding metrics_step
metrics_step-Adds m (add_counts r s f d) = omega arith
metrics_step-Adds m report_and_reset = by_service m.enabled_grpc_service refl
  where
    by_service :
        (b : Bool)
        → m.enabled_grpc_service ≡ b
        → Adds m (report_and_reset ∷ []) (reset (report m).0)
    by_service true e = rw (e, report) (omega arith)
    by_service false e = rw (e, report) (omega arith)

-- Over any run, the cumulative counters and the current ones together grow by exactly what was added.
pub metrics_run-Adds :
    (m : ShredMetrics) (steps : List MetricsStep)
    → let m' = metrics_run m steps in
      (total_received m' % 2 ^ 64 ≡ (total_received m + added received_of steps) % 2 ^ 64)
      × (total_success m' % 2 ^ 64 ≡ (total_success m + added success_of steps) % 2 ^ 64)
      × (total_fail m' % 2 ^ 64 ≡ (total_fail m + added fail_of steps) % 2 ^ 64)
      × (total_duplicate m' % 2 ^ 64 ≡ (total_duplicate m + added duplicate_of steps) % 2 ^ 64)
unfolding metrics_run
metrics_run-Adds m [] = omega arith
metrics_run-Adds m (s ∷ rest) =
    omega (arith, metrics_step-Adds m s, metrics_run-Adds (metrics_step m s) rest)
