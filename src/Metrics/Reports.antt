-- ===== src/Metrics/Reports.antt =====
-- What `report` sends of each counter of the connection, and what `reset` makes of it
-- (`ShredMetrics`, proxy/src/forwarder.rs).
use shredstream_proxy.Common.{
  ℕ, ◌+◌, ◌%◌, ◌^◌, ◌≡◌, refl, ◌∙◌, Bool, true, false, List, [], ◌∷◌, ◌++◌, arith,
}
use shredstream_proxy.Metrics.{
  ShredMetrics, Datapoint, connection_metrics, iov_metrics, batch_send_metrics, time_allocation,
  service_metrics, receiver_stats, receiver_points, service_points, report, reset,
}

-- The counters that `reset` adds to a cumulative one.
pub data Counter : Type 0 where
  received_count success_count fail_count duplicate_count : Counter

abbrev pub current : Counter → ShredMetrics → ℕ
current received_count m = m.received
current success_count m = m.success_forward
current fail_count m = m.fail_forward
current duplicate_count m = m.duplicate

abbrev pub cumulative : Counter → ShredMetrics → ℕ
cumulative received_count m = m.agg_received_cumulative
cumulative success_count m = m.agg_success_forward_cumulative
cumulative fail_count m = m.agg_fail_forward_cumulative
cumulative duplicate_count m = m.duplicate_cumulative

-- What a datapoint says of a counter.
abbrev pub reported_in : Counter → Datapoint → ℕ
reported_in received_count (connection_metrics r s f d) = r
reported_in success_count (connection_metrics r s f d) = s
reported_in fail_count (connection_metrics r s f d) = f
reported_in duplicate_count (connection_metrics r s f d) = d
reported_in c (iov_metrics s u) = 0
reported_in c (batch_send_metrics s n) = 0
reported_in c (time_allocation s u) = 0
reported_in c (service_metrics r e t u f b p) = 0
reported_in c (receiver_stats a d n) = 0

abbrev pub reported : Counter → List Datapoint → ℕ
reported c [] = 0
reported c (p ∷ ps) = reported_in c p + reported c ps

pub reported-append :
    (c : Counter) (xs ys : List Datapoint) → reported c (xs ++ ys) ≡ reported c xs + reported c ys
reported-append c [] ys = omega arith
reported-append c (x ∷ xs) ys = omega (arith, reported-append c xs ys)

reported-receiver_points :
    (c : Counter) (ps : List (ℕ × (ℕ × ℕ))) → reported c (receiver_points ps) ≡ 0
unfolding receiver_points
reported-receiver_points c [] = refl
reported-receiver_points c (p ∷ ps) = omega (arith, reported-receiver_points c ps)

-- The service counters are not those of the connection.
service_points_lem :
    (c : Counter) (m : ShredMetrics) (b : Bool)
    → m.enabled_grpc_service ≡ b
    → (current c (service_points m).0 ≡ current c m)
      × (cumulative c (service_points m).0 ≡ cumulative c m)
      × (reported c (service_points m).1 ≡ 0)
unfolding service_points
service_points_lem received_count m true e = rw e (refl, refl, refl)
service_points_lem success_count m true e = rw e (refl, refl, refl)
service_points_lem fail_count m true e = rw e (refl, refl, refl)
service_points_lem duplicate_count m true e = rw e (refl, refl, refl)
service_points_lem c m false e = rw e (refl, refl, refl)

-- `report` sends the current value and keeps it.
pub record Reports (c : Counter) (m : ShredMetrics) : Type 0 where
  pub same_current : current c (report m).0 ≡ current c m
  pub same_cumulative : cumulative c (report m).0 ≡ cumulative c m
  pub sent : reported c (report m).1 ≡ current c m

-- The rest of `report` changes no counter of the connection and sends nothing else of it.
rest-Reports :
    (c : Counter) (m : ShredMetrics)
    → current c (report m).0 ≡ current c (service_points m).0
    → cumulative c (report m).0 ≡ cumulative c (service_points m).0
    → let (m', service) = service_points m in
      reported c (report m).1
        ≡ current c m + reported c (service ++ receiver_points m'.packets_received)
      → Reports c m
rest-Reports c m same cumulative_same sent =
    let (kept, cumulative_kept, none_sent) = service_points_lem c m m.enabled_grpc_service refl in
    record {
      same_current = same ∙ kept;
      same_cumulative = cumulative_same ∙ cumulative_kept;
      sent = omega (
        arith,
        sent,
        none_sent,
        reported-append c (service_points m).1
            (receiver_points (service_points m).0.packets_received),
        reported-receiver_points c (service_points m).0.packets_received,
      );
    }

pub report-Reports : (c : Counter) (m : ShredMetrics) → Reports c m
unfolding report
report-Reports received_count m = rest-Reports received_count m refl refl (omega arith)
report-Reports success_count m = rest-Reports success_count m refl refl (omega arith)
report-Reports fail_count m = rest-Reports fail_count m refl refl (omega arith)
report-Reports duplicate_count m = rest-Reports duplicate_count m refl refl (omega arith)

-- `reset` moves the current value to the cumulative one.
pub reset_lem :
    (c : Counter) (m : ShredMetrics)
    → (current c (reset m) ≡ 0) × (cumulative c (reset m) ≡ (cumulative c m + current c m) % 2 ^ 64)
unfolding reset
reset_lem received_count m = (refl, refl)
reset_lem success_count m = (refl, refl)
reset_lem fail_count m = (refl, refl)
reset_lem duplicate_count m = (refl, refl)
