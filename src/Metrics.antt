-- ===== src/Metrics.antt =====
-- proxy/src/forwarder.rs: `ShredMetrics`, its counters, `report` and `reset`.
pub mod Conservation
pub mod Reports
use shredstream_proxy.Common.{
  ℕ, ◌+◌, ◌%◌, ◌^◌, Bool, true, false, List, [], ◌∷◌, ◌++◌, add_u64, if◌then◌else◌,
}

-- The atomic counters are values of `u64`; `packets_received` is by source address: discarded, not
-- discarded.
pub record ShredMetrics : Type 0 where
  pub received : ℕ
  pub success_forward : ℕ
  pub fail_forward : ℕ
  pub duplicate : ℕ
  pub packets_received : List (ℕ × (ℕ × ℕ))
  pub send_batch_size_sum : ℕ
  pub send_batch_count : ℕ
  pub saturated_iov_count : ℕ
  pub unsaturated_iov_count : ℕ
  pub enabled_grpc_service : Bool
  pub recovered_count : ℕ
  pub entry_count : ℕ
  pub txn_count : ℕ
  pub unknown_start_position_count : ℕ
  pub fec_recovery_error_count : ℕ
  pub bincode_deserialize_error_count : ℕ
  pub unknown_start_position_error_count : ℕ
  pub dedup_time_spent : ℕ
  pub batch_send_time_spent : ℕ
  pub agg_received_cumulative : ℕ
  pub agg_success_forward_cumulative : ℕ
  pub agg_fail_forward_cumulative : ℕ
  pub duplicate_cumulative : ℕ

-- `ShredMetrics::new`
unfoldable pub new : Bool → ShredMetrics
new enabled = record {
  received = 0;
  success_forward = 0;
  fail_forward = 0;
  duplicate = 0;
  packets_received = [];
  send_batch_size_sum = 0;
  send_batch_count = 0;
  saturated_iov_count = 0;
  unsaturated_iov_count = 0;
  enabled_grpc_service = enabled;
  recovered_count = 0;
  entry_count = 0;
  txn_count = 0;
  unknown_start_position_count = 0;
  fec_recovery_error_count = 0;
  bincode_deserialize_error_count = 0;
  unknown_start_position_error_count = 0;
  dedup_time_spent = 0;
  batch_send_time_spent = 0;
  agg_received_cumulative = 0;
  agg_success_forward_cumulative = 0;
  agg_fail_forward_cumulative = 0;
  duplicate_cumulative = 0;
}

-- The datapoints that `report` sends, with the values of the counters in the order of the source.
pub data Datapoint : Type 0 where
  connection_metrics : (received success_forward fail_forward duplicate : ℕ) → Datapoint
  iov_metrics : (saturated unsaturated : ℕ) → Datapoint
  batch_send_metrics : (size_sum count : ℕ) → Datapoint
  time_allocation : (deduping batch_send : ℕ) → Datapoint
  service_metrics :
      (recovered entries txns unknown_start fec_errors bincode_errors unknown_start_errors : ℕ)
      → Datapoint
  receiver_stats : (addr discarded not_discarded : ℕ) → Datapoint

receiver_points : List (ℕ × (ℕ × ℕ)) → List Datapoint
receiver_points [] = []
receiver_points ((addr, counts) ∷ rest) =
    receiver_stats addr counts.0 counts.1 ∷ receiver_points rest

-- The service counters, sent and swapped with 0 if the gRPC service runs.
service_points : ShredMetrics → ShredMetrics × List Datapoint
service_points m =
    if m.enabled_grpc_service
    then (
      record m {
        recovered_count = 0;
        entry_count = 0;
        txn_count = 0;
        unknown_start_position_count = 0;
        fec_recovery_error_count = 0;
        bincode_deserialize_error_count = 0;
        unknown_start_position_error_count = 0;
      },
      service_metrics m.recovered_count m.entry_count m.txn_count m.unknown_start_position_count
            m.fec_recovery_error_count m.bincode_deserialize_error_count
            m.unknown_start_position_error_count
          ∷ [],
    )
    else (m, [])

-- `report`: the datapoints sent, and the state after it.
unfoldable pub report : ShredMetrics → ShredMetrics × List Datapoint
unfolding service_points receiver_points
report m =
    let (m', service) = service_points m in
    (
      record m' { packets_received = [] },
      connection_metrics m.received m.success_forward m.fail_forward m.duplicate
          ∷ iov_metrics m.saturated_iov_count m.unsaturated_iov_count
          ∷ batch_send_metrics m.send_batch_size_sum m.send_batch_count
          ∷ time_allocation m.dedup_time_spent m.batch_send_time_spent
          ∷ (service ++ receiver_points m'.packets_received),
    )

-- `reset`
unfoldable pub reset : ShredMetrics → ShredMetrics
reset m = record m {
  agg_received_cumulative = add_u64 m.agg_received_cumulative m.received;
  received = 0;
  agg_success_forward_cumulative = add_u64 m.agg_success_forward_cumulative m.success_forward;
  success_forward = 0;
  agg_fail_forward_cumulative = add_u64 m.agg_fail_forward_cumulative m.fail_forward;
  fail_forward = 0;
  duplicate_cumulative = add_u64 m.duplicate_cumulative m.duplicate;
  duplicate = 0;
  dedup_time_spent = 0;
  batch_send_time_spent = 0;
  send_batch_size_sum = 0;
  send_batch_count = 0;
  saturated_iov_count = 0;
  unsaturated_iov_count = 0;
}
