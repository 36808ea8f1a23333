-- ===== src/Forwarder/Threads/Accessory.antt =====
-- proxy/src/forwarder.rs: `start_forwarder_accessory_thread`, its loop with what the other threads do
-- to the shared deduper and counters.
pub mod Reported
use shredstream_proxy.Common.{ℕ, Bool, true, false, List, [], ◌∷◌, ◌++◌, add_u64, if◌then◌else◌}
use shredstream_proxy.Metrics.{ShredMetrics, Datapoint, report, reset}

-- The accessory thread: the deduper, the metrics, and the datapoints sent.
pub record Accessory (Deduper : Type 0) : Type 0 where
  pub deduper : Deduper
  pub metrics : ShredMetrics
  pub datapoints : List Datapoint
  pub running : Bool

-- What other threads add to the counters of the connection.
pub record Counted : Type 0 where
  pub received : ℕ
  pub success_forward : ℕ
  pub fail_forward : ℕ
  pub duplicate : ℕ

unfoldable pub add_counted : Counted → ShredMetrics → ShredMetrics
add_counted c m = record m {
  received = add_u64 m.received c.received;
  success_forward = add_u64 m.success_forward c.success_forward;
  fail_forward = add_u64 m.fail_forward c.fail_forward;
  duplicate = add_u64 m.duplicate c.duplicate;
}

-- What `select!` receives; between `report` and `reset` the other threads go on counting.
pub data AccessoryEvent : Type 0 where
  deduper_reset_tick shutdown_signal : AccessoryEvent
  metrics_tick : (between : Counted) → AccessoryEvent

-- A turn: the exit flag as read, the deduper that the other threads have left and what they have
-- counted since the last turn, and what `select!` then receives.
pub record Turn (Deduper : Type 0) : Type 0 where
  pub exit : Bool
  pub deduper : Deduper
  pub counted : Counted
  pub event : AccessoryEvent

module _ {Deduper : Type 0} where
  abbrev pub interfere : Turn Deduper → Accessory Deduper → Accessory Deduper
  interfere t a = record a { deduper = t.deduper; metrics = add_counted t.counted a.metrics }

  -- `maybe_reset` is the deduper's own.
  module _ (maybe_reset : Deduper → Deduper) where
    unfoldable pub accessory_step : Accessory Deduper → AccessoryEvent → Accessory Deduper
    unfolding report reset add_counted
    accessory_step a deduper_reset_tick = record a { deduper = maybe_reset a.deduper }
    accessory_step a shutdown_signal = record a { running = false }
    accessory_step a (metrics_tick between) =
        let (m, points) = report a.metrics in
        record a { metrics = reset (add_counted between m); datapoints = a.datapoints ++ points }

    -- `while !exit`: the flag is read before each `select!`.
    unfoldable pub accessory_loop : List (Turn Deduper) → Accessory Deduper → Accessory Deduper
    unfolding accessory_step
    accessory_loop [] a = a
    accessory_loop (t ∷ rest) a =
        let stopped = record a { running = false } in
        let next = accessory_loop rest (accessory_step (interfere t a) t.event) in
        if a.running then (if t.exit then stopped else next) else a
