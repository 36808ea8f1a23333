-- ===== src/Heartbeat.antt =====
-- proxy/src/heartbeat.rs: the two heartbeat threads, as turns of their loops.
pub mod Runs
pub mod Scopes
pub mod Totals
use shredstream_proxy.Common.{
  ℕ, ◌/◌, Bool, true, false, List, [], ◌∷◌, Outcome, returns, panics, ltb, ◌==◌, if◌then◌else◌,
  add_u64,
}

-- The exit flags of the connections, the newest first. `ScopedAtomicBool::default` adds an unset one,
-- `Drop` sets it; the connection's refresh thread reads it.
unfoldable pub open_scope : List Bool → List Bool
open_scope flags = false ∷ flags

unfoldable pub drop_scope : List Bool → List Bool
drop_scope [] = []
drop_scope (flag ∷ flags) = true ∷ flags

-- Where the thread stands: before the outer `while`, before the inner one, or past both.
pub data Phase : Type 0 where
  outer inner finished : Phase

-- What `send_heartbeat` answers: the server's `ttl_ms`, or a status.
pub data HeartbeatResult : Type 0 where
  accepted : (ttl_ms : ℕ) → HeartbeatResult
  invalid_argument other_status : HeartbeatResult

-- What the `select!` receives; the metrics tick with the value of `agg_received_cumulative` then.
pub data HeartbeatEvent : Type 0 where
  heartbeat_tick : HeartbeatResult → HeartbeatEvent
  metrics_tick : (new_received_count : ℕ) → HeartbeatEvent
  shutdown : HeartbeatEvent

-- The variables of `heartbeat_loop_thread`; the interval is in milliseconds.
pub record HeartbeatLoop : Type 0 where
  pub phase : Phase
  pub flags : List Bool
  pub heartbeat_interval : ℕ
  pub last_cumulative_received_shred_count : ℕ
  pub client_restart_count : ℕ
  pub successful_heartbeat_count : ℕ
  pub failed_heartbeat_count : ℕ
  pub client_restart_count_cumulative : ℕ
  pub successful_heartbeat_count_cumulative : ℕ
  pub failed_heartbeat_count_cumulative : ℕ

abbrev pub initial : HeartbeatLoop
initial = record {
  phase = outer;
  flags = [];
  heartbeat_interval = 1000;
  last_cumulative_received_shred_count = 0;
  client_restart_count = 0;
  successful_heartbeat_count = 0;
  failed_heartbeat_count = 0;
  client_restart_count_cumulative = 0;
  successful_heartbeat_count_cumulative = 0;
  failed_heartbeat_count_cumulative = 0;
}

-- The inner loop is left: `per_con_exit` is dropped.
unfoldable pub leave : HeartbeatLoop → HeartbeatLoop
unfolding drop_scope
leave h = record h { phase = outer; flags = drop_scope h.flags }

-- One turn of the outer loop up to the inner one; `connects` is whether `get_grpc_client` gives `Ok`.
unfoldable pub connect_turn : (exit connects : Bool) → HeartbeatLoop → HeartbeatLoop
unfolding open_scope leave
connect_turn true connects h = record h { phase = finished }
connect_turn false true h = record h { phase = inner; flags = open_scope h.flags }
connect_turn false false h = leave (record h {
  flags = open_scope h.flags;
  client_restart_count = add_u64 h.client_restart_count 1;
})

-- The metrics tick: no new shreds ends the connection, else the counts are added up and reset.
unfoldable pub metrics_turn : ℕ → HeartbeatLoop → HeartbeatLoop
unfolding leave
metrics_turn new_received_count h =
    if new_received_count == h.last_cumulative_received_shred_count then leave h else record h {
      last_cumulative_received_shred_count = new_received_count;
      successful_heartbeat_count_cumulative =
          add_u64 h.successful_heartbeat_count_cumulative h.successful_heartbeat_count;
      failed_heartbeat_count_cumulative =
          add_u64 h.failed_heartbeat_count_cumulative h.failed_heartbeat_count;
      client_restart_count_cumulative =
          add_u64 h.client_restart_count_cumulative h.client_restart_count;
      successful_heartbeat_count = 0;
      failed_heartbeat_count = 0;
      client_restart_count = 0;
    }

-- One turn of the inner loop. The interval is set whether it differs or not.
unfoldable pub select_turn : (exit : Bool) → HeartbeatEvent → HeartbeatLoop → Outcome HeartbeatLoop
unfolding leave metrics_turn
select_turn true e h = returns (leave h)
select_turn false (heartbeat_tick (accepted ttl_ms)) h = returns (record h {
  heartbeat_interval = ttl_ms / 3;
  successful_heartbeat_count = add_u64 h.successful_heartbeat_count 1;
})
select_turn false (heartbeat_tick invalid_argument) h = panics
select_turn false (heartbeat_tick other_status) h =
    returns (record h { failed_heartbeat_count = add_u64 h.failed_heartbeat_count 1 })
select_turn false (metrics_tick new_received_count) h = returns (metrics_turn new_received_count h)
select_turn false shutdown h = returns (leave h)

-- The variables of `heartbeat_loop_subscribe_only`, those of the connection included.
pub record SubscribeOnly : Type 0 where
  pub phase : Phase
  pub flags : List Bool
  pub heartbeat_interval : ℕ
  pub successful_heartbeat_count : ℕ
  pub failed_heartbeat_count : ℕ
  pub client_restart_count_cumulative : ℕ
  pub successful_heartbeat_count_cumulative : ℕ
  pub failed_heartbeat_count_cumulative : ℕ

-- The inner loop is left: its counts are added up, then `per_con_exit` is dropped.
unfoldable pub leave_subscribed : SubscribeOnly → SubscribeOnly
unfolding drop_scope
leave_subscribed s = record s {
  phase = outer;
  flags = drop_scope s.flags;
  successful_heartbeat_count_cumulative =
      add_u64 s.successful_heartbeat_count_cumulative s.successful_heartbeat_count;
  failed_heartbeat_count_cumulative =
      add_u64 s.failed_heartbeat_count_cumulative s.failed_heartbeat_count;
  successful_heartbeat_count = 0;
  failed_heartbeat_count = 0;
}

unfoldable pub subscribe_connect_turn : (exit connects : Bool) → SubscribeOnly → SubscribeOnly
unfolding open_scope drop_scope
subscribe_connect_turn true connects s = record s { phase = finished }
subscribe_connect_turn false true s = record s {
  phase = inner;
  flags = open_scope s.flags;
  successful_heartbeat_count = 0;
  failed_heartbeat_count = 0;
}
subscribe_connect_turn false false s = record s {
  flags = drop_scope (open_scope s.flags);
  client_restart_count_cumulative = add_u64 s.client_restart_count_cumulative 1;
}

-- A heartbeat that failed: the sixth failure of a connection ends it.
unfoldable pub fail_turn : SubscribeOnly → SubscribeOnly
unfolding leave_subscribed
fail_turn s =
    let failed = add_u64 s.failed_heartbeat_count 1 in
    if ltb 5 failed
    then leave_subscribed (record s { failed_heartbeat_count = failed })
    else record s { failed_heartbeat_count = failed }

-- There is no metrics tick here: the heartbeat's result, or a shutdown.
pub data SubscribeEvent : Type 0 where
  subscribe_tick : HeartbeatResult → SubscribeEvent
  subscribe_shutdown : SubscribeEvent

unfoldable pub subscribe_turn :
    (exit : Bool) → SubscribeEvent → SubscribeOnly → Outcome SubscribeOnly
unfolding leave_subscribed fail_turn
subscribe_turn true e s = returns (leave_subscribed s)
subscribe_turn false (subscribe_tick (accepted ttl_ms)) s = returns (record s {
  heartbeat_interval = ttl_ms / 3;
  successful_heartbeat_count = add_u64 s.successful_heartbeat_count 1;
})
subscribe_turn false (subscribe_tick invalid_argument) s = panics
subscribe_turn false (subscribe_tick other_status) s = returns (fail_turn s)
subscribe_turn false subscribe_shutdown s = returns (leave_subscribed s)
