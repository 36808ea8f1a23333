-- ===== src/Examples/Heartbeats.antt =====
-- The theorems on the heartbeat threads at a concrete run.
use shredstream_proxy.Common.{ℕ, ◌≡◌, ◌%◌, ◌^◌, ◌+◌, refl, true, false, List, [], ◌∷◌, arith}
use shredstream_proxy.Heartbeat.{
  finished, inner, HeartbeatLoop, HeartbeatEvent, heartbeat_tick, metrics_tick, accepted,
  other_status, initial, connect_turn, select_turn, SubscribeOnly, subscribe_tick, subscribe_turn,
}
use shredstream_proxy.Heartbeat.Runs.{
  Turn, connecting, selecting, stop, connect_then, select_then, HeartbeatRun, SubscribeRun, total,
}
use shredstream_proxy.Heartbeat.Scopes.{
  LoopScoped, HeartbeatRun-LoopScoped, IsPatient, SubscribeRun-IsPatient,
}
use shredstream_proxy.Heartbeat.Totals.{
  succeeds, fails, restarts, total_successes, total_failures, total_restarts, HeartbeatRun-Adds,
}

-- Connected, one heartbeat accepted, one failed, no new shreds, and told to exit.
abbrev toy_turns : List (Turn HeartbeatEvent)
toy_turns =
    connecting false true
    ∷ selecting false (heartbeat_tick (accepted 9000))
    ∷ selecting false (heartbeat_tick other_status)
    ∷ selecting false (metrics_tick 0)
    ∷ connecting true true
    ∷ []

abbrev toy_loop_end : HeartbeatLoop
toy_loop_end = record initial {
  phase = finished;
  flags = true ∷ [];
  heartbeat_interval = 3000;
  successful_heartbeat_count = 1;
  failed_heartbeat_count = 1;
}

toy_run : HeartbeatRun initial toy_turns toy_loop_end
unfolding connect_turn select_turn
toy_run = connect_then false true refl (
    select_then false (heartbeat_tick (accepted 9000)) refl refl (
      select_then false (heartbeat_tick other_status) refl refl
        (select_then false (metrics_tick 0) refl refl (connect_then true true refl stop))))

HeartbeatRun-LoopScoped_example : LoopScoped toy_loop_end
HeartbeatRun-LoopScoped_example = HeartbeatRun-LoopScoped toy_run tt

HeartbeatRun-Adds_example :
    (total_successes toy_loop_end % 2 ^ 64
      ≡ (total_successes initial + total succeeds toy_turns) % 2 ^ 64)
    × (total_failures toy_loop_end % 2 ^ 64
        ≡ (total_failures initial + total fails toy_turns) % 2 ^ 64)
    × (total_restarts toy_loop_end % 2 ^ 64
        ≡ (total_restarts initial + total restarts toy_turns) % 2 ^ 64)
HeartbeatRun-Adds_example = HeartbeatRun-Adds toy_run

abbrev toy_subscriber : ℕ → SubscribeOnly
toy_subscriber failed = record {
  phase = inner;
  flags = false ∷ [];
  heartbeat_interval = 1000;
  successful_heartbeat_count = 0;
  failed_heartbeat_count = failed;
  client_restart_count_cumulative = 0;
  successful_heartbeat_count_cumulative = 0;
  failed_heartbeat_count_cumulative = 0;
}

-- A fifth failure.
toy_failure :
    SubscribeRun
      (toy_subscriber 4)
      (selecting false (subscribe_tick other_status) ∷ [])
      (toy_subscriber 5)
unfolding subscribe_turn
toy_failure = select_then false (subscribe_tick other_status) refl refl stop

SubscribeRun-IsPatient_example : IsPatient (toy_subscriber 5)
SubscribeRun-IsPatient_example = SubscribeRun-IsPatient toy_failure ((refl, tt), omega arith)
