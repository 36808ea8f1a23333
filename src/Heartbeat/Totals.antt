-- ===== src/Heartbeat/Totals.antt =====
-- The counts of the heartbeat thread (proxy/src/heartbeat.rs).
use shredstream_proxy.Common.{
  ℕ, ◌+◌, ◌%◌, ◌^◌, ◌≡◌, subst, inl, inr, Bool, true, false, List, returns, ◌==◌, Bool-cases, arith,
}
use shredstream_proxy.Heartbeat.{
  HeartbeatEvent, heartbeat_tick, metrics_tick, shutdown, accepted, invalid_argument, other_status,
  HeartbeatLoop, leave, connect_turn, metrics_turn, select_turn,
}
use shredstream_proxy.Heartbeat.Runs.{
  Turn, connecting, selecting, HeartbeatRun, Run-total, total, value,
}

-- What a turn of the thread adds to its counts.
abbrev pub succeeds : Turn HeartbeatEvent → ℕ
succeeds (selecting false (heartbeat_tick (accepted ttl_ms))) = 1
succeeds t = 0

abbrev pub fails : Turn HeartbeatEvent → ℕ
fails (selecting false (heartbeat_tick other_status)) = 1
fails t = 0

abbrev pub restarts : Turn HeartbeatEvent → ℕ
restarts (connecting false false) = 1
restarts t = 0

abbrev pub total_successes : HeartbeatLoop → ℕ
total_successes h = h.successful_heartbeat_count_cumulative + h.successful_heartbeat_count

abbrev pub total_failures : HeartbeatLoop → ℕ
total_failures h = h.failed_heartbeat_count_cumulative + h.failed_heartbeat_count

abbrev pub total_restarts : HeartbeatLoop → ℕ
total_restarts h = h.client_restart_count_cumulative + h.client_restart_count

-- Three counts after a turn.
abbrev Adds : ℕ → ℕ → ℕ → HeartbeatLoop → HeartbeatLoop → Type 0
Adds a b c h t =
    (total_successes t % 2 ^ 64 ≡ (total_successes h + a) % 2 ^ 64)
    × (total_failures t % 2 ^ 64 ≡ (total_failures h + b) % 2 ^ 64)
    × (total_restarts t % 2 ^ 64 ≡ (total_restarts h + c) % 2 ^ 64)

connect_turn-Adds :
    (exit connects : Bool) (h : HeartbeatLoop)
    → Adds 0 0 (restarts (connecting exit connects)) h (connect_turn exit connects h)
unfolding connect_turn leave
connect_turn-Adds true connects h = omega arith
connect_turn-Adds false true h = omega arith
connect_turn-Adds false false h = omega arith

metrics_turn-Adds : (n : ℕ) (h : HeartbeatLoop) → Adds 0 0 0 h (metrics_turn n h)
unfolding metrics_turn leave
metrics_turn-Adds n h = elim (Bool-cases (n == h.last_cumulative_received_shred_count)) [
  | inl stale ↦ rw stale (omega arith)
  | inr live ↦ rw live (omega arith)
]

select_turn-Adds :
    (exit : Bool) (e : HeartbeatEvent) (h t : HeartbeatLoop)
    → select_turn exit e h ≡ returns t
    → Adds (succeeds (selecting exit e)) (fails (selecting exit e)) 0 h t
unfolding select_turn leave
select_turn-Adds true e h t r = subst (Adds 0 0 0 h) (value r) (omega arith)
select_turn-Adds false (heartbeat_tick (accepted ttl)) h t r =
    subst (Adds 1 0 0 h) (value r) (omega arith)
select_turn-Adds false (heartbeat_tick invalid_argument) h t r = cc
select_turn-Adds false (heartbeat_tick other_status) h t r =
    subst (Adds 0 1 0 h) (value r) (omega arith)
select_turn-Adds false (metrics_tick n) h t r =
    subst (Adds 0 0 0 h) (value r) (metrics_turn-Adds n h)
select_turn-Adds false shutdown h t r = subst (Adds 0 0 0 h) (value r) (omega arith)

-- Over any run of the heartbeat thread, each total of the current count and the cumulative one grows
-- by the number of accepted heartbeats, of failed ones, and of failed connects, modulo 2 ^ 64.
pub HeartbeatRun-Adds :
    {h t : HeartbeatLoop} {turns : List (Turn HeartbeatEvent)}
    → HeartbeatRun h turns t
    → (total_successes t % 2 ^ 64 ≡ (total_successes h + total succeeds turns) % 2 ^ 64)
      × (total_failures t % 2 ^ 64 ≡ (total_failures h + total fails turns) % 2 ^ 64)
      × (total_restarts t % 2 ^ 64 ≡ (total_restarts h + total restarts turns) % 2 ^ 64)
HeartbeatRun-Adds r = (
  Run-total (λ h. h.phase) connect_turn select_turn total_successes succeeds
      (λ x c h e. (connect_turn-Adds x c h).0) (λ x e h t q k. (select_turn-Adds x e h t k).0) r,
  Run-total (λ h. h.phase) connect_turn select_turn total_failures fails
      (λ x c h e. (connect_turn-Adds x c h).1) (λ x e h t q k. (select_turn-Adds x e h t k).1) r,
  Run-total (λ h. h.phase) connect_turn select_turn total_restarts restarts
      (λ x c h e. (connect_turn-Adds x c h).2) (λ x e h t q k. (select_turn-Adds x e h t k).2) r,
)
