-- ===== src/Forwarder/Threads.antt =====
-- proxy/src/forwarder.rs: the loops of `start_forwarder_threads` (the reconstructor and the forwarder
-- threads), each as a step over what its channels deliver; Accessory is the loop of
-- `start_forwarder_accessory_thread`.
pub mod Once
pub mod Loop
pub mod Spawn
pub mod Accessory
use shredstream_proxy.Common.{
  ℕ, suc, Bool, true, false, Option, none, some, List, [], ◌∷◌, ◌++◌, map, Outcome, returns, ◌>>=◌,
  ltb, if◌then◌else◌, min,
}
use shredstream_proxy.Ledger.{Ledger}
use shredstream_proxy.Metrics.{ShredMetrics, Datapoint, report, reset}
use shredstream_proxy.Prom.{observe_recv_interval}
use shredstream_proxy.Reconstruct.{Codec, Slots}
use shredstream_proxy.Reconstruct.Whole.{Reconstructed, reconstruct_shreds}
use shredstream_proxy.Forwarder.{Wire, Env, Forwarder, SocketAddr}
use shredstream_proxy.Forwarder.Handle.{recv_from_channel_and_send_multiple_dest}

-- `num_threads.unwrap_or_else(|| available_parallelism.min(4))`
unfoldable pub forwarder_threads : Option ℕ → ℕ → ℕ
forwarder_threads none available = min available 4
forwarder_threads (some n) available = n

module _ {L : Ledger} (C : Codec L) where
  -- The reconstructor's variables; `broadcast` is what `entry_sender` was given: slot and bytes.
  pub record Reconstructor : Type 0 where
    pub all_shreds : Slots L
    pub highest_slot_seen : ℕ
    pub metrics : ShredMetrics
    pub broadcast : List (ℕ × List ℕ)
    pub running : Bool

  -- The variables before the loop.
  abbrev pub start : ShredMetrics → Reconstructor
  start metrics = record {
    all_shreds = [];
    highest_slot_seen = 0;
    metrics = metrics;
    broadcast = [];
    running = true;
  }

  -- The three results of `recv_timeout`.
  pub data ReconstructEvent : Type 0 where
    batch_received : List C.Packet → ReconstructEvent
    timeout : ReconstructEvent
    disconnected : ReconstructEvent

  -- `deshredded_entries.drain(..)`: each entry is sent on, and the result of the send is ignored.
  abbrev pub drain : Reconstructor → Reconstructed C → Reconstructor
  drain s r = record s {
    all_shreds = r.all_shreds;
    highest_slot_seen = r.highest_slot_seen;
    metrics = r.metrics;
    broadcast = s.broadcast ++ map (λ d. (d.0, d.2)) r.deshredded_entries;
  }

  unfoldable pub reconstructor_step : Reconstructor → ReconstructEvent → Outcome Reconstructor
  unfolding reconstruct_shreds
  reconstructor_step s (batch_received batch) = do
    r ← reconstruct_shreds C batch s.all_shreds s.highest_slot_seen s.metrics
    returns (drain s r)
  reconstructor_step s timeout = returns s
  reconstructor_step s disconnected = returns (record s { running = false })

  -- `while !exit`: the flag is read before each `recv_timeout`.
  unfoldable pub reconstructor_loop :
      List (Bool × ReconstructEvent) → Reconstructor → Outcome Reconstructor
  unfolding reconstructor_step
  reconstructor_loop [] s = returns s
  reconstructor_loop ((exit, e) ∷ rest) s =
      let stopped = returns (record s { running = false }) in
      let next = reconstructor_step s e >>= reconstructor_loop rest in
      if s.running then (if exit then stopped else next) else returns s

module _ (W : Wire) where
  pub record ForwarderThread : Type 0 where
    pub shared : Forwarder W
    pub local_dest_sockets : List SocketAddr
    pub running : Bool

  -- What the `select!` of a forwarder thread receives: a batch or a closed channel, with the
  -- microseconds since the last one; the refresh tick, with the shared destinations; a shutdown.
  pub data ForwarderEvent : Type 0 where
    packets : Env → ℕ → Option (List W.Packet) → ForwarderEvent
    refresh_subscribers : List SocketAddr → ForwarderEvent
    shutdown : ForwarderEvent

  abbrev pub observe_interval : ℕ → Forwarder W → Forwarder W
  observe_interval usecs f = record f { prom = f.prom ++ observe_recv_interval usecs ∷ [] }

  unfoldable pub forwarder_step :
      (should_reconstruct debug_trace : Bool)
      → ForwarderThread
      → ForwarderEvent
      → Outcome ForwarderThread
  unfolding recv_from_channel_and_send_multiple_dest
  forwarder_step reconstruct trace t (packets env usecs maybe_batch) = do
    r ←
        recv_from_channel_and_send_multiple_dest W env reconstruct trace t.local_dest_sockets
          maybe_batch (observe_interval usecs t.shared)
    returns (record t { shared = r.0; running = r.1 })
  forwarder_step reconstruct trace t (refresh_subscribers loaded) =
      returns (record t { local_dest_sockets = loaded })
  forwarder_step reconstruct trace t shutdown = returns (record t { running = false })
