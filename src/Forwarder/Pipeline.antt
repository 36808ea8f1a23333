-- ===== src/Forwarder/Pipeline.antt =====
-- proxy/src/forwarder.rs: the forwarder threads and the reconstructor thread on their bounded channel
-- (`start_forwarder_threads`), with their turns before the exit in any order.
pub mod Fed
use shredstream_proxy.Common.{
  ℕ, Bool, true, none, some, List, [], ◌∷◌, map, Outcome, returns, ◌>>=◌,
}
use shredstream_proxy.Ledger.{Ledger}
use shredstream_proxy.Metrics.{ShredMetrics}
use shredstream_proxy.Reconstruct.{Codec}
use shredstream_proxy.Forwarder.{Wire, Env, Forwarder, SocketAddr}
use shredstream_proxy.Forwarder.Handle.{recv_from_channel_and_send_multiple_dest}
use shredstream_proxy.Forwarder.Threads.{
  Reconstructor, batch_received, timeout, reconstructor_step, observe_interval,
}

-- `view` is what the reconstructor's crates see of a packet of the batches.
module _ {L : Ledger} (C : Codec L) (W : Wire) (view : W.Packet → C.Packet) where
  pub record Pipeline : Type 0 where
    pub shared : Forwarder W
    pub reconstructor : Reconstructor C

  -- A batch arrives at a forwarder thread with the destinations that it has loaded; the reconstructor
  -- calls `recv_timeout`; or the deduper and the counters are reset.
  pub data PipelineEvent : Type 0 where
    batch_arrives : Env → (interval_usecs : ℕ) → List SocketAddr → List W.Packet → PipelineEvent
    reconstructor_turn : PipelineEvent
    resets : W.Deduper → ShredMetrics → ShredMetrics → PipelineEvent

  -- What the reconstructor does with the oldest batch of the channel, if there is one.
  unfoldable pub take_batch : Pipeline → List (List W.Packet) → Outcome Pipeline
  unfolding reconstructor_step
  take_batch s [] = do
    r ← reconstructor_step C s.reconstructor timeout
    returns (record s { reconstructor = r })
  take_batch s (batch ∷ rest) = do
    r ← reconstructor_step C s.reconstructor (batch_received (map view batch))
    returns (record s { shared = record s.shared { reconstruct_queue = rest }; reconstructor = r })

  -- One turn of one thread.
  unfoldable pub pipeline_step : (debug_trace : Bool) → Pipeline → PipelineEvent → Outcome Pipeline
  unfolding take_batch recv_from_channel_and_send_multiple_dest
  pipeline_step trace s (batch_arrives env usecs dests batch) = do
    r ←
        recv_from_channel_and_send_multiple_dest W env true trace dests (some batch)
          (observe_interval W usecs s.shared)
    returns (record s { shared = r.0 })
  pipeline_step trace s reconstructor_turn = take_batch s s.shared.reconstruct_queue
  pipeline_step trace s (resets deduper forwarder_metrics reconstructor_metrics) = returns (record {
    shared = record s.shared { deduper = deduper; metrics = forwarder_metrics };
    reconstructor = record s.reconstructor { metrics = reconstructor_metrics };
  })

  unfoldable pub pipeline_run :
      (debug_trace : Bool) → List PipelineEvent → Pipeline → Outcome Pipeline
  unfolding pipeline_step
  pipeline_run trace [] s = returns s
  pipeline_run trace (e ∷ rest) s = pipeline_step trace s e >>= pipeline_run trace rest
