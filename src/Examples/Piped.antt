-- ===== src/Examples/Piped.antt =====
-- The theorem on the channel between the forwarder threads and the reconstructor at a concrete run.
use shredstream_proxy.Common.{ℕ, Bool, true, List, [], ◌∷◌}
use shredstream_proxy.Examples.Toy.{no_metrics, toy_batch, toy_codec, toy_wire, toy_env}
use shredstream_proxy.Server.{RecvResult, received}
use shredstream_proxy.Forwarder.{Forwarder}
use shredstream_proxy.Forwarder.Pipeline.{PipelineEvent, batch_arrives, reconstructor_turn, resets}

abbrev idle_forwarder : Forwarder toy_wire
idle_forwarder = record {
  deduper = 0;
  metrics = no_metrics;
  prom = [];
  reconstruct_queue = [];
  outbox = [];
  traces = [];
}

-- Two batches arrive, the reconstructor takes one, the counters are reset, and it takes the other.
abbrev toy_events : List (PipelineEvent toy_codec toy_wire (λ p. p))
toy_events =
    batch_arrives toy_env 5 ((1, 20001) ∷ []) toy_batch
    ∷ batch_arrives toy_env 5 [] toy_batch
    ∷ reconstructor_turn
    ∷ resets 0 no_metrics no_metrics
    ∷ reconstructor_turn
    ∷ []

-- A client that was there from the start.
abbrev toy_received : List (RecvResult (ℕ × List ℕ) × Bool)
toy_received = (received (5, 9 ∷ 9 ∷ []), true) ∷ []
