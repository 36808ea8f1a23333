-- ===== src/Forwarder/Pipeline/Fed.antt =====
-- What the reconstructor thread is given of the batches that the forwarder threads receive
-- (proxy/src/forwarder.rs).
use shredstream_proxy.Common.{◌≤◌, ◌≡◌, List, [], ◌∷◌, ◌++◌, map, returns, length, All, Subsequence}
use shredstream_proxy.Ledger.{Ledger, Shred}
use shredstream_proxy.Reconstruct.Held.{Brings}
use shredstream_proxy.Metrics.{ShredMetrics}
use shredstream_proxy.Reconstruct.{Codec}
use shredstream_proxy.Forwarder.{Wire, Forwarder}
use shredstream_proxy.Forwarder.Handle.{reconstruct_capacity}
use shredstream_proxy.Forwarder.Threads.{Reconstructor, batch_received, start, reconstructor_step}
use shredstream_proxy.Forwarder.Threads.Once.{Broadcasts}
use shredstream_proxy.Forwarder.Pipeline.{
  Pipeline, PipelineEvent, batch_arrives, reconstructor_turn, resets,
}

module _ {L : Ledger} (C : Codec L) (Q : Shred L → Type 0) (W : Wire)
    (view : W.Packet → C.Packet) where
  -- A reconstructor that was given these batches, in this order, from its start, and had its counters
  -- reset at any time.
  pub data Fed : List (List W.Packet) → Reconstructor C → Type 0 where
    fed_nothing : {m : ShredMetrics} → Fed [] (start C m)
    fed_batch :
        {batches : List (List W.Packet)} {r r' : Reconstructor C} (batch : List W.Packet)
        → Fed batches r
        → reconstructor_step C r (batch_received (map view batch)) ≡ returns r'
        → Fed (batches ++ batch ∷ []) r'
    fed_reset :
        {batches : List (List W.Packet)} {r : Reconstructor C} (m : ShredMetrics)
        → Fed batches r
        → Fed batches (record r { metrics = m })

  -- The batches that arrive.
  abbrev pub arrivals : List (PipelineEvent C W view) → List (List W.Packet)
  arrivals [] = []
  arrivals (batch_arrives env usecs dests batch ∷ rest) = batch ∷ arrivals rest
  arrivals (reconstructor_turn ∷ rest) = arrivals rest
  arrivals (resets d m m' ∷ rest) = arrivals rest

  -- Each shred of the batches has the property.
  abbrev pub AllBring : List (List W.Packet) → Type 0
  AllBring batches = All (λ b. Brings Q C (map view b)) batches

  -- Of the batches that have arrived, some were given to the reconstructor and the next ones wait.
  pub record Feeds (arrived : List (List W.Packet)) (s : Pipeline C W view) : Type 0 where
    pub given : List (List W.Packet)
    pub fed : Fed given s.reconstructor
    pub in_order : Subsequence (given ++ s.shared.reconstruct_queue) arrived
    pub room : length s.shared.reconstruct_queue ≤ reconstruct_capacity
    pub lossless :
        length arrived ≤ reconstruct_capacity → given ++ s.shared.reconstruct_queue ≡ arrived
    pub broadcasts : Broadcasts C Q s.reconstructor
    pub waiting : AllBring s.shared.reconstruct_queue
