-- ===== src/Forwarder/Handle/Counters.antt =====
-- The counters of the handler of a batch (proxy/src/forwarder.rs): nothing is lost, and what is
-- counted twice. Sums are modulo 2 ^ 64, as the atomic counters are.
use mathlib.Core.Path.{ap₂}
use shredstream_proxy.Common.{
  ℕ, ◌+◌, ◌*◌, ◌%◌, ◌^◌, ◌≡◌, refl, ◌∙◌, ◌≢◌, Ensures, ensures, Ensures-bind, Ensures-mono, Bool,
  true, false, none, some, List, [], ◌∷◌, length, add_u64, arith,
}
use shredstream_proxy.Metrics.{ShredMetrics}
use shredstream_proxy.Forwarder.{Wire, Env, Forwarder, SocketAddr, SendResult, sent, io_error}
use shredstream_proxy.Forwarder.Handle.Delivery.{count_traces-returns}
use shredstream_proxy.Forwarder.Handle.{
  store_stats, forward_batch, recv_from_channel_and_send_multiple_dest, packet_data, send_to,
  send_all, admit, count_sent,
}

abbrev pub SameModulo : ℕ → ℕ → Type 0
SameModulo a b = a % 2 ^ 64 ≡ b % 2 ^ 64

module _ (W : Wire) where
  -- success and failure together
  abbrev pub attempted : ShredMetrics → ℕ
  attempted m = m.success_forward + m.fail_forward

  count_sent-attempted :
      (r : SendResult) (n k : ℕ) (m : ShredMetrics)
      → SameModulo (attempted (count_sent W r n k m)) (attempted m + n)
  count_sent-attempted sent n k m = omega arith
  count_sent-attempted (io_error x) n k m = omega arith

  send_all-attempted :
      (env : Env) (k : ℕ) (batch : List W.Packet) (dests : List SocketAddr) (f : Forwarder W)
      → SameModulo
          (attempted (send_all W env k batch dests f).metrics)
          (attempted f.metrics + length dests * length (packet_data W batch))
  unfolding send_all
  send_all-attempted env k batch [] f = omega arith
  send_all-attempted env k batch (dest ∷ dests) f = omega (
    arith,
    send_all-attempted env k batch dests (send_to W env k batch dest f),
    send_to-attempted dest f,
  )
    where
      send_to-attempted :
          (dest : SocketAddr) (f : Forwarder W)
          → SameModulo
              (attempted (send_to W env k batch dest f).metrics)
              (attempted f.metrics + length (packet_data W batch))
      send_to-attempted dest f =
          unfold send_to in
          count_sent-attempted (env.batch_send dest (packet_data W batch))
            (length (packet_data W batch)) k _

  -- Every send succeeds.
  abbrev pub AllSent : Env → Type 0
  AllSent env = (dest : SocketAddr) (packets : List (List ℕ)) → env.batch_send dest packets ≡ sent

  send_all-duplicate :
      (env : Env) (k : ℕ) (batch : List W.Packet) (dests : List SocketAddr) (f : Forwarder W)
      → AllSent env
      → SameModulo
          (send_all W env k batch dests f).metrics.duplicate
          (f.metrics.duplicate + length dests * k)
  unfolding send_all
  send_all-duplicate env k batch [] f h = omega arith
  send_all-duplicate env k batch (dest ∷ dests) f h =
      omega
        (arith, send_all-duplicate env k batch dests (send_to W env k batch dest f) h, first dest f)
    where
      one :
          (r : SendResult) (n : ℕ) (m : ShredMetrics)
          → r ≡ sent
          → SameModulo (count_sent W r n k m).duplicate (m.duplicate + k)
      one sent n m e = omega arith
      one (io_error x) n m e = cc

      first :
          (dest : SocketAddr) (f : Forwarder W)
          → SameModulo (send_to W env k batch dest f).metrics.duplicate (f.metrics.duplicate + k)
      first dest f =
          unfold send_to in
          one (env.batch_send dest (packet_data W batch)) (length (packet_data W batch)) _
            (h dest (packet_data W batch))

  -- The counters that `store_stats` leaves alone.
  store_stats-kept :
      (batch : List W.Packet) (f : Forwarder W)
      → let m = f.metrics in
        let m' = (store_stats W batch f).metrics in
        (m'.success_forward ≡ m.success_forward)
        × (m'.fail_forward ≡ m.fail_forward)
        × (m'.duplicate ≡ m.duplicate)
  unfolding store_stats
  store_stats-kept [] f = (refl, refl, refl)
  store_stats-kept (p ∷ rest) f = store_stats-kept rest _

  -- What one batch adds to the counters of packets received and of packets sent or failed.
  pub record Counts (dests : List SocketAddr) (batch : List W.Packet) (f f' : Forwarder W)
      : Type 0 where
    pub received_lem : SameModulo f'.metrics.received (f.metrics.received + length batch)
    pub attempted_lem :
        SameModulo
          (attempted f'.metrics)
          (attempted f.metrics + length dests * length (packet_data W (W.dedup f.deduper batch).1))

  -- What it adds to the counter of duplicates, where all sends succeed.
  abbrev pub CountsDuplicates : List SocketAddr → List W.Packet → Forwarder W → Forwarder W → Type 0
  CountsDuplicates dests batch f f' =
      SameModulo f'.metrics.duplicate
        (f.metrics.duplicate + length dests * (W.dedup f.deduper batch).2)

  abbrev AllCounts : Env → List SocketAddr → List W.Packet → Forwarder W → Forwarder W → Type 0
  AllCounts env dests batch f f' =
      Counts dests batch f f' × (AllSent env → CountsDuplicates dests batch f f')

  send_all-received :
      (env : Env) (k : ℕ) (batch : List W.Packet) (dests : List SocketAddr) (f : Forwarder W)
      → (send_all W env k batch dests f).metrics.received ≡ f.metrics.received
  unfolding send_all
  send_all-received env k batch [] f = refl
  send_all-received env k batch (dest ∷ dests) f =
      send_all-received env k batch dests (send_to W env k batch dest f) ∙ first
    where
      one :
          (r : SendResult) (n : ℕ) (m : ShredMetrics) → (count_sent W r n k m).received ≡ m.received
      one sent n m = refl
      one (io_error x) n m = refl

      first : (send_to W env k batch dest f).metrics.received ≡ f.metrics.received
      first =
          unfold send_to in
          one (env.batch_send dest (packet_data W batch)) (length (packet_data W batch)) _

  store_stats-received :
      (batch : List W.Packet) (f : Forwarder W)
      → (store_stats W batch f).metrics.received ≡ f.metrics.received
  unfolding store_stats
  store_stats-received [] f = refl
  store_stats-received (p ∷ rest) f = store_stats-received rest _

  admit-kept :
      (env : Env) (reconstruct : Bool) (batch : List W.Packet) (f : Forwarder W)
      → let m = f.metrics in
        let m' = (admit W env reconstruct batch f).metrics in
        (m'.received ≡ add_u64 m.received (length batch))
        × (attempted m' ≡ attempted m)
        × (m'.duplicate ≡ m.duplicate)
  unfolding admit
  admit-kept env reconstruct batch f =
      let kept = store_stats-kept (W.dedup f.deduper batch).1 _ in
      (store_stats-received (W.dedup f.deduper batch).1 _, ap₂ ◌+◌ kept.0 kept.1, kept.2)

  sent-Counts :
      (env : Env) (reconstruct : Bool) (dests : List SocketAddr) (batch : List W.Packet)
      (f : Forwarder W)
      → AllCounts env dests batch f (
          send_all W env
            (W.dedup f.deduper batch).2
            (W.dedup f.deduper batch).1
            dests
            (admit W env reconstruct batch f))
  sent-Counts env reconstruct dests batch f =
      let f0 = admit W env reconstruct batch f in
      let k = (W.dedup f.deduper batch).2 in
      let deduped = (W.dedup f.deduper batch).1 in
      let kept = admit-kept env reconstruct batch f in
      (
        record {
          received_lem = omega (arith, send_all-received env k deduped dests f0, kept.0);
          attempted_lem = omega (arith, send_all-attempted env k deduped dests f0, kept.1);
        },
        λ h. omega (arith, send_all-duplicate env k deduped dests f0 h, kept.2),
      )

  forward_batch-Counts :
      (env : Env) (reconstruct trace : Bool) (dests : List SocketAddr) (batch : List W.Packet)
      (f : Forwarder W)
      → (trace ≡ true → (t : W.Timestamp) → W.system_time t ≢ none)
      → Ensures (AllCounts env dests batch f) (forward_batch W env reconstruct trace dests batch f)
  unfolding forward_batch
  forward_batch-Counts env reconstruct false dests batch f ok =
      ensures (sent-Counts env reconstruct dests batch f)
  forward_batch-Counts env reconstruct true dests batch f ok =
      let g = sent-Counts env reconstruct dests batch f in
      Ensures-bind _
        (count_traces-returns W env.now_usecs (packet_data W (W.dedup f.deduper batch).1) (ok refl))
        λ points u.
          ensures
            (record { received_lem = g.0.received_lem; attempted_lem = g.0.attempted_lem }, g.1)

  recv-AllCounts :
      (env : Env) (reconstruct trace : Bool) (dests : List SocketAddr) (batch : List W.Packet)
      (f : Forwarder W)
      → (trace ≡ true → (t : W.Timestamp) → W.system_time t ≢ none)
      → Ensures
          (λ r. AllCounts env dests batch f r.0)
          (recv_from_channel_and_send_multiple_dest W env reconstruct trace dests (some batch) f)
  unfolding recv_from_channel_and_send_multiple_dest
  recv-AllCounts env reconstruct trace dests batch f ok =
      Ensures-bind _ (forward_batch-Counts env reconstruct trace dests batch f ok) λ f' c. ensures c

  -- Modulo 2 ^ 64, one batch adds its length to `received`, and to `success_forward` and
  -- `fail_forward` together the number of packets with data that the deduper kept, once for each
  -- destination. With traces on, all their times must be representable.
  pub recv-Counts :
      (env : Env) (reconstruct trace : Bool) (dests : List SocketAddr) (batch : List W.Packet)
      (f : Forwarder W)
      → (trace ≡ true → (t : W.Timestamp) → W.system_time t ≢ none)
      → Ensures
          (λ r. Counts dests batch f r.0)
          (recv_from_channel_and_send_multiple_dest W env reconstruct trace dests (some batch) f)
  recv-Counts env reconstruct trace dests batch f ok =
      Ensures-mono (recv-AllCounts env reconstruct trace dests batch f ok) λ r c. c.0

  -- Where all sends succeed, one batch adds to `duplicate` the deduper's count once for each
  -- destination, modulo 2 ^ 64. With traces on, all their times must be representable.
  pub recv-CountsDuplicates :
      (env : Env) (reconstruct trace : Bool) (dests : List SocketAddr) (batch : List W.Packet)
      (f : Forwarder W)
      → (trace ≡ true → (t : W.Timestamp) → W.system_time t ≢ none)
      → ((dest : SocketAddr) (packets : List (List ℕ)) → env.batch_send dest packets ≡ sent)
      → Ensures
          (λ r. CountsDuplicates dests batch f r.0)
          (recv_from_channel_and_send_multiple_dest W env reconstruct trace dests (some batch) f)
  recv-CountsDuplicates env reconstruct trace dests batch f ok h =
      Ensures-mono (recv-AllCounts env reconstruct trace dests batch f ok) λ r c. c.1 h
