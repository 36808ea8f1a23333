-- ===== src/Forwarder/Handle/Delivery.antt =====
-- Which packets the handler of a batch (proxy/src/forwarder.rs) sends where, and what it hands on.
use mathlib.Core.List.{append-nil, append_assoc}
use shredstream_proxy.Common.{
  ℕ, ◌≡◌, ◌≢◌, refl, sym, ◌∙◌, ap, Bool, true, false, Option, none, some, List, [], ◌∷◌, ◌++◌, map,
  Ensures, ensures, Ensures-bind, if◌then◌else◌,
}
use shredstream_proxy.Forwarder.{Wire, Env, Forwarder, SocketAddr}
use shredstream_proxy.Forwarder.Handle.{
  try_send, reconstruct_capacity, store_stats, packet_data, send_to, send_all, trace_point,
  trace_decoded, count_traces, admit, forward_batch, recv_from_channel_and_send_multiple_dest,
}

module _ (W : Wire) where
  send_all-outbox :
      (env : Env) (k : ℕ) (batch : List W.Packet) (dests : List SocketAddr) (f : Forwarder W)
      → (send_all W env k batch dests f).outbox
        ≡ f.outbox ++ map (λ d. (d, packet_data W batch)) dests
  unfolding send_all
  send_all-outbox env k batch [] f = sym (append-nil _)
  send_all-outbox env k batch (dest ∷ dests) f =
      send_all-outbox env k batch dests (send_to W env k batch dest f) ∙ append_assoc f.outbox _ _

  send_all-queue :
      (env : Env) (k : ℕ) (batch : List W.Packet) (dests : List SocketAddr) (f : Forwarder W)
      → (send_all W env k batch dests f).reconstruct_queue ≡ f.reconstruct_queue
  unfolding send_all
  send_all-queue env k batch [] f = refl
  send_all-queue env k batch (dest ∷ dests) f =
      send_all-queue env k batch dests (send_to W env k batch dest f)

  store_stats-outbox :
      (batch : List W.Packet) (f : Forwarder W) → (store_stats W batch f).outbox ≡ f.outbox
  unfolding store_stats
  store_stats-outbox [] f = refl
  store_stats-outbox (p ∷ rest) f = store_stats-outbox rest _

  store_stats-queue :
      (batch : List W.Packet) (f : Forwarder W)
      → (store_stats W batch f).reconstruct_queue ≡ f.reconstruct_queue
  unfolding store_stats
  store_stats-queue [] f = refl
  store_stats-queue (p ∷ rest) f = store_stats-queue rest _

  trace_point-returns :
      (received seq : ℕ) (o : Option ℕ)
      → o ≢ none
      → Ensures (λ points. Unit {0}) (trace_point W received seq o)
  unfolding trace_point
  trace_point-returns received seq none ok = absurd (ok refl)
  trace_point-returns received seq (some c) ok = ensures tt

  trace_decoded-returns :
      (received : ℕ) (o : Option (Option W.Timestamp × ℕ))
      → ((t : W.Timestamp) → W.system_time t ≢ none)
      → Ensures (λ points. Unit {0}) (trace_decoded W received o)
  unfolding trace_decoded
  trace_decoded-returns received none ok = ensures tt
  trace_decoded-returns received (some (none, seq)) ok = ensures tt
  trace_decoded-returns received (some (some t, seq)) ok =
      trace_point-returns received seq (W.system_time t) (ok t)

  pub count_traces-returns :
      (received : ℕ) (bs : List (List ℕ))
      → ((t : W.Timestamp) → W.system_time t ≢ none)
      → Ensures (λ points. Unit {0}) (count_traces W received bs)
  unfolding count_traces
  count_traces-returns received [] ok = ensures tt
  count_traces-returns received (b ∷ rest) ok =
      Ensures-bind _ (trace_decoded-returns received (W.decode_trace b) ok)
        λ points u. Ensures-bind _ (count_traces-returns received rest ok) λ more v. ensures tt

  -- What one batch does beside the counters.
  pub record Forwards (reconstruct : Bool) (dests : List SocketAddr) (batch : List W.Packet)
      (f f' : Forwarder W) : Type 0 where
    pub outbox_lem :
        f'.outbox ≡ f.outbox ++ map (λ d. (d, packet_data W (W.dedup f.deduper batch).1)) dests
    pub queue_lem : f'.reconstruct_queue ≡ (
        if reconstruct
        then try_send reconstruct_capacity batch f.reconstruct_queue
        else f.reconstruct_queue)

  sent-Forwards :
      (env : Env) (reconstruct : Bool) (dests : List SocketAddr) (batch : List W.Packet)
      (f : Forwarder W)
      → Forwards reconstruct dests batch f (
          send_all W env
            (W.dedup f.deduper batch).2
            (W.dedup f.deduper batch).1
            dests
            (admit W env reconstruct batch f))
  unfolding admit
  sent-Forwards env reconstruct dests batch f = record {
    outbox_lem =
        send_all-outbox env _ _ dests (admit W env reconstruct batch f)
        ∙ ap (λ o. o ++ map (λ d. (d, packet_data W (W.dedup f.deduper batch).1)) dests)
            (store_stats-outbox (W.dedup f.deduper batch).1 _);
    queue_lem =
        send_all-queue env _ _ dests (admit W env reconstruct batch f)
        ∙ store_stats-queue (W.dedup f.deduper batch).1 _;
  }

  forward_batch-Forwards :
      (env : Env) (reconstruct trace : Bool) (dests : List SocketAddr) (batch : List W.Packet)
      (f : Forwarder W)
      → (trace ≡ true → (t : W.Timestamp) → W.system_time t ≢ none)
      → Ensures
          (Forwards reconstruct dests batch f)
          (forward_batch W env reconstruct trace dests batch f)
  unfolding forward_batch
  forward_batch-Forwards env reconstruct false dests batch f ok =
      ensures (sent-Forwards env reconstruct dests batch f)
  forward_batch-Forwards env reconstruct true dests batch f ok =
      let g = sent-Forwards env reconstruct dests batch f in
      Ensures-bind _
        (count_traces-returns env.now_usecs (packet_data W (W.dedup f.deduper batch).1) (ok refl))
        λ points u. ensures (record { outbox_lem = g.outbox_lem; queue_lem = g.queue_lem })

  -- For a received batch, and with the times of all traces representable if traces are on, the
  -- handler returns `Ok`. Every destination is sent, once and in order, the data of the packets that
  -- the deduper kept; the batch as received is queued for the reconstructor if reconstruction is on
  -- and the channel has room, and else the queue is left as it is.
  pub recv-Forwards :
      (env : Env) (reconstruct trace : Bool) (dests : List SocketAddr) (batch : List W.Packet)
      (f : Forwarder W)
      → (trace ≡ true → (t : W.Timestamp) → W.system_time t ≢ none)
      → Ensures
          (λ r. Forwards reconstruct dests batch f r.0 × (r.1 ≡ true))
          (recv_from_channel_and_send_multiple_dest W env reconstruct trace dests (some batch) f)
  unfolding recv_from_channel_and_send_multiple_dest
  recv-Forwards env reconstruct trace dests batch f ok =
      Ensures-bind _ (forward_batch-Forwards env reconstruct trace dests batch f ok)
        λ f' g. ensures (g, refl)
