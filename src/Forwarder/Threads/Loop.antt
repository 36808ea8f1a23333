-- ===== src/Forwarder/Threads/Loop.antt =====
-- The whole run of a forwarder thread (proxy/src/forwarder.rs), with the other threads between its
-- turns.
use mathlib.Core.Path.{ap₂}
use mathlib.Core.List.{append-nil, append_assoc}
use shredstream_proxy.Common.{
  ℕ, ◌≡◌, ◌≢◌, refl, sym, ◌∙◌, ap, Bool, true, false, none, some, List, [], ◌∷◌, ◌++◌, map, Outcome,
  returns, ◌>>=◌, Ensures, ensures, Ensures-bind, Ensures-mono, if◌then◌else◌,
}
use shredstream_proxy.Metrics.{ShredMetrics}
use shredstream_proxy.Prom.{PromEvent}
use shredstream_proxy.Forwarder.{Wire, Env, Forwarder, SocketAddr}
use shredstream_proxy.Forwarder.Handle.{packet_data}
use shredstream_proxy.Forwarder.Handle.Delivery.{recv-Forwards}
use shredstream_proxy.Forwarder.Threads.{
  ForwarderThread, ForwarderEvent, packets, refresh_subscribers, shutdown, observe_interval,
  forwarder_step,
}

-- The body of a loop that runs.
taken :
    {S : Type 0} {P : S → Type 0} {body : Outcome S} (running : Bool) (idle : Outcome S)
    → running ≡ true
    → Ensures P body
    → Ensures P (if running then body else idle)
taken true idle on p = p
taken false idle on p = cc

module _ (W : Wire) where
  -- What the other threads leave in the shared state before a turn: the deduper that another
  -- forwarder used or the accessory thread reset, the counters, the channel that the reconstructor
  -- reads. What this thread sends goes through its own socket.
  pub record Meanwhile : Type 0 where
    pub deduper : W.Deduper
    pub metrics : ShredMetrics
    pub prom : List PromEvent
    pub reconstruct_queue : List (List W.Packet)

  abbrev pub interfere : Meanwhile → ForwarderThread W → ForwarderThread W
  interfere o t = record t {
    shared = record {
      deduper = o.deduper;
      metrics = o.metrics;
      prom = o.prom;
      reconstruct_queue = o.reconstruct_queue;
      outbox = t.shared.outbox;
      traces = t.shared.traces;
    };
  }

  -- One turn: the exit flag as read, what the others did, and what `select!` then receives.
  abbrev pub Turn : Type 0
  Turn = Bool × Meanwhile × ForwarderEvent W

  -- `let mut local_dest_sockets = unioned_dest_sockets.load()`
  abbrev pub start_forwarder : List SocketAddr → Forwarder W → ForwarderThread W
  start_forwarder loaded shared = record {
    shared = shared;
    local_dest_sockets = loaded;
    running = true;
  }

  -- `while !exit { select! { .. } }`
  unfoldable pub forwarder_loop :
      (should_reconstruct debug_trace : Bool)
      → List Turn
      → ForwarderThread W
      → Outcome (ForwarderThread W)
  unfolding forwarder_step
  forwarder_loop reconstruct trace [] t = returns t
  forwarder_loop reconstruct trace ((exit, others, e) ∷ rest) t =
      let stopped = returns (record t { running = false }) in
      let next =
        forwarder_step W reconstruct trace (interfere others t) e
        >>= forwarder_loop reconstruct trace rest in
      if t.running then (if exit then stopped else next) else returns t

  -- What a thread is to send: each batch, as the deduper of that moment keeps it, to each of the
  -- destinations last loaded; nothing after an exit, a shutdown or a closed channel.
  unfoldable pub to_send : List SocketAddr → List Turn → List (SocketAddr × List (List ℕ))
  unfolding packet_data
  to_send dests [] = []
  to_send dests ((true, others, e) ∷ rest) = []
  to_send dests ((false, others, packets env usecs none) ∷ rest) = []
  to_send dests ((false, others, packets env usecs (some batch)) ∷ rest) =
      map (λ d. (d, packet_data W (W.dedup others.deduper batch).1)) dests ++ to_send dests rest
  to_send dests ((false, others, refresh_subscribers loaded) ∷ rest) = to_send loaded rest
  to_send dests ((false, others, shutdown) ∷ rest) = []

  -- Whether it is still running then.
  unfoldable pub goes_on : List Turn → Bool
  goes_on [] = true
  goes_on ((true, others, e) ∷ rest) = false
  goes_on ((false, others, packets env usecs none) ∷ rest) = false
  goes_on ((false, others, packets env usecs (some batch)) ∷ rest) = goes_on rest
  goes_on ((false, others, refresh_subscribers loaded) ∷ rest) = goes_on rest
  goes_on ((false, others, shutdown) ∷ rest) = false

  pub record Sends (dests : List SocketAddr) (turns : List Turn) (t t' : ForwarderThread W)
      : Type 0 where
    pub outbox_lem : t'.shared.outbox ≡ t.shared.outbox ++ to_send dests turns
    pub running_lem : t'.running ≡ goes_on turns

  -- A thread that has left its loop stays as it is.
  loop-stopped :
      (reconstruct trace : Bool) (turns : List Turn) (t : ForwarderThread W)
      → t.running ≡ false
      → Ensures (λ t'. t' ≡ t) (forwarder_loop reconstruct trace turns t)
  unfolding forwarder_loop
  loop-stopped reconstruct trace [] t off = ensures refl
  loop-stopped reconstruct trace ((exit, others, e) ∷ rest) t off = rw off (ensures refl)

  -- A turn that stops the thread and sends nothing.
  Sends-last :
      (reconstruct trace : Bool) (dests : List SocketAddr) (rest turns : List Turn)
      (t u : ForwarderThread W)
      → u.running ≡ false
      → u.shared.outbox ≡ t.shared.outbox
      → to_send dests turns ≡ []
      → goes_on turns ≡ false
      → Ensures (Sends dests turns t) (forwarder_loop reconstruct trace rest u)
  Sends-last reconstruct trace dests rest turns t u off same none_left ends =
      Ensures-mono (loop-stopped reconstruct trace rest u off) λ t' e. record {
        outbox_lem =
            ap (λ x. x.shared.outbox) e
            ∙ same
            ∙ sym (append-nil _)
            ∙ ap (λ o. t.shared.outbox ++ o) (sym none_left);
        running_lem = ap (λ x. x.running) e ∙ off ∙ sym ends;
      }

  -- What a turn with a batch leaves of the thread.
  record Stepped (now : List (SocketAddr × List (List ℕ))) (t u : ForwarderThread W) : Type 0 where
    sent_lem : u.shared.outbox ≡ t.shared.outbox ++ now
    same_destinations : u.local_dest_sockets ≡ t.local_dest_sockets
    stays_running : u.running ≡ true

  batch_step-Stepped :
      (reconstruct trace : Bool) (env : Env) (usecs : ℕ) (batch : List W.Packet)
      (t : ForwarderThread W)
      → (trace ≡ true → (s : W.Timestamp) → W.system_time s ≢ none)
      → Ensures
          (Stepped
            (map (λ d. (d, packet_data W (W.dedup t.shared.deduper batch).1)) t.local_dest_sockets)
            t)
          (forwarder_step W reconstruct trace t (packets env usecs (some batch)))
  unfolding forwarder_step
  batch_step-Stepped reconstruct trace env usecs batch t ok =
      Ensures-bind _
        (recv-Forwards W env reconstruct trace t.local_dest_sockets batch
          (observe_interval W usecs t.shared) ok)
        λ r p.
          ensures
            (record { sent_lem = p.0.outbox_lem; same_destinations = refl; stays_running = p.1 })

  -- With traces on, all their times must be representable. Then a running forwarder thread never
  -- panics, over any sequence of turns and whatever the other threads do between them: it sends, in
  -- order, exactly each batch as the deduper of that moment keeps it to each of the destinations last
  -- loaded, until an exit, a shutdown or a closed channel, and it stops at the first of these.
  pub forwarder_loop-Sends :
      (reconstruct trace : Bool) (turns : List Turn) (t : ForwarderThread W)
      → (trace ≡ true → (s : W.Timestamp) → W.system_time s ≢ none)
      → t.running ≡ true
      → Ensures (Sends t.local_dest_sockets turns t) (forwarder_loop reconstruct trace turns t)
  unfolding forwarder_loop forwarder_step to_send goes_on
  forwarder_loop-Sends reconstruct trace [] t ok on =
      ensures (record { outbox_lem = sym (append-nil _); running_lem = on })
  forwarder_loop-Sends reconstruct trace ((true, others, e) ∷ rest) t ok on =
      taken t.running _ on
        (ensures (record { outbox_lem = sym (append-nil _); running_lem = refl }))
  forwarder_loop-Sends reconstruct trace ((false, others, packets env usecs none) ∷ rest) t ok on =
      taken t.running _ on (
        Sends-last reconstruct trace t.local_dest_sockets rest
          ((false, others, packets env usecs none) ∷ rest) t
          (record (interfere others t) {
            shared = observe_interval W usecs (interfere others t).shared;
            running = false;
          })
          refl refl refl refl)
  forwarder_loop-Sends reconstruct trace ((false, others, packets env usecs (some batch)) ∷ rest) t
        ok on =
      taken t.running _ on (
        Ensures-bind _
          (batch_step-Stepped reconstruct trace env usecs batch (interfere others t) ok)
          λ u p.
            Ensures-mono (forwarder_loop-Sends reconstruct trace rest u ok p.stays_running) λ t' s.
              record {
                outbox_lem =
                    s.outbox_lem
                    ∙ ap₂ ◌++◌ p.sent_lem (ap (λ d. to_send d rest) p.same_destinations)
                    ∙ append_assoc t.shared.outbox _ _;
                running_lem = s.running_lem;
              })
  forwarder_loop-Sends reconstruct trace ((false, others, refresh_subscribers loaded) ∷ rest) t ok
        on =
      taken t.running _ on (
        Ensures-mono
          (forwarder_loop-Sends reconstruct trace rest
            (record (interfere others t) { local_dest_sockets = loaded }) ok on)
          λ t' s. record { outbox_lem = s.outbox_lem; running_lem = s.running_lem })
  forwarder_loop-Sends reconstruct trace ((false, others, shutdown) ∷ rest) t ok on =
      taken t.running _ on (
        Sends-last reconstruct trace t.local_dest_sockets rest ((false, others, shutdown) ∷ rest) t
          (record (interfere others t) { running = false }) refl refl refl refl)
