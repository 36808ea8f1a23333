-- ===== src/Forwarder/Handle.antt =====
-- proxy/src/forwarder.rs: `recv_from_channel_and_send_multiple_dest`.
pub mod Delivery
pub mod Counters
pub mod Sources
use shredstream_proxy.Common.{
  ℕ, ◌+◌, ◌-◌, ◌/◌, ◌%◌, Bool, true, false, Option, none, some, List, [], ◌∷◌, ◌++◌, Outcome,
  returns, panics, ◌>>=◌, length, ltb, if◌then◌else◌, add_u64, lookup, insert,
}
use shredstream_proxy.Metrics.{ShredMetrics}
use shredstream_proxy.Prom.{
  PromEvent, discarded, forwarded, observe_dedup_time, observe_send_packet_count,
  observe_send_duration, observe_recv_packet_count, inc_packets_received, inc_packets_deduped,
  inc_packets_forwarded, inc_packets_forward_failed, inc_packets_by_source,
}
use shredstream_proxy.Forwarder.{
  Wire, Env, Forwarder, SocketAddr, SendResult, sent, io_error, TracePoint,
}

-- `crossbeam_channel::bounded(1_024)`
abbrev pub reconstruct_capacity : ℕ
reconstruct_capacity = 1024

-- `try_send` on a bounded channel: a batch that does not fit is dropped.
abbrev pub try_send {ℓ} : {A : Type ℓ} → ℕ → A → List A → List A
try_send capacity x queue = if ltb (length queue) capacity then queue ++ x ∷ [] else queue

-- `+= is_discarded as u64` and `+= (!is_discarded) as u64`
abbrev pub tally : Bool → ℕ × ℕ → ℕ × ℕ
tally true c = (add_u64 c.0 1, c.1)
tally false c = (c.0, add_u64 c.1 1)

abbrev pub tally_first : Bool → ℕ × ℕ
tally_first true = (1, 0)
tally_first false = (0, 1)

-- `entry(addr).and_modify(..).or_insert_with(..)`
abbrev pub tally_entry : Bool → Option (ℕ × ℕ) → ℕ × ℕ
tally_entry b none = tally_first b
tally_entry b (some c) = tally b c

module _ (W : Wire) where
  -- The loop "Store stats for each Packet".
  unfoldable pub store_stats : List W.Packet → Forwarder W → Forwarder W
  store_stats [] f = f
  store_stats (p ∷ rest) f =
      let m = f.metrics in
      let table = m.packets_received in
      store_stats rest (record f {
        metrics = record m {
          packets_received =
              insert (W.addr p) (tally_entry (W.discard p) (lookup (W.addr p) table)) table;
        };
        prom =
            f.prom
            ++ inc_packets_by_source (W.addr p) (if W.discard p then discarded else forwarded) 1
              ∷ [];
      })

  -- `filter_map(|pkt| pkt.data(..))`
  unfoldable pub packet_data : List W.Packet → List (List ℕ)
  packet_data [] = []
  packet_data (p ∷ rest) = elim (W.bytes p) [
    | none ↦ packet_data rest
    | some b ↦ b ∷ packet_data rest
  ]

  -- The metrics before a send.
  abbrev pub count_batch : ℕ → ShredMetrics → ShredMetrics
  count_batch n m = record m {
    send_batch_size_sum = add_u64 m.send_batch_size_sum n;
    send_batch_count = add_u64 m.send_batch_count 1;
    saturated_iov_count = add_u64 m.saturated_iov_count (n / W.max_iov);
    unsaturated_iov_count = add_u64 m.unsaturated_iov_count (n % W.max_iov);
  }

  -- The `match` on the result of a send.
  abbrev pub count_sent : SendResult → ℕ → ℕ → ShredMetrics → ShredMetrics
  count_sent sent n num_deduped m = record m {
    success_forward = add_u64 m.success_forward n;
    duplicate = add_u64 m.duplicate num_deduped;
  }
  count_sent (io_error num_failed) n num_deduped m = record m {
    fail_forward = add_u64 m.fail_forward n;
    duplicate = add_u64 m.duplicate num_failed;
  }

  abbrev pub sent_event : SendResult → ℕ → PromEvent
  sent_event sent n = inc_packets_forwarded n
  sent_event (io_error num_failed) n = inc_packets_forward_failed n

  abbrev pub count_send_time : ℕ → ShredMetrics → ShredMetrics
  count_send_time usecs m = record m {
    batch_send_time_spent = add_u64 m.batch_send_time_spent usecs;
  }

  -- The sends to one destination.
  unfoldable pub send_to : Env → ℕ → List W.Packet → SocketAddr → Forwarder W → Forwarder W
  unfolding packet_data
  send_to env num_deduped batch dest f =
      let packets = packet_data batch in
      let n = length packets in
      let result = env.batch_send dest packets in
      record f {
        metrics =
            count_send_time (env.send_usecs dest)
              (count_sent result n num_deduped (count_batch n f.metrics));
        prom =
            f.prom
            ++ observe_send_packet_count n
              ∷ sent_event result n
              ∷ observe_send_duration (env.send_usecs dest)
              ∷ [];
        outbox = f.outbox ++ (dest, packets) ∷ [];
      }

  unfoldable pub send_all : Env → ℕ → List W.Packet → List SocketAddr → Forwarder W → Forwarder W
  unfolding send_to
  send_all env num_deduped batch [] f = f
  send_all env num_deduped batch (dest ∷ dests) f =
      send_all env num_deduped batch dests (send_to env num_deduped batch dest f)

  -- One trace shred with a time; a time that is no `SystemTime` panics.
  pub trace_point : ℕ → ℕ → Option ℕ → Outcome (List TracePoint)
  trace_point received seq none = panics
  trace_point received seq (some created) =
      returns (record { seq_num = seq; elapsed_micros = received - created } ∷ [])

  pub trace_decoded : ℕ → Option (Option W.Timestamp × ℕ) → Outcome (List TracePoint)
  unfolding trace_point
  trace_decoded received none = returns []
  trace_decoded received (some (none, seq)) = returns []
  trace_decoded received (some (some t, seq)) = trace_point received seq (W.system_time t)

  -- The loop "Count TraceShred shreds".
  unfoldable pub count_traces : ℕ → List (List ℕ) → Outcome (List TracePoint)
  unfolding trace_decoded
  count_traces received [] = returns []
  count_traces received (b ∷ rest) = do
    points ← trace_decoded received (W.decode_trace b)
    more ← count_traces received rest
    returns (points ++ more)

  abbrev pub count_received : ℕ → ShredMetrics → ShredMetrics
  count_received n m = record m { received = add_u64 m.received n }

  abbrev pub count_dedup_time : ℕ → ShredMetrics → ShredMetrics
  count_dedup_time usecs m = record m { dedup_time_spent = add_u64 m.dedup_time_spent usecs }

  -- The state before the sends, from the batch as received and as deduplicated.
  unfoldable pub admit : Env → Bool → List W.Packet → Forwarder W → Forwarder W
  unfolding store_stats
  admit env should_reconstruct_shreds batch f =
      let (deduper, deduped, num_deduped) = W.dedup f.deduper batch in
      store_stats deduped (record f {
        deduper = deduper;
        metrics = count_dedup_time env.dedup_usecs (count_received (length batch) f.metrics);
        prom =
            f.prom
            ++ inc_packets_received (length batch)
              ∷ observe_recv_packet_count (length batch)
              ∷ observe_dedup_time env.dedup_usecs
              ∷ inc_packets_deduped num_deduped
              ∷ [];
        reconstruct_queue =
            if should_reconstruct_shreds
            then try_send reconstruct_capacity batch f.reconstruct_queue
            else f.reconstruct_queue;
      })

  -- A batch, and then the traces of the packets that were not discarded.
  unfoldable pub forward_batch :
      Env → Bool → Bool → List SocketAddr → List W.Packet → Forwarder W → Outcome (Forwarder W)
  unfolding admit send_all count_traces packet_data
  forward_batch env should_reconstruct_shreds debug_trace_shred dests batch f =
      let deduped = (W.dedup f.deduper batch).1 in
      let num_deduped = (W.dedup f.deduper batch).2 in
      let f' =
        send_all env num_deduped deduped dests (admit env should_reconstruct_shreds batch f) in
      if debug_trace_shred
      then (count_traces env.now_usecs (packet_data deduped) >>= λ points.
          returns (record f' { traces = f'.traces ++ points }))
      else returns f'

  -- The handler: `none` is a closed channel. The flag says whether the result is `Ok`.
  unfoldable pub recv_from_channel_and_send_multiple_dest :
      Env
      → Bool
      → Bool
      → List SocketAddr
      → Option (List W.Packet)
      → Forwarder W
      → Outcome (Forwarder W × Bool)
  unfolding forward_batch
  recv_from_channel_and_send_multiple_dest env reconstruct trace dests none f = returns (f, false)
  recv_from_channel_and_send_multiple_dest env reconstruct trace dests (some batch) f = do
    f' ← forward_batch env reconstruct trace dests batch f
    returns (f', true)
