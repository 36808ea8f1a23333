-- ===== src/Forwarder.antt =====
-- proxy/src/forwarder.rs: the handler of one received batch, the threads that call it, and the
-- refresh of the destinations. This file has what they take from the Solana crates and the system.
pub mod Handle
pub mod Destinations
pub mod Threads
pub mod Pipeline
use shredstream_proxy.Common.{ℕ, Bool, Option, List, Key}
use shredstream_proxy.Metrics.{ShredMetrics}
use shredstream_proxy.Prom.{PromEvent}

-- An IP address and a port.
abbrev pub SocketAddr : Type 0
SocketAddr = Key

-- `batch_send`: `Ok`, or the error with its number of failed packets.
pub data SendResult : Type 0 where
  sent : SendResult
  io_error : (num_failed : ℕ) → SendResult

-- Packets and the deduper (solana_perf), trace shreds (jito_protos). An address is a number.
pub record Wire : Type 1 where
  pub Packet : Type 0
  pub Deduper : Type 0
  pub Timestamp : Type 0
  -- `packet.meta().addr` and `packet.meta().discard()`
  pub addr : Packet → ℕ
  pub discard : Packet → Bool
  -- `packet.data(..)`
  pub bytes : Packet → Option (List ℕ)
  -- `dedup_packets_and_count_discards`: the deduper, the batch with its flags, and the count
  pub dedup : Deduper → List Packet → Deduper × List Packet × ℕ
  -- `TraceShred::decode`: `created_at` and `seq_num`
  pub decode_trace : List ℕ → Option (Option Timestamp × ℕ)
  -- `SystemTime::try_from`, in microseconds
  pub system_time : Timestamp → Option ℕ
  -- `libc::UIO_MAXIOV`
  pub max_iov : ℕ

-- What the system answers during one call.
pub record Env : Type 0 where
  pub batch_send : SocketAddr → List (List ℕ) → SendResult
  pub now_usecs : ℕ
  pub dedup_usecs : ℕ
  pub send_usecs : SocketAddr → ℕ

-- `shredstream_proxy-trace_shred_latency`
pub record TracePoint : Type 0 where
  pub seq_num : ℕ
  pub elapsed_micros : ℕ

-- What a forwarder thread shares and sends. `reconstruct_queue` is the bounded channel to the
-- reconstructor, oldest batch first.
pub record Forwarder (W : Wire) : Type 0 where
  pub deduper : W.Deduper
  pub metrics : ShredMetrics
  pub prom : List PromEvent
  pub reconstruct_queue : List (List W.Packet)
  pub outbox : List (SocketAddr × List (List ℕ))
  pub traces : List TracePoint
