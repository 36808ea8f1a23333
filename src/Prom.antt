-- ===== src/Prom.antt =====
-- proxy/src/prom.rs: the calls that feed the metrics. A metric counts in floats and is the prometheus
-- crate's: a call is an event, and a run yields the list of its events.
pub mod Exposition
pub mod Registry
use shredstream_proxy.Common.{ℕ}

pub data Status : Type 0 where
  discarded forwarded : Status

pub data PromEvent : Type 0 where
  observe_dedup_time : ℕ → PromEvent
  observe_send_packet_count : ℕ → PromEvent
  observe_send_duration : ℕ → PromEvent
  observe_recv_interval : ℕ → PromEvent
  observe_recv_packet_count : ℕ → PromEvent
  inc_packets_received : ℕ → PromEvent
  inc_packets_deduped : ℕ → PromEvent
  inc_packets_forwarded : ℕ → PromEvent
  inc_packets_forward_failed : ℕ → PromEvent
  inc_packets_by_source : (addr : ℕ) → Status → (count : ℕ) → PromEvent
