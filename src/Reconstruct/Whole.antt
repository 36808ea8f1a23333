-- ===== src/Reconstruct/Whole.antt =====
-- proxy/src/deshred.rs: `reconstruct_shreds`, its four parts in order.
pub mod Dropped
pub mod Promise
pub mod Total
use shredstream_proxy.Common.{
  ℕ, Bool, true, false, List, [], ◌∷◌, Outcome, returns, ◌>>=◌, ltb, if◌then◌else◌, Key, add_u64,
  sort_dedup,
}
use shredstream_proxy.Ledger.{Ledger}
use shredstream_proxy.Metrics.{ShredMetrics}
use shredstream_proxy.Reconstruct.{Codec, Slots}
use shredstream_proxy.Reconstruct.Ingest.{Ingested, ingest}
use shredstream_proxy.Reconstruct.Recover.{recover_all}
use shredstream_proxy.Reconstruct.Deshred.{Decoded, deshred_all}
use shredstream_proxy.Reconstruct.Cleanup.{Report, cleanup}

-- The caller's variables after the call, the return value and the report.
pub record Reconstructed {L : Ledger} (C : Codec L) : Type 0 where
  pub all_shreds : Slots L
  pub slot_fec_indexes_to_iterate : List Key
  pub deshredded_entries : List (Decoded C)
  pub highest_slot_seen : ℕ
  pub metrics : ShredMetrics
  pub total_recovered_count : ℕ
  pub report : Report

abbrev pub add_recovered_count : ℕ → ShredMetrics → ShredMetrics
add_recovered_count n m =
    if ltb 0 n then record m { recovered_count = add_u64 m.recovered_count n } else m

module _ {L : Ledger} (C : Codec L) where
  unfoldable pub reconstruct_shreds :
      List C.Packet → Slots L → ℕ → ShredMetrics → Outcome (Reconstructed C)
  unfolding ingest recover_all deshred_all cleanup sort_dedup
  reconstruct_shreds batch all_shreds highest metrics = do
    i ← ingest C batch (record {
      all_shreds = all_shreds;
      slot_fec_indexes_to_iterate = [];
      highest_slot_seen = highest;
    })
    let keys = sort_dedup i.slot_fec_indexes_to_iterate
    r ← recover_all C keys (record { all_shreds = i.all_shreds; total_recovered_count = 0 })
    d ←
        deshred_all C keys
          (record { all_shreds = r.all_shreds; deshredded_entries = []; metrics = metrics })
    c ← cleanup i.highest_slot_seen d.all_shreds
    returns (record {
      all_shreds = c.0;
      slot_fec_indexes_to_iterate = keys;
      deshredded_entries = d.deshredded_entries;
      highest_slot_seen = i.highest_slot_seen;
      metrics = add_recovered_count r.total_recovered_count d.metrics;
      total_recovered_count = r.total_recovered_count;
      report = c.1;
    })
