-- ===== src/Reconstruct/Deshred.antt =====
-- proxy/src/deshred.rs, `reconstruct_shreds`: segments are deshredded and deserialised into entries.
pub mod Marks
pub mod Exhausted
pub mod Step
pub mod Spans
pub mod Fresh
pub mod Carried
pub mod Delivered
pub mod Once
use shredstream_proxy.Common.{
  ℕ, suc, ◌+◌, ◌-◌, Bool, true, false, Option, none, some, List, [], ◌∷◌, ◌++◌, Outcome, returns,
  panics, ◌>>=◌, unwrap, for_each, put, length, take, drop, ltb, if◌then◌else◌, Key, add_u64, entry,
  insert,
}
use shredstream_proxy.Ledger.{Ledger, Shred, index_of, fec_of, payload}
use shredstream_proxy.Tracker.{ShredsStateTracker}
use shredstream_proxy.Segments.{Bounds, get_indexes}
use shredstream_proxy.Metrics.{ShredMetrics}
use shredstream_proxy.Reconstruct.{Codec, SlotState, Slots, new_slot}

-- `data_shreds[start..=end]`, which panics where `end` is out of range.
pub slice {ℓ} : {A : Type ℓ} → List A → ℕ → ℕ → Outcome (List A)
slice v start end =
    if ltb end (length v) then returns (take (suc end - start) (drop start v)) else panics

-- `s.as_ref().unwrap()` of each shred.
pub unwrap_all {ℓ} : {A : Type ℓ} → List (Option A) → Outcome (List A)
unwrap_all [] = returns []
unwrap_all (o ∷ rest) = do x ← unwrap o; xs ← unwrap_all rest; returns (x ∷ xs)

abbrev pub payloads : {L : Ledger} → List (Shred L) → List (List ℕ)
payloads [] = []
payloads (s ∷ rest) = payload s ∷ payloads rest

-- The metrics of each branch. `unknown` is `unknown_start`.
abbrev pub bump_if : Bool → ℕ → ℕ
bump_if b n = if b then add_u64 n 1 else n

abbrev pub count_start : Bool → ShredMetrics → ShredMetrics
count_start u m = record m {
  unknown_start_position_count = bump_if u m.unknown_start_position_count;
}

abbrev pub count_deshred_error : Bool → ShredMetrics → ShredMetrics
count_deshred_error u m = record m {
  fec_recovery_error_count = add_u64 m.fec_recovery_error_count 1;
  unknown_start_position_error_count = bump_if u m.unknown_start_position_error_count;
}

abbrev pub count_bincode_error : Bool → ShredMetrics → ShredMetrics
count_bincode_error u m = record m {
  bincode_deserialize_error_count = add_u64 m.bincode_deserialize_error_count 1;
  unknown_start_position_error_count = bump_if u m.unknown_start_position_error_count;
}

module _ {L : Ledger} (C : Codec L) where
  -- slot, entries, and the bytes that they were read from
  abbrev pub Decoded : Type 0
  Decoded = ℕ × List C.Entry × List ℕ

  pub record Deshredded : Type 0 where
    pub all_shreds : Slots L
    pub deshredded_entries : List Decoded
    pub metrics : ShredMetrics

  -- `entries.iter().map(|e| e.transactions.len() as u64).sum()`
  abbrev pub txn_count : List C.Entry → ℕ
  txn_count [] = 0
  txn_count (e ∷ es) = add_u64 (C.txn_len e) (txn_count es)

  abbrev pub count_entries : List C.Entry → ShredMetrics → ShredMetrics
  count_entries es m = record m {
    entry_count = add_u64 m.entry_count (length es);
    txn_count = add_u64 m.txn_count (txn_count es);
  }

  -- What one segment gives: its entries or none, and the metrics.
  abbrev pub deserialize_segment :
      Bool
      → ShredMetrics
      → List ℕ
      → Option (List C.Entry)
      → Option (List C.Entry × List ℕ) × ShredMetrics
  deserialize_segment u m b none = (none, count_bincode_error u m)
  deserialize_segment u m b (some es) = (some (es, b), count_entries es m)

  abbrev pub deshred_segment :
      Bool → ShredMetrics → Option (List ℕ) → Option (List C.Entry × List ℕ) × ShredMetrics
  deshred_segment u m none = (none, count_deshred_error u m)
  deshred_segment u m (some b) = deserialize_segment u m b (C.deserialize b)

module _ {L : Ledger} where
  -- The `for_each` that follows the push, for one place of the segment.
  pub mark_done : Option (Shred L) → ShredsStateTracker L → Outcome (ShredsStateTracker L)
  mark_done none t = returns t
  mark_done (some s) t = do
    sets ← put t.already_recovered_fec_sets (fec_of s) true
    done ← put t.already_deshredded (index_of s) true
    returns (record t { already_recovered_fec_sets = sets; already_deshredded = done })

  -- A decoded segment is pushed and marked; a failed one leaves the tracker as it is.
  pub finish_segment :
      (C : Codec L)
      → ℕ
      → List (Option (Shred L))
      → SlotState L
      → Deshredded C
      → Option (List C.Entry × List ℕ) × ShredMetrics
      → Outcome (Deshredded C)
  unfolding mark_done for_each
  finish_segment C slot to_deshred s st (none, m) =
      returns (record st { all_shreds = insert slot s st.all_shreds; metrics = m })
  finish_segment C slot to_deshred s st (some r, m) = do
    t ← for_each mark_done to_deshred s.tracker
    returns (record {
      all_shreds = insert slot (record s { tracker = t }) st.all_shreds;
      deshredded_entries = st.deshredded_entries ++ (slot, r.0, r.1) ∷ [];
      metrics = m;
    })

  pub deshred_bounds :
      (C : Codec L) → ℕ → SlotState L → Deshredded C → Option Bounds → Outcome (Deshredded C)
  unfolding slice unwrap_all finish_segment
  deshred_bounds C slot s st none = returns (record st { all_shreds = insert slot s st.all_shreds })
  deshred_bounds C slot s st (some (start, end, u)) = do
    to_deshred ← slice s.tracker.data_shreds start end
    shreds ← unwrap_all to_deshred
    finish_segment C slot to_deshred s st
        (deshred_segment C u (count_start u st.metrics) (C.deshred (payloads shreds)))

  unfoldable pub deshred_fec_set : (C : Codec L) → Key → Deshredded C → Outcome (Deshredded C)
  unfolding deshred_bounds
  deshred_fec_set C (slot, fec) st =
      let s = entry (new_slot L) slot st.all_shreds in
      get_indexes s.tracker fec >>= deshred_bounds C slot s st

  unfoldable pub deshred_all : (C : Codec L) → List Key → Deshredded C → Outcome (Deshredded C)
  unfolding deshred_fec_set for_each
  deshred_all C keys st = for_each (deshred_fec_set C) keys st
