-- ===== src/Reconstruct/Ingest.antt =====
-- proxy/src/deshred.rs, `reconstruct_shreds`: the loop that ingests a batch of packets.
pub mod Valid
pub mod Accounted
pub mod Accounts
pub mod Held
use shredstream_proxy.Common.{
  ℕ, ◌-◌, Bool, true, false, Option, none, some, List, [], ◌∷◌, ◌++◌, Outcome, returns, ◌>>=◌,
  for_each, at, ltb, if◌then◌else◌, Key, max, entry, insert,
}
use shredstream_proxy.Ledger.{Ledger, Shred, slot_of, index_of, fec_of}
use shredstream_proxy.Comparable.{insert_shred}
use shredstream_proxy.Tracker.{ShredsStateTracker, update_state_tracker}
use shredstream_proxy.Reconstruct.{Codec, SlotState, Slots, new_slot, slot_lookback}

-- What the loop changes.
pub record Ingested (L : Ledger) : Type 0 where
  pub all_shreds : Slots L
  pub slot_fec_indexes_to_iterate : List Key
  pub highest_slot_seen : ℕ

module _ {L : Ledger} where
  -- `already_recovered_fec_sets[fec] || already_deshredded[index]`
  pub is_completed : ℕ → ℕ → ShredsStateTracker L → Outcome Bool
  is_completed fec index t = at t.already_recovered_fec_sets fec >>= λ done. elim done [
    | true ↦ returns true
    | false ↦ at t.already_deshredded index
  ]

  -- What follows `update_state_tracker`: the shred joins its FEC set, and the set is to be tried.
  pub enqueue :
      Shred L → SlotState L → Ingested L → Option ℕ × ShredsStateTracker L → Outcome (Ingested L)
  enqueue shred s st (none, t) =
      returns
        (record st { all_shreds = insert (slot_of shred) (record s { tracker = t }) st.all_shreds })
  enqueue shred s st (some index, t) = do
    set ← insert_shred L shred (entry [] (fec_of shred) s.fec_sets)
    returns (record {
      all_shreds =
          insert (slot_of shred)
            (record s { fec_sets = insert (fec_of shred) set s.fec_sets; tracker = t })
            st.all_shreds;
      slot_fec_indexes_to_iterate =
          st.slot_fec_indexes_to_iterate ++ (slot_of shred, fec_of shred) ∷ [];
      highest_slot_seen = max st.highest_slot_seen (slot_of shred);
    })

  -- The `Ok(shred)` arm. `entry(slot).or_default()` adds the slot also where the shred is dropped.
  unfoldable pub ingest_shred : Shred L → Ingested L → Outcome (Ingested L)
  unfolding is_completed enqueue
  ingest_shred shred st =
      let s = entry (new_slot L) (slot_of shred) st.all_shreds in
      let dropped = record st { all_shreds = insert (slot_of shred) s st.all_shreds } in
      if ltb (slot_of shred) (st.highest_slot_seen - slot_lookback)
      then returns dropped
      else is_completed (fec_of shred) (index_of shred) s.tracker >>= λ done. elim done [
        | true ↦ returns dropped
        | false ↦ update_state_tracker shred s.tracker >>= enqueue shred s st
      ]

  -- One packet. A packet that does not parse, a trace shred or not, changes nothing.
  pub ingest_bytes : Codec L → Option (Shred L) → Ingested L → Outcome (Ingested L)
  unfolding ingest_shred
  ingest_bytes C none st = returns st
  ingest_bytes C (some shred) st = ingest_shred shred st

  pub ingest_data : (C : Codec L) → Option (List ℕ) → Ingested L → Outcome (Ingested L)
  unfolding ingest_bytes
  ingest_data C none st = returns st
  ingest_data C (some b) st = ingest_bytes C (C.parse b) st

  pub ingest_packet : (C : Codec L) → C.Packet → Ingested L → Outcome (Ingested L)
  unfolding ingest_data
  ingest_packet C p st = ingest_data C (C.bytes p) st

  unfoldable pub ingest : (C : Codec L) → List C.Packet → Ingested L → Outcome (Ingested L)
  unfolding ingest_packet for_each
  ingest C batch st = for_each (ingest_packet C) batch st
