-- ===== src/Reconstruct/Ingest/Held.antt =====
-- Ingestion (proxy/src/deshred.rs, `reconstruct_shreds`) adds no shred but those of the batch.
use shredstream_proxy.Common.{
  ℕ, ◌≡◌, refl, Bool, true, false, Option, none, some, List, [], Outcome, returns, panics, ◌>>=◌,
  if◌then◌else◌, All, IfReturns, IfReturns-bind, for_each-IfReturns, entry, insert, ltb, ◌-◌,
}
use shredstream_proxy.Ledger.{Ledger, Shred, slot_of, index_of, fec_of}
use shredstream_proxy.Comparable.{insert_shred}
use shredstream_proxy.Comparable.Insert.{insert_shred-Held}
use shredstream_proxy.Tracker.{ShredsStateTracker, update_state_tracker}
use shredstream_proxy.Tracker.Held.{update_state_tracker-Held}
use shredstream_proxy.Reconstruct.{Codec, SlotState, IfSome, new_slot, slot_lookback}
use shredstream_proxy.Reconstruct.Held.{SlotHeld, Held, Held-insert, sets-insert, Brings}
use shredstream_proxy.Reconstruct.Ingest.Accounted.{parsed, parsed_bytes}
use shredstream_proxy.Reconstruct.Ingest.{
  Ingested, is_completed, enqueue, ingest_shred, ingest_bytes, ingest_data, ingest_packet, ingest,
}

module _ {L : Ledger} (Q : Shred L → Type 0) where
  abbrev IngestedHeld : Ingested L → Type 0
  IngestedHeld st = Held Q st.all_shreds

  enqueue-Held :
      (s : Shred L) (x : SlotState L) (st : Ingested L) (r : Option ℕ × ShredsStateTracker L)
      → Q s
      → SlotHeld Q x
      → All (IfSome Q) r.1.data_shreds
      → IngestedHeld st
      → IfReturns IngestedHeld (enqueue s x st r)
  unfolding enqueue
  enqueue-Held s x st (none, t) q k p h =
      Held-insert Q st.all_shreds (slot_of s) _ h (record { places = p; sets = k.sets })
  enqueue-Held s x st (some i, t) q k p h =
      IfReturns-bind _ (insert_shred L s (entry [] (fec_of s) x.fec_sets)) _
        (insert_shred-Held L Q s (entry [] (fec_of s) x.fec_sets) q (k.sets (fec_of s)))
        λ set w.
          Held-insert Q st.all_shreds (slot_of s) _ h
            (record { places = p; sets = sets-insert Q x.fec_sets (fec_of s) set k.sets w })

  abbrev slot_state : Shred L → Ingested L → SlotState L
  slot_state s st = entry (new_slot L) (slot_of s) st.all_shreds

  abbrev dropped_state : Shred L → Ingested L → Ingested L
  dropped_state s st = record st { all_shreds = insert (slot_of s) (slot_state s st) st.all_shreds }

  dropped_state-Held :
      (s : Shred L) (st : Ingested L) → IngestedHeld st → IngestedHeld (dropped_state s st)
  dropped_state-Held s st h = Held-insert Q st.all_shreds (slot_of s) _ h (h (slot_of s))

  ingest_shred-Held :
      (s : Shred L) (st : Ingested L)
      → Q s
      → IngestedHeld st
      → IfReturns IngestedHeld (ingest_shred s st)
  unfolding ingest_shred
  ingest_shred-Held s st q h = old_or (ltb (slot_of s) (st.highest_slot_seen - slot_lookback))
    where
      done_or :
          (o : Outcome Bool)
          → IfReturns IngestedHeld (
              o >>= λ done. elim done [
                | true ↦ returns (dropped_state s st)
                | false ↦
                    update_state_tracker s (slot_state s st).tracker
                    >>= enqueue s (slot_state s st) st
              ])
      done_or panics = tt
      done_or (returns true) = (dropped_state-Held s st h)
      done_or (returns false) =
          IfReturns-bind _ (update_state_tracker s (slot_state s st).tracker) _
            (update_state_tracker-Held (IfSome Q) s (slot_state s st).tracker q
              (h (slot_of s)).places)
            λ r p. enqueue-Held s (slot_state s st) st r q (h (slot_of s)) p h

      old_or :
          (b : Bool)
          → IfReturns IngestedHeld (
              if b
              then returns (dropped_state s st)
              else is_completed (fec_of s) (index_of s) (slot_state s st).tracker >>= λ done.
                  elim done [
                    | true ↦ returns (dropped_state s st)
                    | false ↦
                        update_state_tracker s (slot_state s st).tracker
                        >>= enqueue s (slot_state s st) st
                  ])
      old_or true = (dropped_state-Held s st h)
      old_or false = done_or (is_completed (fec_of s) (index_of s) (slot_state s st).tracker)

  module _ (C : Codec L) where
    ingest_bytes-Held :
        (o : Option (Shred L)) (st : Ingested L)
        → ((s : Shred L) → o ≡ some s → Q s)
        → IngestedHeld st
        → IfReturns IngestedHeld (ingest_bytes C o st)
    unfolding ingest_bytes
    ingest_bytes-Held none st q h = h
    ingest_bytes-Held (some s) st q h = ingest_shred-Held s st (q s refl) h

    ingest_data-Held :
        (o : Option (List ℕ)) (st : Ingested L)
        → ((s : Shred L) → parsed_bytes C o ≡ some s → Q s)
        → IngestedHeld st
        → IfReturns IngestedHeld (ingest_data C o st)
    unfolding ingest_data
    ingest_data-Held none st q h = h
    ingest_data-Held (some b) st q h = ingest_bytes-Held (C.parse b) st q h

    pub ingest-Held :
        (batch : List C.Packet) (st : Ingested L)
        → Brings Q C batch
        → IngestedHeld st
        → IfReturns IngestedHeld (ingest C batch st)
    unfolding ingest ingest_packet
    ingest-Held batch st q h =
        for_each-IfReturns IngestedHeld (λ p. (s : Shred L) → parsed C p ≡ some s → Q s)
          (ingest_packet C) (λ p s r k. ingest_data-Held (C.bytes p) s r k) batch st q h
