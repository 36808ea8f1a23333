-- ===== src/Reconstruct/Ingest/Valid.antt =====
-- Ingestion of a batch (proxy/src/deshred.rs, `reconstruct_shreds`) returns, and keeps the slots
-- valid.
use shredstream_proxy.Common.{
  ℕ, ◌<◌, ◌≤◌, ◌-◌, ◌≡◌, refl, inl, inr, false, ◌||◌, Option, none, some, List, [], ◌∷◌, returns,
  Ensures, ensures, Ensures-bind, Ensures-mono, for_each-Ensures, at_lem, ltb, Bool-cases, Key,
  entry, insert, All, All-append, All-insert, All-entry, arith,
}
use shredstream_proxy.Ledger.{Ledger, Shred, IsSane, slot_of, index_of, fec_of}
use shredstream_proxy.Comparable.Insert.{insert_shred-IsSane}
use shredstream_proxy.Tracker.{ShredsStateTracker, recovered, deshredded}
use shredstream_proxy.Tracker.Invariant.{IsValid}
use shredstream_proxy.Tracker.Update.{update_state_tracker-Extends}
use shredstream_proxy.Reconstruct.{
  Codec, CodecLaws, SlotState, Slots, SlotsValid, SlotValid, FecSetValid, new_slot,
  new_slot-SlotValid, slot_lookback,
}
use shredstream_proxy.Reconstruct.Trackers.{marks_of, SameMarks, SameMarks-trans, SameMarks-insert}
use shredstream_proxy.Reconstruct.Ingest.{
  Ingested, is_completed, enqueue, ingest_shred, ingest_bytes, ingest_data, ingest_packet, ingest,
}

-- A queued FEC set index is within the tracker's vectors.
abbrev pub KeyValid : Ledger → Key → Type 0
KeyValid L k = k.1 < L.max_data_shreds_per_slot

module _ {L : Ledger} where
  pub record IngestedValid (st : Ingested L) : Type 0 where
    pub slots_valid : SlotsValid st.all_shreds
    pub keys_valid : All (KeyValid L) st.slot_fec_indexes_to_iterate

  -- Where all queued slots are from `n` on, and `n` is not above the old slots, they stay so.
  abbrev pub KeepsFrom : Ingested L → Ingested L → Type 0
  KeepsFrom st st' =
      (n : ℕ)
      → n ≤ st.highest_slot_seen - slot_lookback
      → All (λ k. n ≤ k.0) st.slot_fec_indexes_to_iterate
      → All (λ k. n ≤ k.0) st'.slot_fec_indexes_to_iterate

  -- One round keeps the state valid and all marks of shreds that were given out, and the highest slot
  -- seen does not fall; no shred of an old slot is queued.
  abbrev pub Ingests : Ingested L → Ingested L → Type 0
  Ingests st st' =
      IngestedValid st'
      × (st.highest_slot_seen ≤ st'.highest_slot_seen)
      × SameMarks st.all_shreds st'.all_shreds
      × KeepsFrom st st'

  pub slot-SlotValid : (k : ℕ) (m : Slots L) → SlotsValid m → SlotValid (entry (new_slot L) k m)
  slot-SlotValid k m h = All-entry (λ j s. SlotValid s) (new_slot L) k m (new_slot-SlotValid L) h

  pub is_completed_lem :
      (fec index : ℕ) (t : ShredsStateTracker L)
      → IsValid t
      → fec < L.max_data_shreds_per_slot
      → index < L.max_data_shreds_per_slot
      → is_completed fec index t ≡ returns (recovered t fec || deshredded t index)
  unfolding is_completed
  is_completed_lem fec index t v f i = ground (
    arith,
    at_lem t.already_recovered_fec_sets fec false,
    at_lem t.already_deshredded index false,
  )

  enqueue-Ingests :
      (shred : Shred L) (s : SlotState L) (st : Ingested L) (r : Option ℕ)
      (t : ShredsStateTracker L)
      → IsSane shred
      → SlotValid s
      → IngestedValid st
      → IsValid t
      → t.already_deshredded ≡ marks_of st.all_shreds (slot_of shred)
      → st.highest_slot_seen - slot_lookback ≤ slot_of shred
      → Ensures (Ingests st) (enqueue shred s st (r, t))
  unfolding enqueue
  enqueue-Ingests shred s st none t h v w u e le = ensures (
    record {
      slots_valid =
          All-insert (λ j x. SlotValid x) (slot_of shred) (record s { tracker = t }) st.all_shreds
            (record { fec_sets_valid = v.fec_sets_valid; tracker_valid = u }) w.slots_valid;
      keys_valid = w.keys_valid;
    },
    omega arith,
    SameMarks-insert st.all_shreds (slot_of shred) (record s { tracker = t }) e,
    λ n m q. q,
  )
  enqueue-Ingests shred s st (some i) t h v w u e le =
      Ensures-bind _
        (insert_shred-IsSane L shred (entry [] (fec_of shred) s.fec_sets) h
          (All-entry FecSetValid [] (fec_of shred) s.fec_sets (h.fec_lt, tt) v.fec_sets_valid).1)
        λ set p. ensures (
          record {
            slots_valid =
                All-insert (λ j x. SlotValid x) (slot_of shred) _ st.all_shreds
                  (record {
                    fec_sets_valid =
                        All-insert FecSetValid (fec_of shred) set s.fec_sets (h.fec_lt, p.0)
                          v.fec_sets_valid;
                    tracker_valid = u;
                  })
                  w.slots_valid;
            keys_valid =
                All-append (KeyValid L) st.slot_fec_indexes_to_iterate _ w.keys_valid
                  (h.fec_lt, tt);
          },
          omega arith,
          SameMarks-insert st.all_shreds (slot_of shred)
              (record s { fec_sets = insert (fec_of shred) set s.fec_sets; tracker = t }) e,
          λ n m q.
              All-append (λ k. n ≤ k.0) st.slot_fec_indexes_to_iterate _ q
                (omega (arith, m, le), tt),
        )

  pub ingest_shred-Ingests :
      (shred : Shred L) (st : Ingested L)
      → IsSane shred
      → IngestedValid st
      → Ensures (Ingests st) (ingest_shred shred st)
  unfolding ingest_shred
  ingest_shred-Ingests shred st h w =
      let s = entry (new_slot L) (slot_of shred) st.all_shreds in
      let v : SlotValid s = slot-SlotValid (slot_of shred) st.all_shreds w.slots_valid in
      let kept : Ingests st (record st { all_shreds = insert (slot_of shred) s st.all_shreds }) = (
        record {
          slots_valid =
              All-insert (λ j x. SlotValid x) (slot_of shred) s st.all_shreds v w.slots_valid;
          keys_valid = w.keys_valid;
        },
        omega arith,
        SameMarks-insert st.all_shreds (slot_of shred) s refl,
        λ n m q. q,
      ) in
      elim (Bool-cases (ltb (slot_of shred) (st.highest_slot_seen - slot_lookback))) [
        | inl old ↦ rw old (ensures kept)
        | inr current ↦
            rw
              (
                current,
                is_completed_lem (fec_of shred) (index_of shred) s.tracker v.tracker_valid h.fec_lt
                    h.index_lt,
              )
              (elim (Bool-cases
                (recovered s.tracker (fec_of shred) || deshredded s.tracker (index_of shred))) [
                  | inl done ↦ rw done (ensures kept)
                  | inr new ↦ rw new (
                      Ensures-bind _
                        (update_state_tracker-Extends shred s.tracker v.tracker_valid h)
                        λ r p.
                          enqueue-Ingests shred s st r.0 r.1 h v w p.0 p.1.same_deshredded
                            (ground (arith, current)))
                ])
      ]

module _ {L : Ledger} (C : Codec L) (laws : CodecLaws C) where
  ingest_bytes-Ingests :
      (o : Option (Shred L)) (st : Ingested L)
      → ((s : Shred L) → o ≡ some s → IsSane s)
      → IngestedValid st
      → Ensures (Ingests st) (ingest_bytes C o st)
  unfolding ingest_bytes
  ingest_bytes-Ingests none st h v = ensures (v, omega arith, λ slot. refl, λ n m q. q)
  ingest_bytes-Ingests (some s) st h v = ingest_shred-Ingests s st (h s refl) v

  ingest_data-Ingests :
      (o : Option (List ℕ)) (st : Ingested L)
      → IngestedValid st
      → Ensures (Ingests st) (ingest_data C o st)
  unfolding ingest_data
  ingest_data-Ingests none st v = ensures (v, omega arith, λ slot. refl, λ n m q. q)
  ingest_data-Ingests (some b) st v = ingest_bytes-Ingests (C.parse b) st (laws.parse-IsSane b) v

  All-any : (xs : List C.Packet) → All (λ p. Unit {0}) xs
  All-any [] = tt
  All-any (x ∷ xs) = (tt, All-any xs)

  -- On a valid state, and with crates that sanitise, ingestion of any batch returns, keeps all
  -- slots and queued keys valid and all marks of shreds that were given out, never lowers the
  -- highest slot seen, and queues no shred of an old slot.
  pub ingest-Ingests :
      (batch : List C.Packet) (st : Ingested L)
      → IngestedValid st
      → Ensures (Ingests st) (ingest C batch st)
  unfolding ingest ingest_packet
  ingest-Ingests batch st v =
      for_each-Ensures (Ingests st) (λ p. Unit {0}) (ingest_packet C)
        (λ p s q h. Ensures-mono (ingest_data-Ingests (C.bytes p) s h.0) λ s' r. (
          r.0,
          omega (arith, h.1, r.1),
          SameMarks-trans st.all_shreds s.all_shreds s'.all_shreds h.2 r.2,
          λ n m q. r.3 n (omega (arith, m, h.1)) (h.3 n m q),
        ))
        batch st (All-any batch) (v, omega arith, λ slot. refl, λ n m q. q)
