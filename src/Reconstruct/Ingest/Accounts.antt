-- ===== src/Reconstruct/Ingest/Accounts.antt =====
-- Every shred of a batch that is ingested (proxy/src/deshred.rs, `reconstruct_shreds`) is accounted
-- for.
use shredstream_proxy.Common.{
  ℕ, ◌-◌, ◌≡◌, refl, sym, insert, subst, inl, inr, true, ◌||◌, Option, none, some, List, [], ◌∷◌,
  ◌++◌, Ensures, ensures, Ensures-bind, Ensures-mono, Ensures-and, for_each-Each, All, All-Any, ltb,
  Bool-cases, Key, contains, contains-append, entry, Any, All-entry, arith,
}
use shredstream_proxy.Ledger.{
  Ledger, Shred, shred_code, shred_data, IsSane, slot_of, index_of, fec_of,
}
use shredstream_proxy.Comparable.Insert.{insert_shred-IsSane}
use shredstream_proxy.Tracker.{recovered, deshredded, is_some, shred_at}
use shredstream_proxy.Reconstruct.Recover.Growth.{stored-Grows}
use shredstream_proxy.Tracker.Update.{
  is_stored, stored, stored-filled_self, stored-same_recovered, stored-filled,
  update_state_tracker-eq-updated,
}
use shredstream_proxy.Reconstruct.{
  Codec, CodecLaws, SlotsValid, Slots, SlotValid, FecSetValid, new_slot, slot_lookback,
}
use shredstream_proxy.Reconstruct.Trackers.{
  tracker_of, tracker_of-insert_self, SameMarks, SameMarks-trans,
}
use shredstream_proxy.Reconstruct.Ingest.{
  Ingested, enqueue, ingest_shred, ingest_bytes, ingest_data, ingest_packet, ingest,
}
use shredstream_proxy.Reconstruct.Ingest.Valid.{
  IngestedValid, ingest_shred-Ingests, slot-SlotValid, is_completed_lem,
}
use shredstream_proxy.Reconstruct.Ingest.Accounted.{
  parsed_bytes, parsed, FilledBy, HasPlace, IsFilled-insert, Grows-refl, Accounted, too_old,
  completed, stored_before, in_place, Fills, Grows, Fills-insert, Fills-kept, Grows-kept,
  Accounted-later,
}

module _ {L : Ledger} (C : Codec L) where
  module _ (batch : List C.Packet) (m : Slots L) where
    -- What is shown of one shred's turn.
    abbrev Accounts : Shred L → Ingested L → Ingested L → Type 0
    Accounts s st st' =
        Fills C batch m st'
        × Grows C batch m st st'
        × Accounted C batch m st'.all_shreds st'.highest_slot_seen st'.slot_fec_indexes_to_iterate s

    is_stored-Accounted :
        (s : Shred L) (st : Ingested L)
        → Fills C batch m st
        → is_stored s (tracker_of st.all_shreds (slot_of s)) ≡ true
        → Accounted C batch m st.all_shreds st.highest_slot_seen st.slot_fec_indexes_to_iterate s
    is_stored-Accounted (shred_code c) st f h = cc
    is_stored-Accounted (shred_data d) st f h =
        elim (f.filled (L.slot d.common_header) (L.index d.common_header) h) [
          | inl old ↦ stored_before old
          | inr by ↦ in_place by h
        ]

    queue_append :
        (queue : List Key) (x j : Key)
        → contains j queue ≡ true
        → contains j (queue ++ x ∷ []) ≡ true
    queue_append queue x j h = ground (arith, contains-append j queue (x ∷ []))

    queue_last : (queue : List Key) (x : Key) → contains x (queue ++ x ∷ []) ≡ true
    queue_last queue x = ground (arith, contains-append x queue (x ∷ []))

    -- A data shred that is stored has its place.
    placed :
        (s : Shred L) (slots : Slots L) (sets : List (ℕ × List (Shred L)))
        → SlotValid (entry (new_slot L) (slot_of s) slots)
        → IsSane s
        → HasPlace C
            (insert
              (slot_of s)
              (record { fec_sets = sets; tracker = stored s (tracker_of slots (slot_of s)) })
              slots)
            s
    placed (shred_code c) slots sets v h = tt
    placed (shred_data d) slots sets v h =
        subst (λ t. is_some (shred_at t (L.index d.common_header)) ≡ true)
          (sym (tracker_of-insert_self slots (L.slot d.common_header) _))
          (stored-filled_self d (tracker_of slots (L.slot d.common_header)) v.tracker_valid h)

    enqueue-Accounts :
        (s : Shred L) (st : Ingested L)
        → Any (λ p. parsed C p ≡ some s) batch
        → IsSane s
        → SlotValid (entry (new_slot L) (slot_of s) st.all_shreds)
        → Fills C batch m st
        → Ensures (Accounts s st) (
            enqueue s
              (entry (new_slot L) (slot_of s) st.all_shreds)
              st
              (some (index_of s), stored s (tracker_of st.all_shreds (slot_of s))))
    unfolding enqueue
    enqueue-Accounts s st r h v f =
        let slot_state = entry (new_slot L) (slot_of s) st.all_shreds in
        let queue = st.slot_fec_indexes_to_iterate ++ (slot_of s, fec_of s) ∷ [] in
        let by : FilledBy C batch queue (slot_of s) (index_of s) = record {
          shred = s;
          received = r;
          same_slot = refl;
          same_index = refl;
          queued = queue_last st.slot_fec_indexes_to_iterate (slot_of s, fec_of s);
        } in
        Ensures-bind _
          (insert_shred-IsSane L s (entry [] (fec_of s) slot_state.fec_sets) h
            (All-entry FecSetValid [] (fec_of s) slot_state.fec_sets (h.fec_lt, tt)
              v.fec_sets_valid).1)
          λ set p. ensures (
            Fills-insert C batch m st (slot_of s) _ _ queue f
                (stored-same_recovered s slot_state.tracker)
                (queue_append st.slot_fec_indexes_to_iterate (slot_of s, fec_of s))
                (λ k filled. elim (stored-filled s slot_state.tracker k filled) [
                  | inl old ↦ inl old
                  | inr here ↦ inr (subst (FilledBy C batch queue (slot_of s)) here by)
                ]),
            record {
              highest_le = omega arith;
              queue_grows = queue_append st.slot_fec_indexes_to_iterate (slot_of s, fec_of s);
              filled_stay =
                  IsFilled-insert C st.all_shreds (slot_of s) _
                    (stored-Grows s slot_state.tracker).filled_stay;
            },
            in_place by (placed s st.all_shreds _ v h),
          )

    ingest_shred-Accounts :
        (s : Shred L) (st : Ingested L)
        → Any (λ p. parsed C p ≡ some s) batch
        → IsSane s
        → IngestedValid st
        → SameMarks m st.all_shreds
        → Fills C batch m st
        → Ensures (Accounts s st) (ingest_shred s st)
    unfolding ingest_shred enqueue
    ingest_shred-Accounts s st r h w marks f =
        let slot_state = entry (new_slot L) (slot_of s) st.all_shreds in
        let t = slot_state.tracker in
        let v : SlotValid slot_state = slot-SlotValid (slot_of s) st.all_shreds w.slots_valid in
        elim (Bool-cases (ltb (slot_of s) (st.highest_slot_seen - slot_lookback))) [
          | inl old ↦ rw old (
              ensures (
                Fills-kept C batch m st (slot_of s) f,
                Grows-kept C batch m st (slot_of s),
                too_old (ground (arith, old)),
              ))
          | inr current ↦
              rw
                (
                  current,
                  is_completed_lem (fec_of s) (index_of s) t v.tracker_valid h.fec_lt h.index_lt,
                )
                (elim (Bool-cases (recovered t (fec_of s) || deshredded t (index_of s))) [
                  | inl done ↦ rw done (
                      ensures (
                        Fills-kept C batch m st (slot_of s) f,
                        Grows-kept C batch m st (slot_of s),
                        completed (rw (← f.same_recovered (slot_of s), ← marks (slot_of s)) done),
                      ))
                  | inr new ↦
                      rw (new, update_state_tracker-eq-updated s t v.tracker_valid h)
                        (elim (Bool-cases (recovered t (fec_of s) || is_stored s t)) [
                          | inl again ↦ rw again (
                              ensures (
                                Fills-kept C batch m st (slot_of s) f,
                                Grows-kept C batch m st (slot_of s),
                                Accounted-later C batch m s st.all_shreds _ st.highest_slot_seen
                                    st.highest_slot_seen st.slot_fec_indexes_to_iterate
                                    st.slot_fec_indexes_to_iterate
                                    (Grows-kept C batch m st (slot_of s)).filled_stay (omega arith)
                                    (λ k q. q)
                                    (is_stored-Accounted s st f (ground (arith, new, again))),
                              ))
                          | inr fresh ↦ rw fresh (enqueue-Accounts s st r h v f)
                        ])
                ])
        ]

    -- What holds between two turns of the loop.
    abbrev Progress : Ingested L → Type 0
    Progress st = IngestedValid st × SameMarks m st.all_shreds × Fills C batch m st

    abbrev Done : C.Packet → Ingested L → Type 0
    Done p st =
        (s : Shred L)
        → parsed C p ≡ some s
        → Accounted C batch m st.all_shreds st.highest_slot_seen st.slot_fec_indexes_to_iterate s

    -- What is shown of one packet's turn.
    abbrev Turns : Option (Shred L) → Ingested L → Ingested L → Type 0
    Turns o st st' =
        Progress st'
        × Grows C batch m st st'
        × ((s : Shred L)
            → o ≡ some s
            → Accounted C batch m st'.all_shreds st'.highest_slot_seen
                st'.slot_fec_indexes_to_iterate s)

    module _ (laws : CodecLaws C) where
      ingest_bytes-Turns :
          (o : Option (Shred L)) (st : Ingested L)
          → ((s : Shred L) → o ≡ some s → IsSane s)
          → ((s : Shred L) → o ≡ some s → Any (λ p. parsed C p ≡ some s) batch)
          → Progress st
          → Ensures (Turns o st) (ingest_bytes C o st)
      unfolding ingest_bytes
      ingest_bytes-Turns none st h r p = ensures (p, Grows-refl C batch m st, λ s e. cc)
      ingest_bytes-Turns (some s) st h r p =
          Ensures-mono
            (Ensures-and (ingest_shred-Ingests s st (h s refl) p.0)
              (ingest_shred-Accounts s st (r s refl) (h s refl) p.0 p.1 p.2))
            λ st' q. (
              (q.0.0, SameMarks-trans m st.all_shreds st'.all_shreds p.1 q.0.2, q.1.0),
              q.1.1,
              λ x e. subst (Accounted C batch m _ _ _) (cc (e)) q.1.2,
            )

      ingest_data-Turns :
          (o : Option (List ℕ)) (st : Ingested L)
          → ((s : Shred L) → parsed_bytes C o ≡ some s → Any (λ p. parsed C p ≡ some s) batch)
          → Progress st
          → Ensures (Turns (parsed_bytes C o) st) (ingest_data C o st)
      unfolding ingest_data ingest_bytes
      ingest_data-Turns none st r p = ensures (p, Grows-refl C batch m st, λ s e. cc)
      ingest_data-Turns (some b) st r p =
          ingest_bytes-Turns (C.parse b) st (laws.parse-IsSane b) r p

      -- With crates that sanitise, on valid slots and an empty queue, ingestion returns, and every
      -- shred that a packet of the batch holds is accounted for: its slot is more than 50 below the
      -- highest one, or its FEC set was recovered or its index given out before, or a data shred of
      -- its index was stored before, or a shred of the batch with its slot and index is there for
      -- it, whose FEC set is queued, and the place of a data shred is filled.
      pub ingest-Accounts :
          (highest : ℕ)
          → SlotsValid m
          → Ensures
              (λ st. All (λ p. Done p st) batch)
              (ingest C batch (record {
                all_shreds = m;
                slot_fec_indexes_to_iterate = [];
                highest_slot_seen = highest;
              }))
      unfolding ingest ingest_packet
      ingest-Accounts highest v =
          Ensures-mono
            (for_each-Each Progress Done (Grows C batch m) (ingest_packet C)
              (λ st. Grows-refl C batch m st)
              (λ s t u p q. record {
                highest_le = omega (arith, p.highest_le, q.highest_le);
                queue_grows = λ k h. q.queue_grows k (p.queue_grows k h);
                filled_stay = λ j k h. q.filled_stay j k (p.filled_stay j k h);
              })
              (λ p s t g d x e.
                Accounted-later C batch m x s.all_shreds t.all_shreds s.highest_slot_seen
                  t.highest_slot_seen s.slot_fec_indexes_to_iterate t.slot_fec_indexes_to_iterate
                  g.filled_stay g.highest_le g.queue_grows (d x e))
              (λ p. (s : Shred L) → parsed C p ≡ some s → Any (λ q. parsed C q ≡ some s) batch)
              (λ p s q progress. ingest_data-Turns (C.bytes p) s q progress) batch _
              (All-Any (λ p s. parsed C p ≡ some s) batch)
              (
                record { slots_valid = v; keys_valid = tt },
                λ slot. refl,
                record { same_recovered = λ slot. refl; filled = λ slot k h. inl h },
              ))
            λ st r. r.2
