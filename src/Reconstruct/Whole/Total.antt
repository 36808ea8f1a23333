-- ===== src/Reconstruct/Whole/Total.antt =====
-- `reconstruct_shreds` (proxy/src/deshred.rs) as a whole: what one call keeps and delivers.
use shredstream_proxy.Common.{
  Ensures-and, Ensures-known, Ensures-IfReturns, ap, Ensures-mono, ◌∙◌, contains-sort_dedup, inl,
  inr, sym, subst, ◌-◌, arith, true, false, get_or, All-mono, ℕ, ◌≤◌, ◌≡◌, List, Ensures, ensures,
  Ensures-bind, sort_dedup, sort_dedup-All, sort_dedup-IsStrict,
}
use shredstream_proxy.Reconstruct.Deshred.Carried.{AllDecode}
use shredstream_proxy.Reconstruct.Held.{Held, IsClosed, Brings}
use shredstream_proxy.Reconstruct.Ingest.Held.{ingest-Held}
use shredstream_proxy.Reconstruct.Recover.Held.{recover_all-Held}
use shredstream_proxy.Tracker.{is_some, shred_at}
use shredstream_proxy.Reconstruct.Ingest.Accounted.{Accounted-later, Accounted-recent}
use shredstream_proxy.Reconstruct.Ingest.Accounts.{ingest-Accounts}
use shredstream_proxy.Ledger.{Ledger, Shred}
use shredstream_proxy.Metrics.{ShredMetrics}
use shredstream_proxy.Reconstruct.{slot_lookback, Codec, CodecLaws, Slots, SlotsValid}
use shredstream_proxy.Reconstruct.Ingest.Valid.{KeyValid, ingest-Ingests}
use shredstream_proxy.Reconstruct.Recover.Complete.{SetDone-later, recover_all-Done}
use shredstream_proxy.Reconstruct.Deshred.Once.{deshred_all-Delivered}
use shredstream_proxy.Reconstruct.Cleanup.Laws.{cleanup_lem}
use shredstream_proxy.Reconstruct.Whole.{reconstruct_shreds}
use shredstream_proxy.Reconstruct.Trackers.{tracker_of, SameMarks-trans}
use shredstream_proxy.Reconstruct.Whole.Dropped.{
  KeptOrNew-of, marked_before, Exhausted-after, SetDone-after, Onward-Later,
}
use shredstream_proxy.Reconstruct.Whole.Promise.{
  KeptFrom-if, MarksStay-KeptFrom, entry-KeptFrom, Held-Later, Held-after, SparedFrom-of,
  IsUnmarked-before, Promised, Accounts,
}

module _ {L : Ledger} (C : Codec L) (Q : Shred L → Type 0) (closed : IsClosed Q C) where
  reconstruct_shreds_lem :
      (laws : CodecLaws C) (batch : List C.Packet) (all_shreds : Slots L) (highest : ℕ)
      (metrics : ShredMetrics)
      → SlotsValid all_shreds
      → Held Q all_shreds
      → Brings Q C batch
      → Ensures
          (λ r. Promised C Q batch all_shreds highest r × Accounts C batch all_shreds r)
          (reconstruct_shreds C batch all_shreds highest metrics)
  unfolding reconstruct_shreds
  reconstruct_shreds_lem laws batch all_shreds highest metrics v held brings =
      Ensures-bind _
        (Ensures-known (
          Ensures-IfReturns
            (Ensures-and
              (ingest-Ingests C laws batch _ (record { slots_valid = v; keys_valid = tt }))
              (ingest-Accounts C batch all_shreds laws highest v))
            (ingest-Held Q C batch _ brings held)))
        λ i ((p, held_i), ingests).
          Ensures-bind _
            (Ensures-IfReturns
              (recover_all-Done C laws (sort_dedup i.slot_fec_indexes_to_iterate) _
                (sort_dedup-All (KeyValid L) i.slot_fec_indexes_to_iterate p.0.0.keys_valid)
                p.0.0.slots_valid)
              (recover_all-Held Q C closed (sort_dedup i.slot_fec_indexes_to_iterate) _ held_i))
            λ r (q, held_r).
              Ensures-bind _
                (deshred_all-Delivered C (highest - slot_lookback)
                  (sort_dedup i.slot_fec_indexes_to_iterate) _
                  (sort_dedup-All (λ k. highest - slot_lookback ≤ k.0) i.slot_fec_indexes_to_iterate
                    (p.0.3 (highest - slot_lookback) (omega arith) tt))
                  q.0.0)
                λ d w.
                  Ensures-bind _ (cleanup_lem i.highest_slot_seen d.all_shreds w.0.slots_valid)
                    λ c z.
                      let keys = sort_dedup i.slot_fec_indexes_to_iterate in
                      let same = SameMarks-trans all_shreds i.all_shreds r.all_shreds p.0.2 q.0.1 in
                      let n = i.highest_slot_seen - slot_lookback in
                      let cleaned = KeptOrNew-of d.all_shreds c.0 _ z.1 in
                      let kept = KeptFrom-if n d.all_shreds c.0 _ z.1 in
                      let stay = MarksStay-KeptFrom n d.all_shreds c.0 kept in
                      let before : (slot : ℕ)
                          → n ≤ slot
                          → tracker_of c.0 slot ≡ tracker_of d.all_shreds slot =
                        λ slot le.
                          ap (λ x. x.tracker) (entry-KeptFrom n slot d.all_shreds c.0 kept le) in
                      ensures (
                        record {
                          slots_valid = z.0;
                          highest_le = p.0.1;
                          queue_strict = sort_dedup-IsStrict i.slot_fec_indexes_to_iterate;
                          log = w.0.log;
                          recovered_slots = r.all_shreds;
                          decoded =
                              subst (λ es. AllDecode C r.all_shreds es w.0.log) (sym w.0.pushed)
                                w.0.decoded;
                          still_stored = λ slot le.
                              ap (λ t. t.data_shreds) (before slot le) ∙ w.0.later.same_shreds slot;
                          held_before = held_r;
                          held =
                              Held-after Q d.all_shreds c.0 cleaned
                                (Held-Later Q r.all_shreds d.all_shreds w.0.later held_r);
                          apart = w.0.apart;
                          ordered = All-mono _ _ w.0.log (λ x f. f.ordered) w.0.were_fresh;
                          from = w.0.from;
                          were_unmarked =
                              All-mono _ _ w.0.log
                                (λ x f. IsUnmarked-before all_shreds r.all_shreds x same f)
                                w.0.were_fresh;
                          are_marked =
                              All-mono _ _ w.0.log (λ x f le k a b. stay x.0 k le (f k a b))
                                w.0.are_marked;
                          marks_stay = λ slot k le h. stay slot k le (
                              w.0.later.marks_stay slot k
                                (subst (λ marks. get_or marks k false ≡ true) (sym (same slot)) h));
                          marks_from = λ slot k h.
                              elim (w.0.marks_from slot k
                                (marked_before d.all_shreds c.0 cleaned slot k h)) [
                                  | inl old ↦
                                      inl (
                                        subst (λ marks. get_or marks k false ≡ true) (same slot)
                                          old)
                                  | inr new ↦ inr new
                                ];
                          exhausted =
                              All-mono _ _ keys
                                (λ k e. Exhausted-after C d.all_shreds c.0 k.0 k.1 cleaned e) w.1;
                          ingested = i;
                          ingests = ingests;
                          spared =
                              SparedFrom-of C n i.all_shreds r.all_shreds d.all_shreds c.0 q.1
                                w.0.later kept;
                          recovered_all =
                              All-mono _ _ keys
                                (λ k e. SetDone-after C k d.all_shreds c.0 cleaned (
                                  SetDone-later C k r.all_shreds d.all_shreds
                                    (Onward-Later r.all_shreds d.all_shreds w.0.later) e))
                                q.2;
                        },
                        All-mono _ _ batch
                            (λ x h s e.
                              Accounted-recent C batch all_shreds s i.all_shreds c.0
                                i.highest_slot_seen keys
                                (λ slot k le f.
                                  let later = Onward-Later r.all_shreds d.all_shreds w.0.later in
                                  let deshreds = later.grows slot in
                                  let recovers = q.1.grows slot in
                                  subst (λ t. is_some (shred_at t k) ≡ true) (sym (before slot le))
                                    (deshreds.filled_stay k (recovers.filled_stay k f)))
                                (Accounted-later C batch all_shreds s i.all_shreds i.all_shreds
                                  i.highest_slot_seen i.highest_slot_seen
                                  i.slot_fec_indexes_to_iterate keys (λ slot k f. f) (omega arith)
                                  (λ k q. contains-sort_dedup k i.slot_fec_indexes_to_iterate ∙ q)
                                  (h s e)))
                            p.1,
                      )

  pub reconstruct_shreds-Promised :
      (laws : CodecLaws C) (batch : List C.Packet) (all_shreds : Slots L) (highest : ℕ)
      (metrics : ShredMetrics)
      → SlotsValid all_shreds
      → Held Q all_shreds
      → Brings Q C batch
      → Ensures
          (Promised C Q batch all_shreds highest)
          (reconstruct_shreds C batch all_shreds highest metrics)
  reconstruct_shreds-Promised laws batch all_shreds highest metrics v held brings =
      Ensures-mono (reconstruct_shreds_lem laws batch all_shreds highest metrics v held brings)
        λ r p. p.0
