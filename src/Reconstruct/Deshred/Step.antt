-- ===== src/Reconstruct/Deshred/Step.antt =====
-- One FEC set's turn in the deshredding loop (proxy/src/deshred.rs, `reconstruct_shreds`): either
-- nothing but the metrics changes and there is nothing left to deliver, or one segment is delivered
-- and marked.
use shredstream_proxy.Common.{
  ℕ, suc, ◌-◌, ◌≤◌, ◌≡◌, refl, sym, ap, ◌∙◌, inl, inr, Bool, Option, none, some, List, [], ◌∷◌,
  ◌++◌, Ensures, ensures, Ensures-bind, length, map, take, drop, below_or, Option-cases, subst, ◌≢◌,
  entry, insert, All-entry, arith,
}
use shredstream_proxy.Ledger.{Ledger, Shred, payload}
use shredstream_proxy.Tracker.{ShredsStateTracker, unknown, status}
use shredstream_proxy.Tracker.Invariant.{IsValid}
use shredstream_proxy.Segments.{Bounds}
use shredstream_proxy.Segments.Spec.{IsSegment}
use shredstream_proxy.Segments.Completeness.{Found, get_indexes-Found}
use shredstream_proxy.Metrics.{ShredMetrics}
use shredstream_proxy.Reconstruct.{
  Codec, SlotState, SlotsValid, SlotValid, new_slot, new_slot-SlotValid,
}
use shredstream_proxy.Reconstruct.Deshred.{
  Deshredded, payloads, deshred_segment, finish_segment, deshred_bounds, deshred_fec_set,
}
use shredstream_proxy.Reconstruct.Deshred.Exhausted.{Exhausted, Exhausted-failed}
use shredstream_proxy.Reconstruct.Deshred.Marks.{
  HoldsFrom, Marks, slice-HoldsFrom, unwrap_all-returns, mark_all-Marks,
}

payloads_lem : {L : Ledger} (xs : List (Shred L)) → payloads xs ≡ map payload xs
payloads_lem [] = refl
payloads_lem (x ∷ xs) = ap (λ ps. payload x ∷ ps) (payloads_lem xs)

module _ {L : Ledger} (C : Codec L) where
  pub data Step (slot fec : ℕ) (st : Deshredded C) : Deshredded C → Type 0 where
    idle :
        {st' : Deshredded C}
        → st'.all_shreds ≡ insert slot (entry (new_slot L) slot st.all_shreds) st.all_shreds
        → st'.deshredded_entries ≡ st.deshredded_entries
        → Exhausted C (entry (new_slot L) slot st.all_shreds).tracker fec
        → Step slot fec st st'
    deliver :
        {st' : Deshredded C} (start end : ℕ) (u : Bool) (t : ShredsStateTracker L)
        (shreds : List (Shred L)) (entries : List C.Entry) (bytes : List ℕ)
        → IsSegment (entry (new_slot L) slot st.all_shreds).tracker fec start end u
        → Marks start (suc end - start) (entry (new_slot L) slot st.all_shreds).tracker t
        → map some shreds
          ≡ take
              (suc end - start)
              (drop start (entry (new_slot L) slot st.all_shreds).tracker.data_shreds)
        → HoldsFrom start (map some shreds)
        → length (map some shreds) ≡ suc end - start
        → C.deshred (map payload shreds) ≡ some bytes
        → C.deserialize bytes ≡ some entries
        → st'.all_shreds
          ≡ insert slot
              (record (entry (new_slot L) slot st.all_shreds) { tracker = t })
              st.all_shreds
        → st'.deshredded_entries ≡ st.deshredded_entries ++ (slot, entries, bytes) ∷ []
        → Step slot fec st st'

  module _ (slot fec : ℕ) (st : Deshredded C) (start end : ℕ) (u : Bool) where
    abbrev here : SlotState L
    here = entry (new_slot L) slot st.all_shreds

    finish-Step :
        (os : List (Option (Shred L))) (xs : List (Shred L)) (m : ShredMetrics)
        → IsSegment here.tracker fec start end u
        → IsValid here.tracker
        → HoldsFrom start os
        → length os ≡ suc end - start
        → map some xs ≡ os
        → map some xs ≡ take (suc end - start) (drop start here.tracker.data_shreds)
        → Ensures
            (Step slot fec st)
            (finish_segment C slot os here st (deshred_segment C u m (C.deshred (map payload xs))))
    unfolding finish_segment
    finish-Step os xs m g v h n o q = elim (Option-cases (C.deshred (map payload xs))) [
      | inl e ↦ rw e (ensures (idle refl refl (Exhausted-failed C xs g q λ x es p r. cc)))
      | inr (b, e) ↦ rw e (elim (Option-cases (C.deserialize b)) [
        | inl f ↦ rw f (ensures (idle refl refl (Exhausted-failed C xs g q λ x es p r. cc)))
        | inr (es, f) ↦ rw f (
            Ensures-bind _ (mark_all-Marks start os here.tracker v h) λ t p. ensures (
              deliver start end u t xs es b g (subst (λ i. Marks start i here.tracker t) n p) q
                (subst (HoldsFrom start) (sym o) h) (ap length o ∙ n) e f refl refl))
      ])
    ]

    inside :
        {t : ShredsStateTracker L}
        → IsSegment t fec start end u
        → (k : ℕ) → start ≤ k
        → k ≤ end
        → status t k ≢ unknown
    inside g k a b h = elim (below_or k end) [
      | inl lt ↦ ground (arith, g.inner k a lt)
      | inr le ↦ ground (arith, g.last)
    ]

    bounds-Step :
        IsSegment here.tracker fec start end u
        → IsValid here.tracker
        → Ensures (Step slot fec st) (deshred_bounds C slot here st (some (start, end, u)))
    unfolding deshred_bounds
    bounds-Step g v =
        Ensures-bind _
          (slice-HoldsFrom here.tracker start end v (omega (arith, g.start_le, g.le_end)) g.in_range
            (inside g))
          λ os p.
            Ensures-bind _ (unwrap_all-returns start os p.0)
              λ xs q. rw (payloads_lem xs) (finish-Step os xs _ g v p.0 p.1 q (q ∙ p.2))

  -- On valid slots, one turn of the loop returns. Either it pushes nothing and leaves the slot as
  -- it was (a new one if it was missing), and then no complete unmarked segment around the FEC
  -- set's first index can be decoded; or it pushes the entries decoded from the payloads of the one
  -- segment around the FEC set's first index, in order, and marks exactly its shreds.
  pub deshred_fec_set-Step :
      (slot fec : ℕ) (st : Deshredded C)
      → SlotsValid st.all_shreds
      → Ensures (Step slot fec st) (deshred_fec_set C (slot, fec) st)
  unfolding deshred_fec_set
  deshred_fec_set-Step slot fec st w =
      let s = entry (new_slot L) slot st.all_shreds in
      let v : SlotValid s =
        All-entry (λ j x. SlotValid x) (new_slot L) slot st.all_shreds (new_slot-SlotValid L) w in
      Ensures-bind _
        (get_indexes-Found s.tracker
          (v.tracker_valid.deshredded_length ∙ sym v.tracker_valid.status_length) fec)
        (found v)
    where
      found :
          SlotValid (entry (new_slot L) slot st.all_shreds)
          → (o : Option Bounds) → Found (entry (new_slot L) slot st.all_shreds).tracker fec o
          → Ensures
              (Step slot fec st)
              (deshred_bounds C slot (entry (new_slot L) slot st.all_shreds) st o)
      found v none p =
          unfold deshred_bounds in ensures (idle refl refl λ a b u g. absurd (p a b u g))
      found v (some (start, end, u)) p = bounds-Step slot fec st start end u p v.tracker_valid
