-- ===== src/Reconstruct/Deshred/Once.antt =====
-- The deshredding loop (proxy/src/deshred.rs, `reconstruct_shreds`) delivers complete segments, no
-- shred twice, and leaves nothing that it could deliver.
use shredstream_proxy.Common.{ℕ, ◌≤◌, List, Ensures, Ensures-mono, arith, for_each-Each, Key, All}
use shredstream_proxy.Ledger.{Ledger}
use shredstream_proxy.Reconstruct.{Codec, Slots, SlotsValid}
use shredstream_proxy.Reconstruct.Deshred.{Deshredded, deshred_fec_set, deshred_all}
use shredstream_proxy.Reconstruct.Deshred.Step.{Step, idle, deliver, deshred_fec_set-Step}
use shredstream_proxy.Reconstruct.Trackers.{tracker_of}
use shredstream_proxy.Reconstruct.Deshred.Exhausted.{
  Kept, Exhausted, Exhausted-later, Exhausted-marked,
}
use shredstream_proxy.Reconstruct.Deshred.Fresh.{Later, Later-refl, Later-trans, IsMarked-Marks}
use shredstream_proxy.Reconstruct.Deshred.Delivered.{
  Delivered, Delivered-refl, Step-Later, Step-Delivered,
}

module _ {L : Ledger} (C : Codec L) where
  -- What is left of a FEC set's segment after its turn.
  abbrev pub IsDone : Key → Deshredded C → Type 0
  IsDone k st = Exhausted C (tracker_of st.all_shreds k.0) k.1

  Kept-Later :
      {m m' : Slots L} → Later m m' → (slot : ℕ) → Kept (tracker_of m slot) (tracker_of m' slot)
  Kept-Later l slot = record {
    same_status = l.same_status slot;
    same_shreds = l.same_shreds slot;
    marks_stay = λ k. l.marks_stay slot k;
  }

  Step-IsDone :
      (slot fec : ℕ) (st st' : Deshredded C) → Step C slot fec st st' → IsDone (slot, fec) st'
  Step-IsDone slot fec st st' (idle e f x) =
      Exhausted-later C (Kept-Later (Step-Later C slot fec st st' (idle e f x)) slot) x
  Step-IsDone slot fec st st' (deliver a b u t shreds entries bytes g p q h c x y e f) =
      Exhausted-marked C (
        rw e (
          IsMarked-Marks st.all_shreds slot a b t (omega (arith, g.start_le, g.le_end)) p fec
            g.start_le g.le_end))

  -- On valid slots, the loop over any queue of slots not below `n` returns, and what it pushes are
  -- segments of such slots that were complete and unmarked when it began, are marked when it ends,
  -- and share no shred with one another; the entries pushed are, in order, decoded from the
  -- payloads of exactly the data shreds of these segments, and nothing else is marked. For no FEC
  -- set of the queue is a complete unmarked segment around its first index left, unless its shreds
  -- cannot be decoded.
  pub deshred_all-Delivered :
      (n : ℕ) (keys : List Key) (st : Deshredded C)
      → All (λ k. n ≤ k.0) keys
      → SlotsValid st.all_shreds
      → Ensures (λ st'. Delivered C n st st' × All (λ k. IsDone k st') keys) (deshred_all C keys st)
  unfolding deshred_all
  deshred_all-Delivered n keys st h v =
      Ensures-mono
        (for_each-Each (Delivered C n st) IsDone (λ s t. Later s.all_shreds t.all_shreds)
          (deshred_fec_set C) (λ s. Later-refl s.all_shreds) (λ s t u p q. Later-trans p q)
          (λ k s t l e. Exhausted-later C (Kept-Later l k.0) e) (λ k. n ≤ k.0)
          (λ k s q d. Ensures-mono (deshred_fec_set-Step C k.0 k.1 s d.slots_valid) λ s' step. (
            Step-Delivered C n st s s' k.0 k.1 q d step,
            Step-Later C k.0 k.1 s s' step,
            Step-IsDone k.0 k.1 s s' step,
          ))
          keys st h (Delivered-refl C n st v))
        λ s r. (r.0, r.2)
