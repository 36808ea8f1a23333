-- ===== src/Reconstruct/Whole/Promise.antt =====
-- What a call of `reconstruct_shreds` (proxy/src/deshred.rs) promises.
use shredstream_proxy.Common.{
  some, [], returns, inl, inr, ap, ◌∙◌, ◌⊎◌, sym, subst, Bool, All, ltb, ◌-◌, ◌&&◌, arith, true,
  false, none, lookup, entry, or_default, get_or, if◌then◌else◌, ℕ, ◌≤◌, ◌≡◌, List, IsStrict,
}
use shredstream_proxy.Reconstruct.Deshred.Carried.{AllDecode}
use shredstream_proxy.Reconstruct.Held.{Held, SlotHeld, new_slot-SlotHeld}
use shredstream_proxy.Reconstruct.Whole.Dropped.{KeptOrNew, Onward-Later}
use shredstream_proxy.Reconstruct.Ingest.{Ingested, ingest}
use shredstream_proxy.Reconstruct.Recover.Growth.{Grows-refl}
use shredstream_proxy.Reconstruct.Recover.Won.{Won, Won-widen}
use shredstream_proxy.Reconstruct.Recover.Spared.{set_of, WonSet, Spared}
use shredstream_proxy.Reconstruct.Ingest.Accounted.{parsed, Accounted}
use shredstream_proxy.Ledger.{Ledger, Shred}
use shredstream_proxy.Reconstruct.{IfSome, new_slot, slot_lookback, Codec, Slots, SlotsValid}
use shredstream_proxy.Reconstruct.Recover.Complete.{SetDone}
use shredstream_proxy.Reconstruct.Deshred.Spans.{Span, AllApart}
use shredstream_proxy.Reconstruct.Deshred.Fresh.{IsUnmarked}
use shredstream_proxy.Reconstruct.Whole.{Reconstructed}
use shredstream_proxy.Tracker.{deshredded}
use shredstream_proxy.Reconstruct.Trackers.{tracker_of, SameMarks}
use shredstream_proxy.Reconstruct.Deshred.Spans.{Covers}
use shredstream_proxy.Reconstruct.Deshred.Fresh.{IsMarked, IsFresh, Later}
use shredstream_proxy.Reconstruct.Deshred.Exhausted.{Exhausted}

module _ {L : Ledger} where
  -- The marks of a slot stay, unless the slot is old.
  abbrev pub MarksStay : ℕ → Slots L → Slots L → Type 0
  MarksStay threshold m m' =
      (slot k : ℕ)
      → threshold ≤ slot
      → deshredded (tracker_of m slot) k ≡ true
      → deshredded (tracker_of m' slot) k ≡ true

  -- What the clean-up keeps.
  pub KeptFrom : ℕ → Slots L → Slots L → Type 0
  KeptFrom threshold m m' = (slot : ℕ) → threshold ≤ slot → lookup slot m' ≡ lookup slot m

  pub KeptFrom-if :
      (threshold : ℕ) (m m' : Slots L) (many : Bool)
      → ((slot : ℕ) → lookup slot m' ≡ (if many && ltb slot threshold then none else lookup slot m))
      → KeptFrom threshold m m'
  unfolding KeptFrom
  KeptFrom-if threshold m m' many h slot le = ground (arith, h slot)

  pub MarksStay-KeptFrom :
      (threshold : ℕ) (m m' : Slots L) → KeptFrom threshold m m' → MarksStay threshold m m'
  unfolding KeptFrom entry
  MarksStay-KeptFrom threshold m m' c slot k le h =
      subst (λ o. deshredded (or_default (new_slot L) o).tracker k ≡ true) (sym (c slot le)) h

  pub entry-KeptFrom :
      (threshold slot : ℕ) (m m' : Slots L)
      → KeptFrom threshold m m'
      → threshold ≤ slot
      → entry (new_slot L) slot m' ≡ entry (new_slot L) slot m
  unfolding KeptFrom entry
  entry-KeptFrom threshold slot m m' c le = ap (or_default (new_slot L)) (c slot le)

  pub IsUnmarked-before :
      (m m' : Slots L) (x : Span) → SameMarks m m' → IsFresh m' x → IsUnmarked m x
  IsUnmarked-before m m' x p f k a b =
      subst (λ marks. get_or marks k false ≡ false) (p x.0) (f.fresh k a b)

module _ {L : Ledger} (Q : Shred L → Type 0) where
  pub Held-Later : (m m' : Slots L) → Later m m' → Held Q m → Held Q m'
  Held-Later m m' l h slot = record {
    places = subst (All (IfSome Q)) (sym (l.same_shreds slot)) (h slot).places;
    sets = λ fec. subst (λ v. All Q (entry [] fec v)) (sym (l.same_sets slot)) ((h slot).sets fec);
  }

  pub Held-after : (m m' : Slots L) → KeptOrNew m m' → Held Q m → Held Q m'
  Held-after m m' c h slot = elim (c slot) [
    | inl same ↦ subst (SlotHeld Q) (sym same) (h slot)
    | inr new ↦ subst (SlotHeld Q) (sym new) (new_slot-SlotHeld Q)
  ]

module _ {L : Ledger} (C : Codec L) where
  -- In the slots from the threshold on, each FEC set keeps its shreds, or it was recovered and
  -- cleared.
  abbrev pub SparedFrom : ℕ → Slots L → Slots L → Type 0
  SparedFrom threshold m m' =
      (slot fec : ℕ)
      → threshold ≤ slot
      → (set_of m' slot fec ≡ set_of m slot fec)
        ⊎ ((set_of m' slot fec ≡ []) × WonSet C m m' slot fec)

  pub SparedFrom-of :
      (threshold : ℕ) (m r d c : Slots L)
      → Spared C m r
      → Later r d
      → KeptFrom threshold d c
      → SparedFrom threshold m c
  SparedFrom-of threshold m r d c p l k slot fec le =
      subst
        (λ x.
          (entry [] fec x.fec_sets ≡ set_of m slot fec)
          ⊎ ((entry [] fec x.fec_sets ≡ [])
              × Won C (set_of m slot fec) fec (tracker_of m slot) x.tracker))
        (sym (entry-KeptFrom threshold slot d c k le))
        (elim (p.sets slot fec) [
          | inl same ↦ inl (ap (entry [] fec) (l.same_sets slot) ∙ same)
          | inr (gone, won) ↦ inr (
            ap (entry [] fec) (l.same_sets slot) ∙ gone,
            Won-widen C (tracker_of m slot) (tracker_of m slot) (tracker_of r slot)
                (tracker_of d slot) (Grows-refl (tracker_of m slot))
                ((Onward-Later r d l).grows slot) won,
          )
        ])

  -- The start of a call: the batch was ingested into the slots.
  abbrev pub IngestsTo : List C.Packet → Slots L → ℕ → Ingested L → Type 0
  IngestsTo batch m highest i =
      ingest C batch
        (record { all_shreds = m; slot_fec_indexes_to_iterate = []; highest_slot_seen = highest })
      ≡ returns i

  -- What a call promises of its arguments and its result.
  pub record Promised (Q : Shred L → Type 0) (batch : List C.Packet) (m : Slots L) (highest : ℕ)
      (r : Reconstructed C) : Type 0 where
    pub slots_valid : SlotsValid r.all_shreds
    pub highest_le : highest ≤ r.highest_slot_seen
    pub queue_strict : IsStrict r.slot_fec_indexes_to_iterate
    -- The spans of shreds that the entries come from, in order.
    pub log : List Span
    -- The slots after the recovery, from whose shreds the entries are decoded.
    pub recovered_slots : Slots L
    pub decoded : AllDecode C recovered_slots r.deshredded_entries log
    pub still_stored :
        (slot : ℕ)
        → r.highest_slot_seen - slot_lookback ≤ slot
        → (tracker_of r.all_shreds slot).data_shreds ≡ (tracker_of recovered_slots slot).data_shreds
    -- All shreds are of the batch, or were held before, or are recovered from such ones.
    pub held_before : Held Q recovered_slots
    pub held : Held Q r.all_shreds
    pub apart : AllApart log
    pub ordered : All (λ x. x.1 ≤ x.2) log
    pub from : All (λ x. highest - slot_lookback ≤ x.0) log
    pub were_unmarked : All (IsUnmarked m) log
    pub are_marked :
        All (λ x. r.highest_slot_seen - slot_lookback ≤ x.0 → IsMarked r.all_shreds x) log
    pub marks_stay : MarksStay (r.highest_slot_seen - slot_lookback) m r.all_shreds
    -- Nothing else was marked.
    pub marks_from :
        (slot k : ℕ)
        → deshredded (tracker_of r.all_shreds slot) k ≡ true
        → (deshredded (tracker_of m slot) k ≡ true) ⊎ Covers log slot k
    -- Around no queued FEC set is a segment left that can be decoded.
    pub exhausted :
        All (λ k. Exhausted C (tracker_of r.all_shreds k.0) k.1) r.slot_fec_indexes_to_iterate
    -- No FEC set is cleared but those that were recovered from the shreds there after the ingestion.
    pub ingested : Ingested L
    pub ingests : IngestsTo batch m highest ingested
    pub spared : SparedFrom (r.highest_slot_seen - slot_lookback) ingested.all_shreds r.all_shreds
    -- No queued FEC set is left that could be recovered further.
    pub recovered_all : All (λ k. SetDone C k r.all_shreds) r.slot_fec_indexes_to_iterate

  -- Every shred that a packet of the batch holds is accounted for.
  abbrev pub Accounts : List C.Packet → Slots L → Reconstructed C → Type 0
  Accounts batch m r =
      All
        (λ p.
          (s : Shred L)
          → parsed C p ≡ some s
          → Accounted C batch m r.all_shreds r.highest_slot_seen r.slot_fec_indexes_to_iterate s)
        batch

  -- What a call does not leave undone: every shred of the batch is accounted for, no FEC set is
  -- cleared that was not recovered, none of the queue could be recovered further, and around none of
  -- the queue is a segment left that can be decoded.
  pub record LeavesNothing (batch : List C.Packet) (m : Slots L) (highest : ℕ) (r : Reconstructed C)
      : Type 0 where
    pub accounts : Accounts batch m r
    pub ingested : Ingested L
    pub ingests : IngestsTo batch m highest ingested
    pub spared : SparedFrom (r.highest_slot_seen - slot_lookback) ingested.all_shreds r.all_shreds
    pub recovered_all : All (λ k. SetDone C k r.all_shreds) r.slot_fec_indexes_to_iterate
    pub exhausted :
        All (λ k. Exhausted C (tracker_of r.all_shreds k.0) k.1) r.slot_fec_indexes_to_iterate
