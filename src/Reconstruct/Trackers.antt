-- ===== src/Reconstruct/Trackers.antt =====
-- The trackers in the map of slots (proxy/src/deshred.rs, `all_shreds`), and the marks of the
-- shreds that were given out.
use shredstream_proxy.Common.{
  ℕ, ℕ_discrete, entry-insert_self, entry-insert_ne, ◌≡◌, ◌≢◌, ◌∙◌, ap, subst, Bool, List, entry,
  insert,
}
use shredstream_proxy.Ledger.{Ledger}
use shredstream_proxy.Tracker.{ShredsStateTracker}
use shredstream_proxy.Reconstruct.{SlotState, Slots, new_slot}

module _ {L : Ledger} where
  abbrev pub tracker_of : Slots L → ℕ → ShredsStateTracker L
  tracker_of m slot = (entry (new_slot L) slot m).tracker

  pub tracker_of-insert_self :
      (m : Slots L) (slot : ℕ) (s : SlotState L) → tracker_of (insert slot s m) slot ≡ s.tracker
  tracker_of-insert_self m slot s = ap (λ x. x.tracker) (entry-insert_self (new_slot L) slot s m)

  pub tracker_of-insert_ne :
      (m : Slots L) (slot j : ℕ) (s : SlotState L)
      → slot ≢ j
      → tracker_of (insert slot s m) j ≡ tracker_of m j
  tracker_of-insert_ne m slot j s n =
      ap (λ x. x.tracker) (entry-insert_ne (new_slot L) slot j s m n)

  -- A slot is written back as it was, or as a new one.
  pub tracker_of-insert_back :
      (m : Slots L) (slot j : ℕ)
      → tracker_of (insert slot (entry (new_slot L) slot m) m) j ≡ tracker_of m j
  tracker_of-insert_back m slot j = elim (ℕ_discrete slot j) [
    | yes e ↦
        subst (λ i. tracker_of (insert slot (entry (new_slot L) slot m) m) i ≡ tracker_of m i) e
          (tracker_of-insert_self m slot _)
    | no n ↦ tracker_of-insert_ne m slot j _ n
  ]

  abbrev pub marks_of : Slots L → ℕ → List Bool
  marks_of m slot = (tracker_of m slot).already_deshredded

  -- Two maps with the same marks; a slot that is missing has none.
  abbrev pub SameMarks : Slots L → Slots L → Type 0
  SameMarks m m' = (slot : ℕ) → marks_of m' slot ≡ marks_of m slot

  pub SameMarks-trans : (m m' m'' : Slots L) → SameMarks m m' → SameMarks m' m'' → SameMarks m m''
  SameMarks-trans m m' m'' p q slot = q slot ∙ p slot

  -- One slot is written back with its marks.
  pub SameMarks-insert :
      (m : Slots L) (slot : ℕ) (s : SlotState L)
      → s.tracker.already_deshredded ≡ marks_of m slot
      → SameMarks m (insert slot s m)
  SameMarks-insert m slot s p j = elim (ℕ_discrete slot j) [
    | yes e ↦
        subst (λ i. marks_of (insert slot s m) i ≡ marks_of m i) e
          (ap (λ t. t.already_deshredded) (tracker_of-insert_self m slot s) ∙ p)
    | no n ↦ ap (λ t. t.already_deshredded) (tracker_of-insert_ne m slot j s n)
  ]
