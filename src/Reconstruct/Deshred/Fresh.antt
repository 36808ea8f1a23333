-- ===== src/Reconstruct/Deshred/Fresh.antt =====
-- Fresh and marked spans, and what the deshredding loop (proxy/src/deshred.rs) keeps of the slots.
use shredstream_proxy.Common.{
  ℕ, suc, max, below_or, ℕ_discrete, ◌-◌, ◌≤◌, ◌<◌, ◌≡◌, refl, sym, ◌∙◌, subst, ◌⊎◌, inl, inr, Bool,
  true, false, [], ◌∷◌, entry, entry-insert_self, entry-insert_ne, ap, insert, arith,
}
use shredstream_proxy.Ledger.{Ledger}
use shredstream_proxy.Tracker.{
  ShredsStateTracker, not_data_complete, data_complete, status, deshredded, recovered,
}
use shredstream_proxy.Segments.Spec.{IsSegment}
use shredstream_proxy.Reconstruct.{SlotState, Slots, new_slot}
use shredstream_proxy.Reconstruct.Trackers.{
  tracker_of, tracker_of-insert_self, tracker_of-insert_ne,
}
use shredstream_proxy.Reconstruct.Deshred.Marks.{Marks}
use shredstream_proxy.Reconstruct.Deshred.Spans.{Span, clash, Apart, Covers}

module _ {L : Ledger} where
  -- A complete segment of the slot, not marked.
  pub record IsFresh (m : Slots L) (x : Span) : Type 0 where
    pub ordered : x.1 ≤ x.2
    pub inner : (k : ℕ) → x.1 ≤ k → k < x.2 → status (tracker_of m x.0) k ≡ not_data_complete
    pub last : status (tracker_of m x.0) x.2 ≡ data_complete
    pub fresh : (k : ℕ) → x.1 ≤ k → k ≤ x.2 → deshredded (tracker_of m x.0) k ≡ false

  abbrev pub IsMarked : Slots L → Span → Type 0
  IsMarked m x = (k : ℕ) → x.1 ≤ k → k ≤ x.2 → deshredded (tracker_of m x.0) k ≡ true

  -- From one map of slots to a later one: marks stay, statuses and stored shreds do not change.
  pub record Later (m m' : Slots L) : Type 0 where
    pub marks_stay :
        (slot k : ℕ)
        → deshredded (tracker_of m slot) k ≡ true
        → deshredded (tracker_of m' slot) k ≡ true
    pub same_status :
        (slot : ℕ) → (tracker_of m' slot).data_status ≡ (tracker_of m slot).data_status
    pub same_shreds :
        (slot : ℕ) → (tracker_of m' slot).data_shreds ≡ (tracker_of m slot).data_shreds
    pub recovered_stay :
        (slot k : ℕ)
        → recovered (tracker_of m slot) k ≡ true
        → recovered (tracker_of m' slot) k ≡ true
    pub same_sets :
        (slot : ℕ) → (entry (new_slot L) slot m').fec_sets ≡ (entry (new_slot L) slot m).fec_sets

  -- A span that is fresh later was fresh before.
  pub IsFresh-before : {m m' : Slots L} {x : Span} → Later m m' → IsFresh m' x → IsFresh m x
  IsFresh-before {m} {m'} {x} l f = record {
    ordered = f.ordered;
    inner = λ k a b. rw (← l.same_status x.0) (f.inner k a b);
    last = rw (← l.same_status x.0) f.last;
    fresh = λ k a b. ground (arith, f.fresh k a b, l.marks_stay x.0 k);
  }

  -- No shred of the span was given out.
  abbrev pub IsUnmarked : Slots L → Span → Type 0
  IsUnmarked m x = (k : ℕ) → x.1 ≤ k → k ≤ x.2 → deshredded (tracker_of m x.0) k ≡ false

  -- A marked span and an unmarked one are apart.
  pub Apart-of_unmarked :
      (m : Slots L) (x y : Span) → x.1 ≤ x.2 → y.1 ≤ y.2 → IsMarked m x → IsUnmarked m y → Apart x y
  Apart-of_unmarked m x y h h' p f = elim (below_or x.2 y.1) [
    | inl lt ↦ inr (inl lt)
    | inr le ↦ elim (below_or y.2 x.1) [
      | inl lt ↦ inr (inr lt)
      | inr le' ↦ inl (λ e.
          clash
            (subst (λ s. deshredded (tracker_of m s) (max x.1 y.1) ≡ true) e
              (p (max x.1 y.1) (omega arith) (omega arith)))
            (f (max x.1 y.1) (omega arith) (omega arith)))
    ]
  ]

  pub Apart-of : (m : Slots L) (x y : Span) → x.1 ≤ x.2 → IsMarked m x → IsFresh m y → Apart x y
  Apart-of m x y h p f = Apart-of_unmarked m x y h f.ordered p f.fresh

  pub Later-refl : (m : Slots L) → Later m m
  Later-refl m = record {
    marks_stay = λ slot k h. h;
    same_status = λ slot. refl;
    same_shreds = λ slot. refl;
    recovered_stay = λ slot k h. h;
    same_sets = λ slot. refl;
  }

  pub Later-trans : {m m' m'' : Slots L} → Later m m' → Later m' m'' → Later m m''
  Later-trans p q = record {
    marks_stay = λ slot k h. q.marks_stay slot k (p.marks_stay slot k h);
    same_status = λ slot. q.same_status slot ∙ p.same_status slot;
    same_shreds = λ slot. q.same_shreds slot ∙ p.same_shreds slot;
    recovered_stay = λ slot k h. q.recovered_stay slot k (p.recovered_stay slot k h);
    same_sets = λ slot. q.same_sets slot ∙ p.same_sets slot;
  }

  -- One slot is written back with a tracker of the same statuses and no fewer marks.
  pub Later-insert :
      (m : Slots L) (slot : ℕ) (s : SlotState L)
      → s.tracker.data_status ≡ (tracker_of m slot).data_status
      → s.tracker.data_shreds ≡ (tracker_of m slot).data_shreds
      → ((k : ℕ) → deshredded (tracker_of m slot) k ≡ true → deshredded s.tracker k ≡ true)
      → ((k : ℕ) → recovered (tracker_of m slot) k ≡ true → recovered s.tracker k ≡ true)
      → s.fec_sets ≡ (entry (new_slot L) slot m).fec_sets
      → Later m (insert slot s m)
  Later-insert m slot s p r q z sets = record {
    marks_stay = λ j k h. elim (ℕ_discrete slot j) [
      | yes e ↦
          subst (λ i. deshredded (tracker_of (insert slot s m) i) k ≡ true) e
            (rw (tracker_of-insert_self m slot s)
              (q k (subst (λ i. deshredded (tracker_of m i) k ≡ true) (sym e) h)))
      | no n ↦ rw (tracker_of-insert_ne m slot j s n) h
    ];
    same_status = λ j. elim (ℕ_discrete slot j) [
      | yes e ↦
          subst (λ i. (tracker_of (insert slot s m) i).data_status ≡ (tracker_of m i).data_status) e
            (rw (tracker_of-insert_self m slot s) p)
      | no n ↦ rw (tracker_of-insert_ne m slot j s n) refl
    ];
    same_shreds = λ j. elim (ℕ_discrete slot j) [
      | yes e ↦
          subst (λ i. (tracker_of (insert slot s m) i).data_shreds ≡ (tracker_of m i).data_shreds) e
            (rw (tracker_of-insert_self m slot s) r)
      | no n ↦ rw (tracker_of-insert_ne m slot j s n) refl
    ];
    recovered_stay = λ j k h. elim (ℕ_discrete slot j) [
      | yes e ↦
          subst (λ i. recovered (tracker_of (insert slot s m) i) k ≡ true) e
            (rw (tracker_of-insert_self m slot s)
              (z k (subst (λ i. recovered (tracker_of m i) k ≡ true) (sym e) h)))
      | no n ↦ rw (tracker_of-insert_ne m slot j s n) h
    ];
    same_sets = λ j. elim (ℕ_discrete slot j) [
      | yes e ↦
          subst
            (λ i.
              (entry (new_slot L) i (insert slot s m)).fec_sets ≡ (entry (new_slot L) i m).fec_sets)
            e (ap (λ x. x.fec_sets) (entry-insert_self (new_slot L) slot s m) ∙ sets)
      | no n ↦ ap (λ x. x.fec_sets) (entry-insert_ne (new_slot L) slot j s m n)
    ];
  }

  pub Later-Marks :
      (m : Slots L) (slot k n : ℕ) (t : ShredsStateTracker L)
      → Marks k n (tracker_of m slot) t
      → Later m (insert slot (record (entry (new_slot L) slot m) { tracker = t }) m)
  Later-Marks m slot k n t p =
      Later-insert m slot _ p.same_status p.same_shreds (λ j h. ground (arith, p.marked j)) p.grows
        refl

  pub IsMarked-Marks :
      (m : Slots L) (slot a b : ℕ) (t : ShredsStateTracker L)
      → a ≤ b
      → Marks a (suc b - a) (tracker_of m slot) t
      → IsMarked (insert slot (record (entry (new_slot L) slot m) { tracker = t }) m) (slot, a, b)
  IsMarked-Marks m slot a b t le p k h h' =
      rw (tracker_of-insert_self m slot (record (entry (new_slot L) slot m) { tracker = t }))
        (ground (arith, p.marked k))

  Marks-within :
      (t t' : ShredsStateTracker L) (a b k : ℕ)
      → Marks a (suc b - a) t t'
      → deshredded t' k ≡ true
      → (deshredded t k ≡ true) ⊎ ((a ≤ k) × (k ≤ b))
  Marks-within t t' a b k p h = elim (below_or k a) [
    | inl lt ↦ inl (ground (arith, p.marked k))
    | inr le ↦ elim (below_or b k) [
      | inl lt ↦ inl (ground (arith, p.marked k))
      | inr le' ↦ inr (le, le')
    ]
  ]

  -- What is marked after a segment was marked: what was before, and the segment.
  pub Marks-from :
      (m : Slots L) (slot a b : ℕ) (t : ShredsStateTracker L) (j k : ℕ)
      → Marks a (suc b - a) (tracker_of m slot) t
      → deshredded
          (tracker_of (insert slot (record (entry (new_slot L) slot m) { tracker = t }) m) j)
          k
        ≡ true
      → (deshredded (tracker_of m j) k ≡ true) ⊎ Covers ((slot, a, b) ∷ []) j k
  Marks-from m slot a b t j k p h = elim (ℕ_discrete slot j) [
    | yes e ↦
        elim (Marks-within (tracker_of m slot) t a b k p (
          subst (λ u. deshredded u k ≡ true) (tracker_of-insert_self m slot _)
            (subst
              (λ i.
                deshredded
                  (tracker_of (insert slot (record (entry (new_slot L) slot m) { tracker = t }) m)
                    i)
                  k
                ≡ true)
              (sym e) h))) [
                | inl old ↦ inl (subst (λ i. deshredded (tracker_of m i) k ≡ true) e old)
                | inr (low, high) ↦ inr (inl (e, low, high))
              ]
    | no n ↦ inl (subst (λ u. deshredded u k ≡ true) (tracker_of-insert_ne m slot j _ n) h)
  ]

  pub IsFresh-IsSegment :
      (m : Slots L) (slot fec a b : ℕ) (u : Bool)
      → IsSegment (tracker_of m slot) fec a b u
      → IsFresh m (slot, a, b)
  IsFresh-IsSegment m slot fec a b u g = record {
    ordered = omega (arith, g.start_le, g.le_end);
    inner = g.inner;
    last = g.last;
    fresh = g.fresh;
  }
