-- ===== src/Segments/Spec.antt =====
-- A complete segment, described without the two scans of `get_indexes` (proxy/src/deshred.rs).
use shredstream_proxy.Common.{
  ℕ, zero, suc, ◌≤◌, ◌<◌, ◌≡◌, ◌≢◌, sym, ◌∙◌, subst, ◌⊎◌, inl, inr, Bool, true, false, length,
  below_or, arith,
}
use shredstream_proxy.Ledger.{Ledger}
use shredstream_proxy.Tracker.{
  ShredsStateTracker, unknown, not_data_complete, data_complete, status, deshredded,
}

module _ {L : Ledger} where
  -- What stands before the first shred: nothing, the end of another segment, or a shred not received.
  abbrev pub StartsAfter : ShredsStateTracker L → ℕ → Bool → Type 0
  StartsAfter t zero u = u ≡ false
  StartsAfter t (suc p) u =
      ((status t p ≡ data_complete) × (u ≡ false)) ⊎ ((status t p ≡ unknown) × (u ≡ true))

  -- From `start` to `end` around `index`: shreds that are not complete and then one that is, all
  -- present and none given out before.
  pub record IsSegment (t : ShredsStateTracker L) (index start end : ℕ) (u : Bool) : Type 0 where
    pub start_le : start ≤ index
    pub le_end : index ≤ end
    pub in_range : end < length t.data_status
    pub inner : (k : ℕ) → start ≤ k → k < end → status t k ≡ not_data_complete
    pub last : status t end ≡ data_complete
    pub fresh : (k : ℕ) → start ≤ k → k ≤ end → deshredded t k ≡ false
    pub starts : StartsAfter t start u

  -- The part of a segment from `index` on.
  pub record EndsAt (t : ShredsStateTracker L) (index end : ℕ) : Type 0 where
    pub le_end : index ≤ end
    pub in_range : end < length t.data_status
    pub inner : (k : ℕ) → index ≤ k → k < end → status t k ≡ not_data_complete
    pub last : status t end ≡ data_complete
    pub fresh : (k : ℕ) → index ≤ k → k ≤ end → deshredded t k ≡ false

  -- The part of a segment before `index`.
  pub record StartsAt (t : ShredsStateTracker L) (index start : ℕ) (u : Bool) : Type 0 where
    pub start_le : start ≤ index
    pub inner : (k : ℕ) → start ≤ k → k < index → status t k ≡ not_data_complete
    pub fresh : (k : ℕ) → start ≤ k → k < index → deshredded t k ≡ false
    pub starts : StartsAfter t start u

  pub StartsAfter-known :
      (t : ShredsStateTracker L) (p : ℕ) (u : Bool)
      → StartsAfter t (suc p) u
      → status t p ≢ not_data_complete
  StartsAfter-known t p u (inl h) e = ground (arith, h)
  StartsAfter-known t p u (inr h) e = ground (arith, h)

  StartsAfter-unique :
      (t : ShredsStateTracker L) (s : ℕ) (u w : Bool)
      → StartsAfter t s u
      → StartsAfter t s w
      → u ≡ w
  StartsAfter-unique t zero u w a b = a ∙ sym b
  StartsAfter-unique t (suc p) u w a b = ground arith

  module _ {t : ShredsStateTracker L} where
    pub IsSegment-join :
        {i s e : ℕ} {u : Bool} → StartsAt t i s u → EndsAt t i e → IsSegment t i s e u
    IsSegment-join {i = i} l r = record {
      start_le = l.start_le;
      le_end = r.le_end;
      in_range = r.in_range;
      inner = λ k a b. elim (below_or k i) [ inl h ↦ l.inner k a h | inr h ↦ r.inner k h b ];
      last = r.last;
      fresh = λ k a b. elim (below_or k i) [ inl h ↦ l.fresh k a h | inr h ↦ r.fresh k h b ];
      starts = l.starts;
    }

    pub IsSegment-EndsAt : {i s e : ℕ} {u : Bool} → IsSegment t i s e u → EndsAt t i e
    IsSegment-EndsAt g = record {
      le_end = g.le_end;
      in_range = g.in_range;
      inner = λ k a b. g.inner k (omega (arith, g.start_le)) b;
      last = g.last;
      fresh = λ k a b. g.fresh k (omega (arith, g.start_le)) b;
    }

    pub IsSegment-StartsAt : {i s e : ℕ} {u : Bool} → IsSegment t i s e u → StartsAt t i s u
    IsSegment-StartsAt g = record {
      start_le = g.start_le;
      inner = λ k a b. g.inner k a (omega (arith, g.le_end));
      fresh = λ k a b. g.fresh k a (omega (arith, g.le_end));
      starts = g.starts;
    }

    -- The end of one segment around an index is not beyond the end of another.
    end_le : {i s e s' e' : ℕ} {u u' : Bool} → IsSegment t i s e u → IsSegment t i s' e' u' → e' ≤ e
    end_le {e = e} {e' = e'} g h = elim (below_or e e') [
      | inl lt ↦ absurd (clash (sym (h.inner e (omega (arith, h.start_le, g.le_end)) lt) ∙ g.last))
      | inr le ↦ le
    ]
      where
        clash : not_data_complete ≡ data_complete → ⊥
        clash c = cc

    start_le_of :
        (i s e s' e' : ℕ) {u u' : Bool} → IsSegment t i s e u → IsSegment t i s' e' u' → s' ≤ s
    start_le_of i s e zero e' g h = omega arith
    start_le_of i s e (suc p) e' {u' = u'} g h = elim (below_or s (suc p)) [
      | inl lt ↦ absurd (
          StartsAfter-known t p u' h.starts
            (g.inner p (omega arith) (omega (arith, h.start_le, g.le_end))))
      | inr le ↦ le
    ]

    -- At most one segment lies around an index.
    pub IsSegment-unique :
        (i s e s' e' : ℕ) {u u' : Bool}
        → IsSegment t i s e u
        → IsSegment t i s' e' u'
        → (s ≡ s') × (e ≡ e') × (u ≡ u')
    IsSegment-unique i s e s' e' {u} {u'} g h =
        let same : s ≡ s' =
          omega (arith, start_le_of i s e s' e' g h, start_le_of i s' e' s e h g) in
        (
          same,
          omega (arith, end_le g h, end_le h g),
          StartsAfter-unique t s' u u' (subst (λ x. StartsAfter t x u) same g.starts) h.starts,
        )
