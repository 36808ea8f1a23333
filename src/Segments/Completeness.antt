-- ===== src/Segments/Completeness.antt =====
-- `get_indexes` (proxy/src/deshred.rs) returns the segment around an index, and nothing else.
use shredstream_proxy.Common.{
  ℕ, zero, suc, ◌≡◌, refl, subst, inl, inr, ◌↔◌, Bool, false, Option, none, some, returns, Ensures,
  ensures, Ensures-bind, Ensures-mono, Ensures-returns, length, leb, Bool-cases, arith,
}
use shredstream_proxy.Ledger.{Ledger}
use shredstream_proxy.Tracker.{ShredsStateTracker}
use shredstream_proxy.Segments.{Bounds, find_start, from_end, get_indexes}
use shredstream_proxy.Segments.Spec.{
  IsSegment, EndsAt, StartsAt, IsSegment-join, IsSegment-EndsAt, IsSegment-StartsAt,
  IsSegment-unique,
}
use shredstream_proxy.Segments.Parts.{EndFound, StartFound}
use shredstream_proxy.Segments.Soundness.{find_end-EndFound, find_start-StartFound}

module _ {L : Ledger} (t : ShredsStateTracker L) where
  -- What `get_indexes` reports.
  abbrev pub Found : ℕ → Option Bounds → Type 0
  Found i none = (s e : ℕ) (u : Bool) → ¬ IsSegment t i s e u
  Found i (some (s, e, u)) = IsSegment t i s e u

  module _ (same : length t.already_deshredded ≡ length t.data_status) where
    -- At index 0 nothing stands to the left.
    StartsAt-zero : StartsAt t 0 0 false
    StartsAt-zero = record {
      start_le = omega arith;
      inner = λ k a b. absurd (omega arith);
      fresh = λ k a b. absurd (omega arith);
      starts = refl;
    }

    joined : (i e : ℕ) (o : Option Bounds) → EndsAt t i e → StartFound t i e o → Found i o
    joined i e none r p = λ s x u g. p s u (IsSegment-StartsAt g)
    joined i e (some (s, x, u)) r p = IsSegment-join p.1 (rw (p.0) r)

    from_end-zero : (e : ℕ) → from_end t 0 (some e) ≡ returns (some (0, e, false))
    unfolding from_end
    from_end-zero e = ground arith

    from_end-suc : (i e : ℕ) → from_end t (suc i) (some (suc e)) ≡ find_start t (suc e) (suc i) i
    unfolding from_end
    from_end-suc i e = ground arith

    from_end-Found : (i e : ℕ) → EndsAt t i e → Ensures (Found i) (from_end t i (some e))
    from_end-Found zero e r = rw (from_end-zero e) (ensures (IsSegment-join StartsAt-zero r))
    from_end-Found (suc i) zero r = absurd (omega (arith, r.le_end))
    from_end-Found (suc i) (suc e) r = rw (from_end-suc i e) (
        Ensures-mono
          (find_start-StartFound t same (suc e) i _ (omega (arith, r.le_end, r.in_range)) refl)
          (λ o p. joined (suc i) (suc e) o r p))

    -- With as many flags as statuses, the call returns: a segment around the index, or none where
    -- there is none.
    pub get_indexes-Found : (i : ℕ) → Ensures (Found i) (get_indexes t i)
    unfolding get_indexes
    get_indexes-Found i = elim (Bool-cases (leb (length t.data_status) i)) [
      | inl out ↦ rw out (ensures λ s e u g. ground (arith, g.in_range, g.le_end))
      | inr within ↦ rw within (Ensures-bind _ (find_end-EndFound t same _ i (ground arith)) next)
    ]
      where
        next : (o : Option ℕ) → EndFound t i o → Ensures (Found i) (from_end t i o)
        next none p = ensures λ s e u g. p e (IsSegment-EndsAt g)
        next (some e) p = from_end-Found i e p

    reported :
        (i s e : ℕ) (u : Bool) (o : Option Bounds)
        → get_indexes t i ≡ returns o
        → Found i o
        → (get_indexes t i ≡ returns (some (s, e, u))) ↔ IsSegment t i s e u
    reported i s e u none q p = (λ h. cc, λ g. absurd (p s e u g))
    reported i s e u (some (s', e', u')) q p = (
      λ h. subst (λ (b : Bounds). IsSegment t i b.0 b.1 b.2) (bounds_eq h) p,
      λ g. let (a, b, c) = IsSegment-unique i s' e' s e p g in ground arith,
    )
      where
        bounds_eq :
            get_indexes t i ≡ returns (some (s, e, u)) → ◌≡◌ {A = Bounds} (s', e', u') (s, e, u)
        bounds_eq h = cc

    -- With as many flags as statuses, `get_indexes` returns `(s, e, u)` exactly where the shreds from
    -- `s` to `e` are a complete segment around the index, with the start known or not as `u` says.
    pub get_indexes_iff :
        (i s e : ℕ) (u : Bool) → (get_indexes t i ≡ returns (some (s, e, u))) ↔ IsSegment t i s e u
    get_indexes_iff i s e u =
        let (o, q, p) = Ensures-returns (get_indexes-Found i) in reported i s e u o q p
