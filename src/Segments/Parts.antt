-- ===== src/Segments/Parts.antt =====
-- The parts of a segment that the two scans of `get_indexes` (proxy/src/deshred.rs) walk.
use shredstream_proxy.Common.{
  ℕ, suc, ◌≤◌, ◌<◌, ◌≡◌, subst, inl, inr, Bool, false, Option, none, some, below_or, arith,
}
use shredstream_proxy.Ledger.{Ledger}
use shredstream_proxy.Tracker.{ShredsStateTracker, not_data_complete, status, deshredded}
use shredstream_proxy.Segments.{Bounds}
use shredstream_proxy.Segments.Spec.{EndsAt, StartsAt, StartsAfter, StartsAfter-known}

module _ {L : Ledger} (t : ShredsStateTracker L) where
  -- What a scan reports: a part with its description, or that there is none.
  abbrev pub EndFound : ℕ → Option ℕ → Type 0
  EndFound i none = (e : ℕ) → ¬ EndsAt t i e
  EndFound i (some e) = EndsAt t i e

  abbrev pub StartFound : ℕ → ℕ → Option Bounds → Type 0
  StartFound i end none = (s : ℕ) (u : Bool) → ¬ StartsAt t i s u
  StartFound i end (some (s, e, u)) = (e ≡ end) × StartsAt t i s u

  pub EndsAt-cons :
      (i e : ℕ)
      → status t i ≡ not_data_complete
      → deshredded t i ≡ false
      → EndsAt t (suc i) e
      → EndsAt t i e
  EndsAt-cons i e p q g = record {
    le_end = omega (arith, g.le_end);
    in_range = g.in_range;
    inner = λ k a b. ground (arith, g.inner k);
    last = g.last;
    fresh = λ k a b. ground (arith, g.fresh k);
  }

  pub EndsAt-tail : (i e : ℕ) → status t i ≡ not_data_complete → EndsAt t i e → EndsAt t (suc i) e
  EndsAt-tail i e p g = record {
    le_end = ground (arith, g.le_end, g.last);
    in_range = g.in_range;
    inner = λ k a b. g.inner k (omega arith) b;
    last = g.last;
    fresh = λ k a b. g.fresh k (omega arith) b;
  }

  pub StartsAt-cons :
      (i s : ℕ) (u : Bool)
      → status t i ≡ not_data_complete
      → deshredded t i ≡ false
      → StartsAt t i s u
      → StartsAt t (suc i) s u
  StartsAt-cons i s u p q g = record {
    start_le = omega (arith, g.start_le);
    inner = λ k a b. ground (arith, g.inner k);
    fresh = λ k a b. ground (arith, g.fresh k);
    starts = g.starts;
  }

  pub last_start : {i s : ℕ} → i < s → s ≤ suc i → s ≡ suc i
  last_start a b = omega arith

  pub StartsAt-tail :
      (i s : ℕ) (u : Bool)
      → status t i ≡ not_data_complete
      → StartsAt t (suc i) s u
      → StartsAt t i s u
  StartsAt-tail i s u p g = record {
    start_le = elim (below_or i s) [
      | inl lt ↦ absurd (
          StartsAfter-known t i u
            (subst (λ x. StartsAfter t x u) (last_start lt g.start_le) g.starts) p)
      | inr le ↦ le
    ];
    inner = λ k a b. g.inner k a (omega arith);
    fresh = λ k a b. g.fresh k a (omega arith);
    starts = g.starts;
  }
