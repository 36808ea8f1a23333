-- ===== src/Segments/Soundness.antt =====
-- The two scans of `get_indexes` (proxy/src/deshred.rs) against the parts of a segment.
use shredstream_proxy.Common.{
  ℕ, zero, suc, ◌+◌, ◌<◌, ◌≡◌, refl, ◌⊎◌, inl, inr, Bool, true, false, Option, none, some, Ensures,
  ensures, Ensures-mono, length, at_lem, Bool-cases, arith,
}
use shredstream_proxy.Ledger.{Ledger}
use shredstream_proxy.Tracker.{
  ShredsStateTracker, ShredStatus, unknown, not_data_complete, data_complete, status, deshredded,
}
use shredstream_proxy.Segments.{Bounds, find_end, find_start}
use shredstream_proxy.Segments.Spec.{StartsAt, StartsAfter}
use shredstream_proxy.Segments.Parts.{
  EndFound, StartFound, EndsAt-cons, EndsAt-tail, StartsAt-cons, StartsAt-tail,
}

module _ {L : Ledger} (t : ShredsStateTracker L) where
  module _ (same : length t.already_deshredded ≡ length t.data_status) where
    find_end-next :
        (rounds i : ℕ) (s : ShredStatus)
        → suc rounds + i ≡ length t.data_status
        → status t i ≡ s
        → deshredded t i ≡ false
        → Ensures (EndFound t (suc i)) (find_end t rounds (suc i))
        → Ensures (EndFound t i) (find_end t (suc rounds) i)
    unfolding find_end
    find_end-next rounds i unknown h e d ih =
        rw
          (
            at_lem t.already_deshredded i false (omega arith),
            d,
            at_lem t.data_status i unknown (omega arith),
            e,
          )
          (ensures λ x g. ground (arith, g.inner i, g.le_end, g.last))
    find_end-next rounds i data_complete h e d ih =
        rw
          (
            at_lem t.already_deshredded i false (omega arith),
            d,
            at_lem t.data_status i unknown (omega arith),
            e,
          )
          (ensures (record {
            le_end = omega arith;
            in_range = omega arith;
            inner = λ k a b. absurd (omega arith);
            last = e;
            fresh = λ k a b. ground arith;
          }))
    find_end-next rounds i not_data_complete h e d ih =
        rw
          (
            at_lem t.already_deshredded i false (omega arith),
            d,
            at_lem t.data_status i unknown (omega arith),
            e,
          )
          (Ensures-mono ih λ o p. widen o p)
      where
        widen : (o : Option ℕ) → EndFound t (suc i) o → EndFound t i o
        widen none p = λ x g. p x (EndsAt-tail t i x e g)
        widen (some x) p = EndsAt-cons t i x e d p

    -- The scan to the right finds the end of the segment, or there is none.
    pub find_end-EndFound :
        (rounds i : ℕ)
        → rounds + i ≡ length t.data_status
        → Ensures (EndFound t i) (find_end t rounds i)
    unfolding find_end
    find_end-EndFound zero i h = ensures (λ e g. omega (arith, g.le_end, g.in_range))
    find_end-EndFound (suc rounds) i h = elim (Bool-cases (deshredded t i)) [
      | inl d ↦
          rw (at_lem t.already_deshredded i false (omega arith), d)
            (ensures λ e g. ground (arith, g.fresh i, g.le_end))
      | inr d ↦
          find_end-next rounds i (status t i) h refl d
            (find_end-EndFound rounds (suc i) (omega arith))
    ]

    StartsAt-here : (i : ℕ) (u : Bool) → StartsAfter t i u → StartsAt t i i u
    StartsAt-here i u h = record {
      start_le = omega arith;
      inner = λ k a b. absurd (omega arith);
      fresh = λ k a b. absurd (omega arith);
      starts = h;
    }

    -- The shred before is missing, or ends another segment.
    find_start-stop :
        (end next : ℕ) (s : ShredStatus) (u : Bool)
        → next < length t.data_status
        → status t next ≡ s
        → ((s ≡ data_complete) × (u ≡ false)) ⊎ ((s ≡ unknown) × (u ≡ true))
        → Ensures (StartFound t (suc next) end) (find_start t end (suc next) next)
    unfolding find_start
    find_start-stop end zero unknown u low e h =
        rw (at_lem t.data_status 0 unknown low, e)
          (ensures (refl, StartsAt-here 1 true (inr (e, refl))))
    find_start-stop end zero data_complete u low e h =
        rw (at_lem t.data_status 0 unknown low, e)
          (ensures (refl, StartsAt-here 1 false (inl (e, refl))))
    find_start-stop end (suc n) unknown u low e h =
        rw (at_lem t.data_status (suc n) unknown low, e)
          (ensures (refl, StartsAt-here (suc (suc n)) true (inr (e, refl))))
    find_start-stop end (suc n) data_complete u low e h =
        rw (at_lem t.data_status (suc n) unknown low, e)
          (ensures (refl, StartsAt-here (suc (suc n)) false (inl (e, refl))))
    find_start-stop end _ not_data_complete u low e h = ground (arith, h)

    not_StartsAt :
        (i s : ℕ) (u : Bool)
        → status t i ≡ not_data_complete
        → deshredded t i ≡ true
        → ¬ StartsAt t (suc i) s u
    not_StartsAt i s u e d g = ground (arith, (StartsAt-tail t i s u e g).start_le, g.fresh i)

    find_start-step :
        (end n : ℕ) (d : Bool)
        → suc n < length t.data_status
        → status t (suc n) ≡ not_data_complete
        → deshredded t (suc n) ≡ d
        → Ensures (StartFound t (suc n) end) (find_start t end (suc n) n)
        → Ensures (StartFound t (suc (suc n)) end) (find_start t end (suc (suc n)) (suc n))
    unfolding find_start
    find_start-step end n true low e d ih =
        rw
          (
            at_lem t.data_status (suc n) unknown low,
            e,
            at_lem t.already_deshredded (suc n) false (omega arith),
            d,
          )
          (ensures λ s u. not_StartsAt (suc n) s u e d)
    find_start-step end n false low e d ih =
        rw
          (
            at_lem t.data_status (suc n) unknown low,
            e,
            at_lem t.already_deshredded (suc n) false (omega arith),
            d,
          )
          (Ensures-mono ih widen)
      where
        widen : (o : Option Bounds) → StartFound t (suc n) end o → StartFound t (suc (suc n)) end o
        widen none p = λ s u g. p s u (StartsAt-tail t (suc n) s u e g)
        widen (some (s, x, u)) p = (p.0, StartsAt-cons t (suc n) s u e d p.1)

    find_start-zero :
        (end : ℕ) (d : Bool)
        → 0 < length t.data_status
        → status t 0 ≡ not_data_complete
        → deshredded t 0 ≡ d
        → Ensures (StartFound t 1 end) (find_start t end 1 0)
    unfolding find_start
    find_start-zero end true low e d =
        rw
          (
            at_lem t.data_status 0 unknown low,
            e,
            at_lem t.already_deshredded 0 false (omega arith),
            d,
          )
          (ensures λ s u. not_StartsAt 0 s u e d)
    find_start-zero end false low e d =
        rw
          (
            at_lem t.data_status 0 unknown low,
            e,
            at_lem t.already_deshredded 0 false (omega arith),
            d,
          )
          (ensures (refl, StartsAt-cons t 0 0 false e d (StartsAt-here 0 false refl)))

    -- The scan to the left finds the start of the segment, or there is none.
    pub find_start-StartFound :
        (end next : ℕ) (s : ShredStatus)
        → next < length t.data_status
        → status t next ≡ s
        → Ensures (StartFound t (suc next) end) (find_start t end (suc next) next)
    find_start-StartFound end zero unknown low e =
        find_start-stop end 0 unknown true low e (inr (refl, refl))
    find_start-StartFound end zero data_complete low e =
        find_start-stop end 0 data_complete false low e (inl (refl, refl))
    find_start-StartFound end zero not_data_complete low e = find_start-zero end _ low e refl
    find_start-StartFound end (suc n) unknown low e =
        find_start-stop end (suc n) unknown true low e (inr (refl, refl))
    find_start-StartFound end (suc n) data_complete low e =
        find_start-stop end (suc n) data_complete false low e (inl (refl, refl))
    find_start-StartFound end (suc n) not_data_complete low e =
        find_start-step end n _ low e refl
          (find_start-StartFound end n (status t n) (omega arith) refl)
