-- ===== src/Reconstruct/Cleanup/Laws.antt =====
-- The clean-up of old slots (proxy/src/deshred.rs, `reconstruct_shreds`): what stays and what goes.
use shredstream_proxy.Common.{
  ℕ, ◌-◌, ◌≡◌, refl, inl, inr, false, ◌&&◌, none, List, [], ◌∷◌, Ensures, ensures, Ensures-bind,
  Ensures-mono, at_lem, length, ltb, leb, Bool-cases, if◌then◌else◌, lookup, All, arith,
}
use shredstream_proxy.Ledger.{Ledger, Shred}
use shredstream_proxy.Tracker.{ShredsStateTracker, recovered}
use shredstream_proxy.Tracker.Invariant.{IsValid}
use shredstream_proxy.Reconstruct.{Slots, SlotsValid, FecSetValid, slot_lookback}
use shredstream_proxy.Reconstruct.Cleanup.{missed_sets, retain_recent, cleanup}

module _ {L : Ledger} where
  -- The sets listed are sets that were not recovered.
  pub missed_sets-returns :
      (t : ShredsStateTracker L) (m : List (ℕ × List (Shred L)))
      → IsValid t
      → All (λ e. FecSetValid e.0 e.1) m
      → Ensures (All (λ x. recovered t x.0 ≡ false)) (missed_sets t m)
  unfolding missed_sets
  missed_sets-returns t [] v h = ensures tt
  missed_sets-returns t ((fec, shreds) ∷ rest) v h =
      rw (at_lem t.already_recovered_fec_sets fec false (omega (arith, h.0.0, v.recovered_length)))
        (Ensures-bind _ (missed_sets-returns t rest v h.1) λ ms p.
          ensures (elim (Bool-cases (recovered t fec)) [ inl e ↦ rw e p | inr e ↦ rw e (e, p) ]))

  -- The slots from the threshold on, as they were.
  abbrev pub Retained : ℕ → Slots L → Slots L → Type 0
  Retained threshold m m' =
      SlotsValid m' × ((k : ℕ) → lookup k m' ≡ (if leb threshold k then lookup k m else none))

  retain_recent-Retained :
      (threshold : ℕ) (m : Slots L)
      → SlotsValid m
      → Ensures (λ r. Retained threshold m r.0) (retain_recent threshold m)
  unfolding retain_recent lookup
  retain_recent-Retained threshold [] v = ensures (tt, λ k. ground arith)
  retain_recent-Retained threshold ((slot, s) ∷ rest) v =
      Ensures-bind _ (retain_recent-Retained threshold rest v.1) λ r p.
        elim (Bool-cases (leb threshold slot)) [
          | inl e ↦ rw e (ensures ((v.0, p.0), λ k. ground (arith, p.1 k)))
          | inr e ↦ rw e (
              Ensures-bind _
                (missed_sets-returns s.tracker s.fec_sets v.0.tracker_valid v.0.fec_sets_valid)
                λ ms q. ensures (p.0, λ k. ground (arith, p.1 k)))
        ]

  -- On valid slots, the clean-up returns and keeps them valid. With more slots than the limit,
  -- exactly the slots more than 50 below the highest one go; otherwise none does.
  pub cleanup_lem :
      (highest : ℕ) (m : Slots L)
      → SlotsValid m
      → Ensures
          (λ r.
            SlotsValid r.0
            × ((k : ℕ)
                → lookup k r.0 ≡ (
                    if ltb L.max_processing_age (length m) && ltb k (highest - slot_lookback)
                    then none
                    else lookup k m)))
          (cleanup highest m)
  unfolding cleanup
  cleanup_lem highest m v = elim (Bool-cases (ltb L.max_processing_age (length m))) [
    | inl e ↦ rw e (
        Ensures-mono (retain_recent-Retained (highest - slot_lookback) m v)
          λ r p. (p.0, λ k. ground (arith, p.1 k)))
    | inr e ↦ rw e (ensures (v, λ k. refl))
  ]
