-- ===== src/Reconstruct/Recover/Tried.antt =====
-- One FEC set's turn in the recovery (proxy/src/deshred.rs, `reconstruct_shreds`) leaves no shred
-- that it could recover out of the tracker.
use shredstream_proxy.Common.{
  ℕ, ◌<◌, ◌≡◌, refl, subst, ◌⊎◌, inl, inr, Bool, true, false, Option, none, some, List, [], ◌∷◌,
  Ensures, ensures, Ensures-bind, for_each-Each, All, All-mono, put_lem, length, set, get_or, zero,
  suc, ltb, Bool-cases, sort_by_key, sort_by_key-All, arith,
}
use shredstream_proxy.Ledger.{Ledger, Shred, IsSane}
use shredstream_proxy.Tracker.{ShredsStateTracker}
use shredstream_proxy.Tracker.Invariant.{IsValid}
use shredstream_proxy.FecInfo.{get_data_shred_info}
use shredstream_proxy.Reconstruct.{Codec, CodecLaws, IfSome, FecSetValid}
use shredstream_proxy.Reconstruct.Recover.{
  SetProgress, recover_key, set_skipped, add_recovered, close_set, recover_result, recover_set,
}
use shredstream_proxy.Reconstruct.Recover.Growth.{
  Grows, Grows-refl, Grows-trans, Has, Has-later, Later, Added, Added-Later, add_recovered-Added,
}

module _ {L : Ledger} where
  module _ (C : Codec L) where
    -- A set that is tried again gives nothing new: it is skipped, its recovery fails, or the
    -- tracker has no use for what is recovered.
    abbrev pub Tried : ℕ → List (Shred L) → ShredsStateTracker L → Type 0
    Tried fec shreds t =
        (found : List (Option (Shred L)))
        → set_skipped (get_data_shred_info shreds) (length shreds) ≡ false
        → C.recover (sort_by_key recover_key shreds) ≡ some found
        → All (IfSome (Has t)) found

    pub Tried-later :
        (fec : ℕ) (shreds : List (Shred L)) (t t' : ShredsStateTracker L)
        → Grows t t'
        → Tried fec shreds t
        → Tried fec shreds t'
    Tried-later fec shreds t t' g h found a e =
        All-mono _ _ found (λ o. IfSome-Has-later t t' g o) (h found a e)
      where
        IfSome-Has-later :
            (t t' : ShredsStateTracker L)
            → Grows t t'
            → (o : Option (Shred L)) → IfSome (Has t) o
            → IfSome (Has t') o
        IfSome-Has-later t t' g none h = tt
        IfSome-Has-later t t' g (some s) h = Has-later t t' s g h

    -- A set that was cleared is skipped.
    pub Tried-nil : (fec : ℕ) (t : ShredsStateTracker L) → Tried fec [] t
    unfolding get_data_shred_info
    Tried-nil fec t found a e = cc (a)

    abbrev Tries :
        ℕ → List (Shred L) → ShredsStateTracker L → List (Shred L) → ShredsStateTracker L → Type 0
    Tries fec shreds t shreds' t' =
        Tried fec shreds' t' × Grows t t' × ((shreds' ≡ shreds) ⊎ (shreds' ≡ []))

    pub mark-Grows :
        (t : ShredsStateTracker L) (fec : ℕ)
        → Grows t
            (record t { already_recovered_fec_sets = set t.already_recovered_fec_sets fec true })
    mark-Grows t fec = record {
      recovered_stay = flag-set t.already_recovered_fec_sets fec;
      filled_stay = λ k h. h;
    }
      where
        flag-set :
            (v : List Bool) (i k : ℕ)
            → get_or v k false ≡ true
            → get_or (set v i true) k false ≡ true
        flag-set [] i k h = h
        flag-set (b ∷ v) zero zero h = refl
        flag-set (b ∷ v) zero (suc k) h = h
        flag-set (b ∷ v) (suc i) zero h = h
        flag-set (b ∷ v) (suc i) (suc k) h = flag-set v i k h

    all_had :
        (found : List (Option (Shred L))) (p : SetProgress L)
        → ltb 0 p.fec_set_recovered_count ≡ false
        → All (λ o. Added o p) found
        → All (IfSome (Has p.tracker)) found
    all_had [] p e h = tt
    all_had (none ∷ rest) p e h = (tt, all_had rest p e h.1)
    all_had (some s ∷ rest) p e h =
        (elim h.0 [ inl has ↦ has | inr lt ↦ absurd (ground (arith, e, lt)) ], all_had rest p e h.1)

    close_set-Tries :
        (fec : ℕ) (shreds : List (Shred L)) (t : ShredsStateTracker L) (p : SetProgress L)
        (found : List (Option (Shred L)))
        → fec < L.max_data_shreds_per_slot
        → IsValid p.tracker
        → Grows t p.tracker
        → C.recover (sort_by_key recover_key shreds) ≡ some found
        → All (λ o. Added o p) found
        → Ensures (λ r. Tries fec shreds t r.0 r.1) (close_set fec shreds p)
    unfolding close_set
    close_set-Tries fec shreds t p found h v g e done =
        elim (Bool-cases (ltb 0 p.fec_set_recovered_count)) [
          | inl more ↦
              rw
                (
                  more,
                  put_lem p.tracker.already_recovered_fec_sets fec true
                      (omega (arith, h, v.recovered_length)),
                )
                (ensures (
                  Tried-nil fec _,
                  Grows-trans t p.tracker _ g (mark-Grows p.tracker fec),
                  inr refl,
                ))
          | inr nothing ↦ rw nothing (
              ensures (
                λ others a e'.
                    subst (All (IfSome (Has p.tracker))) (cc (e, e'))
                      (all_had found p nothing done),
                g,
                inl refl,
              ))
        ]

    module _ (laws : CodecLaws C) where
      recover_result-Tries :
          (fec : ℕ) (shreds : List (Shred L)) (t : ShredsStateTracker L)
          (o : Option (List (Option (Shred L))))
          → C.recover (sort_by_key recover_key shreds) ≡ o
          → FecSetValid fec shreds
          → IsValid t
          → ((ys : List (Option (Shred L))) → o ≡ some ys → All (IfSome IsSane) ys)
          → Ensures (λ r. Tries fec shreds t r.0 r.1) (recover_result fec shreds t o)
      unfolding recover_result
      recover_result-Tries fec shreds t none e h v k =
          ensures ((λ found a e'. cc (e, e')), Grows-refl t, inl refl)
      recover_result-Tries fec shreds t (some found) e h v k =
          Ensures-bind _
            (for_each-Each (λ (p : SetProgress L). IsValid p.tracker) Added Later add_recovered
              (λ p. (Grows-refl p.tracker, omega arith))
              (λ p q r a b. (Grows-trans p.tracker q.tracker r.tracker a.0 b.0, omega arith))
              (λ o p q l a. Added-Later o p q l a) (IfSome IsSane)
              (λ o p s w. add_recovered-Added o p s w) found _ (k found refl) v)
            λ p q.
              Ensures-bind _ (close_set-Tries fec shreds t p found h.0 q.0 q.1.0 e q.2)
                λ r w. ensures w

      pub recover_set-Tries :
          (fec : ℕ) (shreds : List (Shred L)) (t : ShredsStateTracker L)
          → FecSetValid fec shreds
          → IsValid t
          → Ensures (λ r. Tries fec shreds t r.0 r.1) (recover_set C fec shreds t)
      unfolding recover_set
      recover_set-Tries fec shreds t h v =
          elim (Bool-cases (set_skipped (get_data_shred_info shreds) (length shreds))) [
            | inl skip ↦ rw skip (ensures ((λ found a e. cc (a, skip)), Grows-refl t, inl refl))
            | inr try ↦ rw try (
                recover_result-Tries fec shreds t (C.recover (sort_by_key recover_key shreds)) refl
                  h v
                  (λ ys.
                    laws.recover-IsSane (sort_by_key recover_key shreds) ys
                      (sort_by_key-All recover_key IsSane shreds h.1)))
          ]
