-- ===== src/Reconstruct/Recover/Growth.antt =====
-- What recovery (proxy/src/deshred.rs, `reconstruct_shreds`) keeps of a tracker, shred by shred.
use shredstream_proxy.Common.{
  ℕ, ◌<◌, ◌≤◌, ◌≡◌, refl, ◌⊎◌, inl, inr, true, ◌||◌, Option, none, some, List, [], ◌∷◌, Ensures,
  ensures, set, get_or, zero, suc, Bool-cases, arith,
}
use shredstream_proxy.Ledger.{Ledger, Shred, shred_code, shred_data, IsSane, fec_of}
use shredstream_proxy.Tracker.{ShredsStateTracker, is_some, shred_at, recovered}
use shredstream_proxy.Tracker.Invariant.{IsValid}
use shredstream_proxy.Tracker.Update.{
  is_stored, stored, stored-IsValid, update_state_tracker-eq-updated,
}
use shredstream_proxy.Reconstruct.{IfSome}
use shredstream_proxy.Reconstruct.Recover.{SetProgress, add_recovered}

module _ {L : Ledger} where
  -- Flags of recovered sets and filled places stay.
  pub record Grows (t t' : ShredsStateTracker L) : Type 0 where
    pub recovered_stay : (k : ℕ) → recovered t k ≡ true → recovered t' k ≡ true
    pub filled_stay : (k : ℕ) → is_some (shred_at t k) ≡ true → is_some (shred_at t' k) ≡ true

  pub Grows-refl : (t : ShredsStateTracker L) → Grows t t
  Grows-refl t = record { recovered_stay = λ k h. h; filled_stay = λ k h. h }

  pub Grows-trans : (t u w : ShredsStateTracker L) → Grows t u → Grows u w → Grows t w
  Grows-trans t u w p q = record {
    recovered_stay = λ k h. q.recovered_stay k (p.recovered_stay k h);
    filled_stay = λ k h. q.filled_stay k (p.filled_stay k h);
  }

  -- The tracker has no use for the shred: its FEC set was recovered, or its index is stored.
  abbrev pub Has : ShredsStateTracker L → Shred L → Type 0
  Has t s = (recovered t (fec_of s) || is_stored s t) ≡ true

  pub Has-later : (t t' : ShredsStateTracker L) (s : Shred L) → Grows t t' → Has t s → Has t' s
  Has-later t t' (shred_code c) g h =
      ground (arith, g.recovered_stay (L.fec_set_index c.common_header))
  Has-later t t' (shred_data d) g h = ground (
    arith,
    g.recovered_stay (L.fec_set_index d.common_header),
    g.filled_stay (L.index d.common_header),
  )

  filled-set :
      (v : List (Option (Shred L))) (i : ℕ) (x : Shred L) (k : ℕ)
      → is_some (get_or v k none) ≡ true
      → is_some (get_or (set v i (some x)) k none) ≡ true
  filled-set [] i x k h = h
  filled-set (o ∷ v) zero x zero h = refl
  filled-set (o ∷ v) zero x (suc k) h = h
  filled-set (o ∷ v) (suc i) x zero h = h
  filled-set (o ∷ v) (suc i) x (suc k) h = filled-set v i x k h

  pub stored-Grows : (s : Shred L) (t : ShredsStateTracker L) → Grows t (stored s t)
  stored-Grows (shred_code c) t = Grows-refl t
  stored-Grows (shred_data d) t = record {
    recovered_stay = λ k h. h;
    filled_stay = filled-set t.data_shreds (L.index d.common_header) (shred_data d);
  }

  -- Between two recovered shreds.
  abbrev pub Later : SetProgress L → SetProgress L → Type 0
  Later p q = Grows p.tracker q.tracker × (p.fec_set_recovered_count ≤ q.fec_set_recovered_count)

  abbrev pub Added : Option (Shred L) → SetProgress L → Type 0
  Added none p = Unit
  Added (some s) p = Has p.tracker s ⊎ (0 < p.fec_set_recovered_count)

  pub Added-Later : (o : Option (Shred L)) (p q : SetProgress L) → Later p q → Added o p → Added o q
  Added-Later none p q l h = tt
  Added-Later (some s) p q l (inl h) = inl (Has-later p.tracker q.tracker s l.0 h)
  Added-Later (some s) p q l (inr h) = inr (omega arith)

  pub add_recovered-Added :
      (o : Option (Shred L)) (p : SetProgress L)
      → IfSome IsSane o
      → IsValid p.tracker
      → Ensures (λ q. IsValid q.tracker × Later p q × Added o q) (add_recovered o p)
  unfolding add_recovered
  add_recovered-Added none p h v = ensures (v, (Grows-refl p.tracker, omega arith), tt)
  add_recovered-Added (some s) p h v =
      rw (update_state_tracker-eq-updated s p.tracker v h)
        (elim (Bool-cases (recovered p.tracker (fec_of s) || is_stored s p.tracker)) [
          | inl e ↦ rw e (ensures (v, (Grows-refl p.tracker, omega arith), inl e))
          | inr e ↦ rw e (
              ensures (
                stored-IsValid s p.tracker v h,
                (stored-Grows s p.tracker, omega arith),
                inr (omega arith),
              ))
        ])
