-- ===== src/Tracker/Held.antt =====
-- `update_state_tracker` (proxy/src/deshred.rs) stores nothing but the shred that it is given.
use shredstream_proxy.Common.{
  ℕ, zero, suc, Bool, true, false, Option, none, some, List, [], ◌∷◌, Outcome, returns, panics,
  ◌>>=◌, at, put, length, set, ltb, if◌then◌else◌, All, IfReturns, IfReturns-bind,
}
use shredstream_proxy.Ledger.{Ledger, Shred, shred_code, shred_data, index_of, fec_of, type_of}
use shredstream_proxy.Tracker.{ShredsStateTracker, is_taken, store, update_state_tracker}

module _ {A : Type 0} (P : A → Type 0) where
  pub set-All : (v : List A) (i : ℕ) (x : A) → All P v → P x → All P (set v i x)
  set-All [] i x h p = tt
  set-All (y ∷ v) zero x h p = (p, h.1)
  set-All (y ∷ v) (suc i) x h p = (h.0, set-All v i x h.1 p)

  put-All : (v : List A) (i : ℕ) (x : A) → All P v → P x → IfReturns (All P) (put v i x)
  unfolding put
  put-All v i x h p = within (ltb i (length v))
    where
      within : (b : Bool) → IfReturns (All P) (if b then returns (set v i x) else panics)
      within true = set-All v i x h p
      within false = tt

pub any_result : {A : Type 0} (o : Outcome A) → IfReturns (λ a. Unit {0}) o
any_result (returns a) = tt
any_result panics = tt

module _ {L : Ledger} (P : Option (Shred L) → Type 0) where
  -- All places of the tracker.
  abbrev pub PlacesHeld : ShredsStateTracker L → Type 0
  PlacesHeld t = All P t.data_shreds

  store-Held :
      (s : Shred L) (i : ℕ) (t : ShredsStateTracker L)
      → P (some s)
      → PlacesHeld t
      → IfReturns PlacesHeld (store s i t)
  unfolding store
  store-Held (shred_code c) i t p h = h
  store-Held (shred_data d) i t p h =
      IfReturns-bind _ (put t.data_shreds i (some (shred_data d))) _
        (put-All P t.data_shreds i _ h p)
        λ v q.
          IfReturns-bind _ (put t.data_status i _) _ (any_result (put t.data_status i _)) λ w u. q

  pub update_state_tracker-Held :
      (s : Shred L) (t : ShredsStateTracker L)
      → P (some s)
      → PlacesHeld t
      → IfReturns
          (λ (r : Option ℕ × ShredsStateTracker L). PlacesHeld r.1)
          (update_state_tracker s t)
  unfolding update_state_tracker
  update_state_tracker-Held s t p h =
      IfReturns-bind _ (at t.already_recovered_fec_sets (fec_of s)) _
        (any_result (at t.already_recovered_fec_sets (fec_of s)))
        λ done u.
          elim done
            as (λ b.
              IfReturns (λ (r : Option ℕ × ShredsStateTracker L). PlacesHeld r.1)
                (elim b [
                  | true ↦ returns (none, t)
                  | false ↦ is_taken (type_of s) (index_of s) t >>= λ taken. elim taken [
                    | true ↦ returns (none, t)
                    | false ↦ store s (index_of s) t >>= λ t'. returns (some (index_of s), t')
                  ]
                ])) [
                  | true ↦ h
                  | false ↦
                      IfReturns-bind _ (is_taken (type_of s) (index_of s) t) _
                        (any_result (is_taken (type_of s) (index_of s) t))
                        λ taken w.
                          elim taken
                            as (λ b.
                              IfReturns (λ (r : Option ℕ × ShredsStateTracker L). PlacesHeld r.1)
                                (elim b [
                                  | true ↦ returns (none, t)
                                  | false ↦ store s (index_of s) t >>= λ t'.
                                      returns (some (index_of s), t')
                                ])) [
                                  | true ↦ h
                                  | false ↦
                                      IfReturns-bind _ (store s (index_of s) t) _
                                        (store-Held s (index_of s) t p h) λ t' q. q
                                ]
                ]
