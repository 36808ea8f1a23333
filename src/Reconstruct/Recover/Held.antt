-- ===== src/Reconstruct/Recover/Held.antt =====
-- Recovery (proxy/src/deshred.rs, `reconstruct_shreds`) adds no shred but those that it recovers.
use shredstream_proxy.Common.{
  ℕ, ◌≡◌, refl, Bool, true, false, Option, none, some, List, [], ◌∷◌, returns, ◌>>=◌, put,
  if◌then◌else◌, All, IfReturns, IfReturns-bind, for_each, for_each-IfReturns, entry, ltb, length,
  Key, sort_by_key, sort_by_key-All,
}
use shredstream_proxy.Ledger.{Ledger, Shred}
use shredstream_proxy.Tracker.{ShredsStateTracker, update_state_tracker}
use shredstream_proxy.Tracker.Held.{update_state_tracker-Held, any_result}
use shredstream_proxy.FecInfo.{get_data_shred_info}
use shredstream_proxy.Reconstruct.{Codec, IfSome, new_slot}
use shredstream_proxy.Reconstruct.Held.{Held, Held-insert, sets-insert, IsClosed}
use shredstream_proxy.Reconstruct.Recover.{
  Recovered, SetProgress, recover_key, set_skipped, count_recovered, add_recovered, close_set,
  recover_result, recover_set, recover_fec_set, recover_all,
}

module _ {L : Ledger} (Q : Shred L → Type 0) where
  abbrev ProgressHeld : SetProgress L → Type 0
  ProgressHeld p = All (IfSome Q) p.tracker.data_shreds

  count_recovered-Held :
      (p : SetProgress L) (r : Option ℕ × ShredsStateTracker L)
      → All (IfSome Q) r.1.data_shreds
      → ProgressHeld (count_recovered p r)
  count_recovered-Held p (none, t) h = h
  count_recovered-Held p (some i, t) h = h

  add_recovered-Held :
      (o : Option (Shred L)) (p : SetProgress L)
      → IfSome Q o
      → ProgressHeld p
      → IfReturns ProgressHeld (add_recovered o p)
  unfolding add_recovered
  add_recovered-Held none p q h = h
  add_recovered-Held (some s) p q h =
      IfReturns-bind _ (update_state_tracker s p.tracker) _
        (update_state_tracker-Held (IfSome Q) s p.tracker q h) λ r k. count_recovered-Held p r k

  close_set-Held :
      (fec : ℕ) (xs : List (Shred L)) (p : SetProgress L)
      → All Q xs
      → ProgressHeld p
      → IfReturns (λ r. All Q r.0 × All (IfSome Q) r.1.data_shreds) (close_set fec xs p)
  unfolding close_set
  close_set-Held fec xs p k h = cleared_or (ltb 0 p.fec_set_recovered_count)
    where
      cleared_or :
          (b : Bool)
          → IfReturns
              (λ (r : List (Shred L) × ShredsStateTracker L).
                All Q r.0 × All (IfSome Q) r.1.data_shreds)
              (if b
                then (put p.tracker.already_recovered_fec_sets fec true >>= λ flags.
                    returns ([], record p.tracker { already_recovered_fec_sets = flags }))
                else returns (xs, p.tracker))
      cleared_or true =
          IfReturns-bind _ (put p.tracker.already_recovered_fec_sets fec true) _
            (any_result (put p.tracker.already_recovered_fec_sets fec true)) λ flags u. (tt, h)
      cleared_or false = (k, h)

  -- What is left of a set and the tracker.
  abbrev ResultHeld : List (Shred L) × ShredsStateTracker L × ℕ → Type 0
  ResultHeld r = All Q r.0 × All (IfSome Q) r.1.data_shreds

  recover_result-Held :
      (fec : ℕ) (xs : List (Shred L)) (t : ShredsStateTracker L)
      (o : Option (List (Option (Shred L))))
      → ((ys : List (Option (Shred L))) → o ≡ some ys → All (IfSome Q) ys)
      → All Q xs
      → All (IfSome Q) t.data_shreds
      → IfReturns ResultHeld (recover_result fec xs t o)
  unfolding recover_result
  recover_result-Held fec xs t none q k h = (k, h)
  recover_result-Held fec xs t (some found) q k h =
      IfReturns-bind _ (for_each add_recovered found _) _
        (for_each-IfReturns ProgressHeld (IfSome Q) add_recovered
          (λ o p a b. add_recovered-Held o p a b) found
          (record { tracker = t; fec_set_recovered_count = 0 }) (q found refl) h)
        λ p w. IfReturns-bind _ (close_set fec xs p) _ (close_set-Held fec xs p k w) λ r z. z

  module _ (C : Codec L) (closed : IsClosed Q C) where
    recover_set-Held :
        (fec : ℕ) (xs : List (Shred L)) (t : ShredsStateTracker L)
        → All Q xs
        → All (IfSome Q) t.data_shreds
        → IfReturns ResultHeld (recover_set C fec xs t)
    unfolding recover_set
    recover_set-Held fec xs t k h = skipped_or (set_skipped (get_data_shred_info xs) (length xs))
      where
        skipped_or :
            (b : Bool)
            → IfReturns ResultHeld (
                if b
                then returns (xs, t, 0)
                else recover_result fec xs t (C.recover (sort_by_key recover_key xs)))
        skipped_or true = (k, h)
        skipped_or false =
            recover_result-Held fec xs t (C.recover (sort_by_key recover_key xs))
              (λ ys e.
                closed (sort_by_key recover_key xs) ys (sort_by_key-All recover_key Q xs k) e)
              k h

    recover_fec_set-Held :
        (k : Key) (st : Recovered L)
        → Held Q st.all_shreds
        → IfReturns (λ r. Held Q r.all_shreds) (recover_fec_set C k st)
    unfolding recover_fec_set
    recover_fec_set-Held (slot, fec) st h =
        let s = entry (new_slot L) slot st.all_shreds in
        IfReturns-bind _ (recover_set C fec (entry [] fec s.fec_sets) s.tracker) _
          (recover_set-Held fec (entry [] fec s.fec_sets) s.tracker ((h slot).sets fec)
            (h slot).places)
          λ r w.
            Held-insert Q st.all_shreds slot _ h
              (record { places = w.1; sets = sets-insert Q s.fec_sets fec r.0 (h slot).sets w.0 })

    All-key : (keys : List Key) → All (λ k. Unit {0}) keys
    All-key [] = tt
    All-key (k ∷ keys) = (tt, All-key keys)

    pub recover_all-Held :
        (keys : List Key) (st : Recovered L)
        → Held Q st.all_shreds
        → IfReturns (λ r. Held Q r.all_shreds) (recover_all C keys st)
    unfolding recover_all
    recover_all-Held keys st h =
        for_each-IfReturns (λ (r : Recovered L). Held Q r.all_shreds) (λ k. Unit {0})
          (recover_fec_set C) (λ k s u w. recover_fec_set-Held k s w) keys st (All-key keys) h
