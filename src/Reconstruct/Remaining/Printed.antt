-- ===== src/Reconstruct/Remaining/Printed.antt =====
-- What `debug_remaining_shreds` (proxy/src/deshred.rs) prints: all sets that were not recovered, and
-- no others.
use shredstream_proxy.Common.{
  ℕ, ◌≡◌, refl, inl, inr, false, Bool-cases, List, [], ◌∷◌, map, Ensures, ensures, Ensures-bind,
  length, All, All-mono, Any, sort_by_key-All, sort_by_key-IsSorted, sort_by_key-Any, IsSorted,
  at_lem, arith,
}
use shredstream_proxy.Ledger.{Ledger, Shred}
use shredstream_proxy.FecInfo.{get_data_shred_info}
use shredstream_proxy.Tracker.{ShredsStateTracker, recovered}
use shredstream_proxy.Tracker.Invariant.{IsValid}
use shredstream_proxy.Reconstruct.{Slots, SlotsValid, FecSetValid}
use shredstream_proxy.Reconstruct.Cleanup.{MissedSet, Report, missed_sets, add_missed}
use shredstream_proxy.Reconstruct.Remaining.{
  by_set, by_slot, sort_sets, incomplete_fec_sets, debug_remaining_shreds,
}

-- The report has an entry of the slot with the row.
abbrev pub IsListed : Report → ℕ → MissedSet → Type 0
IsListed r slot x = Any (λ y. (y.0 ≡ slot) × Any (λ z. z ≡ x) y.1) r

sorted-IsListed :
    (r : Report) (slot : ℕ) (x : MissedSet) → IsListed r slot x → IsListed (map sort_sets r) slot x
sorted-IsListed [] slot x h = h
sorted-IsListed (y ∷ r) slot x (inl p) = inl (p.0, sort_by_key-Any by_set (λ z. z ≡ x) y.1 p.1)
sorted-IsListed (y ∷ r) slot x (inr h) = inr (sorted-IsListed r slot x h)

add_missed-IsListed :
    (slot : ℕ) (x : MissedSet) (xs : List MissedSet) (r : Report)
    → Any (λ z. z ≡ x) xs
    → IsListed (add_missed slot xs r) slot x
add_missed-IsListed slot x [] r h = absurd h
add_missed-IsListed slot x (y ∷ xs) r h = inl (refl, h)

add_missed-later :
    (slot slot' : ℕ) (x : MissedSet) (xs : List MissedSet) (r : Report)
    → IsListed r slot' x
    → IsListed (add_missed slot xs r) slot' x
add_missed-later slot slot' x [] r h = h
add_missed-later slot slot' x (y ∷ xs) r h = inr h

module _ {L : Ledger} where
  -- What is to be said of a FEC set: its index, how many data shreds are expected, and how many
  -- shreds are there.
  abbrev pub row_of : ℕ × List (Shred L) → MissedSet
  row_of e = (e.0, (get_data_shred_info e.1).num_expected_data_shreds, length e.1)

  -- A row says this of a FEC set of the slot that was not recovered.
  abbrev pub IsMissed : ShredsStateTracker L → List (ℕ × List (Shred L)) → MissedSet → Type 0
  IsMissed t sets x = Any (λ e. (row_of e ≡ x) × (recovered t e.0 ≡ false)) sets

  -- Every FEC set of the slot that was not recovered has a row among these.
  abbrev pub AllListed :
      ShredsStateTracker L → List (ℕ × List (Shred L)) → (MissedSet → Type 0) → Type 0
  AllListed t sets listed = All (λ e. recovered t e.0 ≡ false → listed (row_of e)) sets

  missed_sets_lem :
      (t : ShredsStateTracker L) (sets : List (ℕ × List (Shred L)))
      → IsValid t
      → All (λ e. FecSetValid e.0 e.1) sets
      → Ensures
          (λ xs. All (IsMissed t sets) xs × AllListed t sets (λ x. Any (λ y. y ≡ x) xs))
          (missed_sets t sets)
  unfolding missed_sets
  missed_sets_lem t [] v h = ensures (tt, tt)
  missed_sets_lem t ((fec, shreds) ∷ rest) v h =
      rw (at_lem t.already_recovered_fec_sets fec false (omega (arith, h.0.0, v.recovered_length)))
        (Ensures-bind _ (missed_sets_lem t rest v h.1) λ xs p. elim (Bool-cases (recovered t fec)) [
          | inl e ↦ rw e (ensures (All-mono _ _ xs (λ x q. inr q) p.0, ((λ f. cc), p.1)))
          | inr e ↦ rw e (
              ensures (
                (inl (refl, e), All-mono _ _ xs (λ x q. inr q) p.0),
                ((λ f. inl refl), All-mono _ _ rest (λ s q f. inr (q f)) p.1),
              ))
        ])

  -- The entry of a slot in the report: not empty, and each row is of a FEC set of that slot.
  abbrev pub Remains : Slots L → ℕ × List MissedSet → Type 0
  Remains m y = Any (λ e. (e.0 ≡ y.0) × All (IsMissed e.1.tracker e.1.fec_sets) y.1) m

  -- Every FEC set of every slot that was not recovered has its row.
  abbrev pub IsComplete : Slots L → Report → Type 0
  IsComplete m r = All (λ e. AllListed e.1.tracker e.1.fec_sets (IsListed r e.0)) m

  add_missed-Remains :
      (m : Slots L) (slot : ℕ) (xs : List MissedSet) (r : Report)
      → Remains m (slot, xs)
      → All (Remains m) r
      → All (Remains m) (add_missed slot xs r)
  add_missed-Remains m slot [] r h k = k
  add_missed-Remains m slot (x ∷ xs) r h k = (h, k)

  AllListed-mono :
      (t : ShredsStateTracker L) (sets : List (ℕ × List (Shred L))) (P Q : MissedSet → Type 0)
      → ((x : MissedSet) → P x → Q x)
      → AllListed t sets P
      → AllListed t sets Q
  AllListed-mono t sets P Q f h = All-mono _ _ sets (λ e g n. f (row_of e) (g n)) h

  incomplete_fec_sets_lem :
      (m : Slots L)
      → SlotsValid m
      → Ensures (λ r. All (Remains m) r.1 × IsComplete m r.1) (incomplete_fec_sets m)
  unfolding incomplete_fec_sets
  incomplete_fec_sets_lem [] v = ensures (tt, tt)
  incomplete_fec_sets_lem ((slot, s) ∷ rest) v =
      Ensures-bind _ (missed_sets_lem s.tracker s.fec_sets v.0.tracker_valid v.0.fec_sets_valid)
        λ xs p. Ensures-bind _ (incomplete_fec_sets_lem rest v.1) λ r q. ensures (
          add_missed-Remains ((slot, s) ∷ rest) slot xs r.1 (inl (refl, p.0))
              (All-mono _ _ r.1 (λ y h. inr h) q.0),
          (
            AllListed-mono s.tracker s.fec_sets _ _ (λ x h. add_missed-IsListed slot x xs r.1 h)
                p.1,
            All-mono _ _ rest
                (λ e h.
                  AllListed-mono e.1.tracker e.1.fec_sets _ _
                    (λ x g. add_missed-later slot e.0 x xs r.1 g) h)
                q.1,
          ),
        )

  sort_sets-Remains : (m : Slots L) (y : ℕ × List MissedSet) → Remains m y → Remains m (sort_sets y)
  sort_sets-Remains [] y h = h
  sort_sets-Remains (e ∷ rest) y (inl p) =
      inl (p.0, sort_by_key-All by_set (IsMissed e.1.tracker e.1.fec_sets) y.1 p.1)
  sort_sets-Remains (e ∷ rest) y (inr h) = inr (sort_sets-Remains rest y h)

  -- An entry as it is printed: it remains, and its sets are sorted.
  abbrev pub IsPrinted : Slots L → ℕ × List MissedSet → Type 0
  IsPrinted m y = Remains m y × IsSorted by_set y.1

  sorted-IsPrinted :
      (m : Slots L) (r : Report) → All (Remains m) r → All (IsPrinted m) (map sort_sets r)
  sorted-IsPrinted m [] h = tt
  sorted-IsPrinted m (y ∷ r) h =
      ((sort_sets-Remains m y h.0, sort_by_key-IsSorted by_set y.1), sorted-IsPrinted m r h.1)

  -- On valid slots it does not panic. What it prints is sorted by slot, each slot's sets by their
  -- index; every set that was not recovered is printed for its slot, with the number of data shreds
  -- expected and that of the shreds that are there, and every row printed is that of such a set.
  pub debug_remaining_shreds-IsPrinted :
      (m : Slots L)
      → SlotsValid m
      → Ensures
          (λ r. All (IsPrinted m) r × IsComplete m r × IsSorted by_slot r)
          (debug_remaining_shreds m)
  unfolding debug_remaining_shreds
  debug_remaining_shreds-IsPrinted m v = Ensures-bind _ (incomplete_fec_sets_lem m v) λ r q.
      ensures (
        sort_by_key-All by_slot (IsPrinted m) (map sort_sets r.1) (sorted-IsPrinted m r.1 q.0),
        All-mono _ _ m
            (λ e h.
              AllListed-mono e.1.tracker e.1.fec_sets _ _
                (λ x g.
                  sort_by_key-Any by_slot (λ y. (y.0 ≡ e.0) × Any (λ z. z ≡ x) y.1)
                    (map sort_sets r.1) (sorted-IsListed r.1 e.0 x g))
                h)
            q.1,
        sort_by_key-IsSorted by_slot (map sort_sets r.1),
      )
