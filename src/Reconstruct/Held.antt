-- ===== src/Reconstruct/Held.antt =====
-- What all shreds that are held (proxy/src/deshred.rs, `all_shreds`) have in common.
use shredstream_proxy.Common.{
  ℕ, zero, suc, ℕ_discrete, ◌≡◌, sym, subst, Option, none, some, List, [], ◌∷◌, map, All, take,
  drop, entry, entry-insert_self, entry-insert_ne, insert, lookup, replicate,
}
use shredstream_proxy.Ledger.{Ledger, Shred}
use shredstream_proxy.Tracker.{default}
use shredstream_proxy.Reconstruct.{Codec, SlotState, Slots, IfSome, new_slot}
use shredstream_proxy.Reconstruct.Ingest.Accounted.{parsed}

module _ {L : Ledger} (Q : Shred L → Type 0) where
  -- Recovery from such shreds gives such shreds.
  abbrev pub IsClosed : Codec L → Type 0
  IsClosed C =
      (xs : List (Shred L)) (ys : List (Option (Shred L)))
      → All Q xs
      → C.recover xs ≡ some ys
      → All (IfSome Q) ys

  -- Each packet of a batch that holds a shred holds such a one.
  abbrev pub Brings : (C : Codec L) → List C.Packet → Type 0
  Brings C batch = All (λ p. (s : Shred L) → parsed C p ≡ some s → Q s) batch

  -- In the tracker and in the FEC sets of a slot.
  pub record SlotHeld (s : SlotState L) : Type 0 where
    pub places : All (IfSome Q) s.tracker.data_shreds
    pub sets : (fec : ℕ) → All Q (entry [] fec s.fec_sets)

  abbrev pub Held : Slots L → Type 0
  Held m = (slot : ℕ) → SlotHeld (entry (new_slot L) slot m)

  none_held : (n : ℕ) → All (IfSome Q) (replicate n none)
  none_held zero = tt
  none_held (suc n) = (tt, none_held n)

  pub new_slot-SlotHeld : SlotHeld (new_slot L)
  unfolding new_slot default entry lookup
  new_slot-SlotHeld = record { places = none_held L.max_data_shreds_per_slot; sets = λ fec. tt }

  pub Held-nil : Held []
  unfolding entry lookup
  Held-nil slot = new_slot-SlotHeld

  pub Held-insert :
      (m : Slots L) (slot : ℕ) (s : SlotState L) → Held m → SlotHeld s → Held (insert slot s m)
  Held-insert m slot s h k j = elim (ℕ_discrete slot j) [
    | yes e ↦
        subst (λ i. SlotHeld (entry (new_slot L) i (insert slot s m))) e
          (subst SlotHeld (sym (entry-insert_self (new_slot L) slot s m)) k)
    | no n ↦ subst SlotHeld (sym (entry-insert_ne (new_slot L) slot j s m n)) (h j)
  ]

  -- One FEC set is written back.
  pub sets-insert :
      (sets : List (ℕ × List (Shred L))) (fec : ℕ) (xs : List (Shred L))
      → ((f : ℕ) → All Q (entry [] f sets))
      → All Q xs
      → (f : ℕ) → All Q (entry [] f (insert fec xs sets))
  sets-insert sets fec xs h k f = elim (ℕ_discrete fec f) [
    | yes e ↦
        subst (λ i. All Q (entry [] i (insert fec xs sets))) e
          (subst (All Q) (sym (entry-insert_self [] fec xs sets)) k)
    | no n ↦ subst (All Q) (sym (entry-insert_ne [] fec f xs sets n)) (h f)
  ]

  take-Held : (n : ℕ) (v : List (Option (Shred L))) → All (IfSome Q) v → All (IfSome Q) (take n v)
  take-Held zero v h = tt
  take-Held (suc n) [] h = tt
  take-Held (suc n) (o ∷ v) h = (h.0, take-Held n v h.1)

  drop-Held : (n : ℕ) (v : List (Option (Shred L))) → All (IfSome Q) v → All (IfSome Q) (drop n v)
  drop-Held zero v h = h
  drop-Held (suc n) [] h = tt
  drop-Held (suc n) (o ∷ v) h = drop-Held n v h.1

  unwrap-Held : (xs : List (Shred L)) → All (IfSome Q) (map some xs) → All Q xs
  unwrap-Held [] h = tt
  unwrap-Held (x ∷ xs) h = (h.0, unwrap-Held xs h.1)

  -- The shreds of a slice.
  pub slice-Held :
      (v : List (Option (Shred L))) (n a : ℕ) (xs : List (Shred L))
      → map some xs ≡ take n (drop a v)
      → All (IfSome Q) v
      → All Q xs
  slice-Held v n a xs e h =
      unwrap-Held xs (subst (All (IfSome Q)) (sym e) (take-Held n (drop a v) (drop-Held a v h)))
