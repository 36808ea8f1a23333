-- ===== src/Examples/Nines.antt =====
-- A property of the toy shreds that is kept: the payload of a data shred is one byte, a 9.
use shredstream_proxy.Common.{
  ℕ, zero, suc, ℕ_discrete, ◌≡◌, refl, subst, sym, ◌⊎◌, inl, inr, true, false, Option, none, some,
  List, [], ◌∷◌, All, ltb, Bool-cases, entry, entry-insert_ne, arith,
}
use shredstream_proxy.Ledger.{Shred, shred_code, shred_data}
use shredstream_proxy.Reconstruct.{IfSome, new_slot}
use shredstream_proxy.Reconstruct.Held.{IsClosed, Brings, SlotHeld, Held, Held-nil, sets-insert}
use shredstream_proxy.Examples.Toy.{toy, toy_codec, toy_data, toy_code, toy_slots}

abbrev pub IsNine : Shred toy → Type 0
IsNine (shred_code s) = Unit
IsNine (shred_data s) = s.payload ≡ 9 ∷ []

unsome : {A : Type 0} {x y : A} → ◌≡◌ {A = Option A} (some x) (some y) → x ≡ y
unsome h = cc

pub toy_codec-IsClosed : IsClosed IsNine toy_codec
toy_codec-IsClosed xs ys h e = subst (All (IfSome IsNine)) (unsome e) (refl, (tt, tt))

toy_parse-IsNine : (b : List ℕ) (s : Shred toy) → toy_codec.parse b ≡ some s → IsNine s
toy_parse-IsNine [] s e = cc
toy_parse-IsNine (index ∷ []) s e = cc
toy_parse-IsNine (index ∷ flag ∷ []) s e = elim (Bool-cases (ltb index 4)) [
  | inl h ↦ subst IsNine (unsome {x = toy_data index flag} (ground arith)) refl
  | inr h ↦ absurd (ground arith)
]
toy_parse-IsNine (index ∷ flag ∷ x ∷ rest) s e = cc

pub toy_codec-Brings : (batch : List (List ℕ)) → Brings IsNine toy_codec batch
toy_codec-Brings [] = tt
toy_codec-Brings (p ∷ batch) = (λ s e. toy_parse-IsNine p s e, toy_codec-Brings batch)

toy_sets :
    (fec : ℕ) → All IsNine (entry [] fec ((0, toy_data 0 0 ∷ toy_data 1 1 ∷ toy_code ∷ []) ∷ []))
unfolding entry shredstream_proxy.Common.lookup shredstream_proxy.Common.insert
toy_sets fec = sets-insert IsNine [] 0 _ (λ f. tt) (refl, (refl, (tt, tt))) fec

pub toy_slots-Held : Held IsNine toy_slots
unfolding entry shredstream_proxy.Common.lookup shredstream_proxy.Common.insert
toy_slots-Held slot = elim (ℕ_discrete 5 slot) [
  | yes e ↦
      subst (λ i. SlotHeld IsNine (entry (new_slot toy) i toy_slots)) e
        (record { places = (refl, (refl, (refl, (tt, tt)))); sets = toy_sets })
  | no n ↦
      subst (SlotHeld IsNine) (sym (entry-insert_ne (new_slot toy) 5 slot _ [] n))
        (Held-nil IsNine slot)
]
