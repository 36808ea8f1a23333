-- ===== src/Common/Sorting.antt =====
-- Rust's `sort`, `sort_unstable` and `sorted_by_key` by a pair of numbers, and `dedup`.
use mathlib.Core.List.{Perm}
use mathlib.Core.List.Perm
use Prim.Native.Nat.{ℕ, ◌≤◌, ◌<◌}
use mathlib.Core.Path.{◌≡◌}
use mathlib.Core.Logic.{◌⊎◌, inl, inr}
use mathlib.Core.Bool.{Bool, ◌&&◌, ◌||◌}
use mathlib.Core.List.{List, [], ◌∷◌}
use native.Mathlib.Omega.{arith}
use shredstream_proxy.Common.Tests.{ltb, leb, ◌==◌, if◌then◌else◌, Bool-cases}
use shredstream_proxy.Common.Outcomes.{All, Any}

abbrev pub Key : Type 0
Key = ℕ × ℕ

-- Tuples compare by their first parts, then by their second parts.
abbrev pub key_le : Key → Key → Bool
key_le a b = ltb a.0 b.0 || (a.0 == b.0 && leb a.1 b.1)

abbrev pub key_eq : Key → Key → Bool
key_eq a b = a.0 == b.0 && a.1 == b.1

abbrev pub KeyLe : Key → Key → Type 0
KeyLe a b = (a.0 < b.0) ⊎ ((a.0 ≡ b.0) × (a.1 ≤ b.1))

abbrev pub KeyLt : Key → Key → Type 0
KeyLt a b = (a.0 < b.0) ⊎ ((a.0 ≡ b.0) × (a.1 < b.1))

module _ {ℓ} {A : Type ℓ} (key : A → Key) where
  unfoldable pub insert_sorted : A → List A → List A
  insert_sorted x [] = x ∷ []
  insert_sorted x (y ∷ ys) = if key_le (key x) (key y) then x ∷ y ∷ ys else y ∷ insert_sorted x ys

  -- A stable sort.
  unfoldable pub sort_by_key : List A → List A
  unfolding insert_sorted
  sort_by_key [] = []
  sort_by_key (x ∷ xs) = insert_sorted x (sort_by_key xs)

  abbrev pub IsSorted : List A → Type ℓ
  IsSorted [] = Unit
  IsSorted (x ∷ xs) = All (λ y. KeyLe (key x) (key y)) xs × IsSorted xs

  insert_sorted-perm : (x : A) (ys : List A) → Perm (insert_sorted x ys) (x ∷ ys)
  unfolding insert_sorted
  insert_sorted-perm x [] = Perm.refl _
  insert_sorted-perm x (y ∷ ys) = elim (Bool-cases (key_le (key x) (key y))) [
    | inl e ↦ rw e (Perm.refl _)
    | inr e ↦ rw e (Perm.trans (Perm.cons y (insert_sorted-perm x ys)) (Perm.swap x y ys))
  ]

  pub sort_by_key-perm : (xs : List A) → Perm (sort_by_key xs) xs
  unfolding sort_by_key
  sort_by_key-perm [] = Perm.refl _
  sort_by_key-perm (x ∷ xs) =
      Perm.trans (insert_sorted-perm x (sort_by_key xs)) (Perm.cons x (sort_by_key-perm xs))

  insert_sorted-All {κ} :
      (P : A → Type κ) (x : A) (ys : List A) → P x → All P ys → All P (insert_sorted x ys)
  unfolding insert_sorted
  insert_sorted-All P x [] p h = (p, tt)
  insert_sorted-All P x (y ∷ ys) p h = elim (Bool-cases (key_le (key x) (key y))) [
    | inl e ↦ rw e (p, h)
    | inr e ↦ rw e (h.0, insert_sorted-All P x ys p h.1)
  ]

  pub sort_by_key-All {κ} : (P : A → Type κ) (xs : List A) → All P xs → All P (sort_by_key xs)
  unfolding sort_by_key
  sort_by_key-All P [] h = tt
  sort_by_key-All P (x ∷ xs) h = insert_sorted-All P x _ h.0 (sort_by_key-All P xs h.1)

  insert_sorted-Any :
      (P : A → Type 0) (x : A) (ys : List A) → P x ⊎ Any P ys → Any P (insert_sorted x ys)
  unfolding insert_sorted
  insert_sorted-Any P x [] h = h
  insert_sorted-Any P x (y ∷ ys) (inl p) = elim (Bool-cases (key_le (key x) (key y))) [
    | inl e ↦ rw e (inl p)
    | inr e ↦ rw e (inr (insert_sorted-Any P x ys (inl p)))
  ]
  insert_sorted-Any P x (y ∷ ys) (inr (inl q)) = elim (Bool-cases (key_le (key x) (key y))) [
    | inl e ↦ rw e (inr (inl q))
    | inr e ↦ rw e (inl q)
  ]
  insert_sorted-Any P x (y ∷ ys) (inr (inr h)) = elim (Bool-cases (key_le (key x) (key y))) [
    | inl e ↦ rw e (inr (inr h))
    | inr e ↦ rw e (inr (insert_sorted-Any P x ys (inr h)))
  ]

  pub sort_by_key-Any : (P : A → Type 0) (xs : List A) → Any P xs → Any P (sort_by_key xs)
  unfolding sort_by_key
  sort_by_key-Any P [] h = h
  sort_by_key-Any P (x ∷ xs) (inl p) = insert_sorted-Any P x _ (inl p)
  sort_by_key-Any P (x ∷ xs) (inr h) = insert_sorted-Any P x _ (inr (sort_by_key-Any P xs h))

  All-KeyLe :
      (a b : Key) (ys : List A)
      → KeyLe a b
      → All (λ y. KeyLe b (key y)) ys
      → All (λ y. KeyLe a (key y)) ys
  All-KeyLe a b [] h k = tt
  All-KeyLe a b (y ∷ ys) h k = (omega arith, All-KeyLe a b ys h k.1)

  insert_sorted-IsSorted : (x : A) (ys : List A) → IsSorted ys → IsSorted (insert_sorted x ys)
  unfolding insert_sorted
  insert_sorted-IsSorted x [] h = (tt, tt)
  insert_sorted-IsSorted x (y ∷ ys) h = elim (Bool-cases (key_le (key x) (key y))) [
    | inl e ↦ rw e ((ground arith, All-KeyLe (key x) (key y) ys (ground arith) h.0), h)
    | inr e ↦ rw e (
      insert_sorted-All (λ z. KeyLe (key y) (key z)) x ys (ground arith) h.0,
      insert_sorted-IsSorted x ys h.1,
    )
  ]

  pub sort_by_key-IsSorted : (xs : List A) → IsSorted (sort_by_key xs)
  unfolding sort_by_key
  sort_by_key-IsSorted [] = tt
  sort_by_key-IsSorted (x ∷ xs) =
      insert_sorted-IsSorted x (sort_by_key xs) (sort_by_key-IsSorted xs)
