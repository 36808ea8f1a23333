-- ===== src/Common/Dedup.antt =====
-- `sort_unstable` and then `dedup` on a vector of pairs: a strictly increasing list of the same
-- pairs.
use mathlib.Core.Path.{◌≡◌, refl, ◌∙◌, ap}
use mathlib.Core.Logic.{inl, inr}
use mathlib.Core.Bool.{Bool, false, ◌||◌}
use mathlib.Core.List.{List, [], ◌∷◌, ◌++◌}
use native.Mathlib.Omega.{arith}
use shredstream_proxy.Common.Tests.{if◌then◌else◌, Bool-cases}
use shredstream_proxy.Common.Outcomes.{All}
use shredstream_proxy.Common.Sorting.{
  Key, key_eq, KeyLe, KeyLt, sort_by_key, insert_sorted, IsSorted, sort_by_key-IsSorted,
  sort_by_key-All,
}

unfoldable pub dedup : List Key → List Key
dedup [] = []
dedup (x ∷ []) = x ∷ []
dedup (x ∷ y ∷ rest) = let ys = dedup (y ∷ rest) in if key_eq x y then ys else x ∷ ys

unfoldable pub sort_dedup : List Key → List Key
unfolding dedup sort_by_key
sort_dedup xs = dedup (sort_by_key (λ k. k) xs)

-- Each pair is above the one before.
abbrev pub IsStrict : List Key → Type 0
IsStrict [] = Unit
IsStrict (x ∷ xs) = All (KeyLt x) xs × IsStrict xs

abbrev pub contains : Key → List Key → Bool
contains k [] = false
contains k (x ∷ xs) = key_eq k x || contains k xs

dedup-All {κ} : (P : Key → Type κ) (xs : List Key) → All P xs → All P (dedup xs)
unfolding dedup
dedup-All P [] h = tt
dedup-All P (x ∷ []) h = h
dedup-All P (x ∷ y ∷ rest) h = elim (Bool-cases (key_eq x y)) [
  | inl e ↦ rw e (dedup-All P (y ∷ rest) h.1)
  | inr e ↦ rw e (h.0, dedup-All P (y ∷ rest) h.1)
]

All-KeyLt :
    (a b : Key) (ys : List Key)
    → KeyLe a b
    → key_eq a b ≡ false
    → All (KeyLe b) ys
    → All (KeyLt a) ys
All-KeyLt a b [] h n k = tt
All-KeyLt a b (y ∷ ys) h n k = (ground arith, All-KeyLt a b ys h n k.1)

dedup-IsStrict : (xs : List Key) → IsSorted (λ k. k) xs → IsStrict (dedup xs)
unfolding dedup
dedup-IsStrict [] h = tt
dedup-IsStrict (x ∷ []) h = (tt, tt)
dedup-IsStrict (x ∷ y ∷ rest) h = elim (Bool-cases (key_eq x y)) [
  | inl e ↦ rw e (dedup-IsStrict (y ∷ rest) h.1)
  | inr e ↦ rw e (
    dedup-All (KeyLt x) (y ∷ rest) (ground arith, All-KeyLt x y rest h.0.0 e h.1.0),
    dedup-IsStrict (y ∷ rest) h.1,
  )
]

contains-insert_sorted :
    (k x : Key) (xs : List Key)
    → contains k (insert_sorted (λ j. j) x xs) ≡ (key_eq k x || contains k xs)
unfolding insert_sorted
contains-insert_sorted k x [] = refl
contains-insert_sorted k x (y ∷ ys) = ground (arith, contains-insert_sorted k x ys)

contains-sort : (k : Key) (xs : List Key) → contains k (sort_by_key (λ j. j) xs) ≡ contains k xs
unfolding sort_by_key
contains-sort k [] = refl
contains-sort k (x ∷ xs) =
    contains-insert_sorted k x (sort_by_key (λ j. j) xs)
    ∙ ap (◌||◌ (key_eq k x)) (contains-sort k xs)

contains-dedup : (k : Key) (xs : List Key) → contains k (dedup xs) ≡ contains k xs
unfolding dedup
contains-dedup k [] = refl
contains-dedup k (x ∷ []) = refl
contains-dedup k (x ∷ y ∷ rest) = ground (arith, contains-dedup k (y ∷ rest))

pub sort_dedup-IsStrict : (xs : List Key) → IsStrict (sort_dedup xs)
unfolding sort_dedup
sort_dedup-IsStrict xs = dedup-IsStrict _ (sort_by_key-IsSorted (λ k. k) xs)

pub contains-sort_dedup : (k : Key) (xs : List Key) → contains k (sort_dedup xs) ≡ contains k xs
unfolding sort_dedup
contains-sort_dedup k xs = contains-dedup k (sort_by_key (λ j. j) xs) ∙ contains-sort k xs

pub sort_dedup-All {κ} : (P : Key → Type κ) (xs : List Key) → All P xs → All P (sort_dedup xs)
unfolding sort_dedup
sort_dedup-All P xs h = dedup-All P _ (sort_by_key-All (λ k. k) P xs h)

pub contains-append :
    (k : Key) (xs ys : List Key) → contains k (xs ++ ys) ≡ (contains k xs || contains k ys)
contains-append k [] ys = refl
contains-append k (x ∷ xs) ys = ground (arith, contains-append k xs ys)
