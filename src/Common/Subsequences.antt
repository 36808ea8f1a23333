-- ===== src/Common/Subsequences.antt =====
-- What is left of a list, in its order, when some of its elements are dropped.
use mathlib.Core.List.{List, [], ◌∷◌, ◌++◌}

pub data Subsequence {ℓ} {A : Type ℓ} : List A → List A → Type ℓ where
  done : Subsequence [] []
  keep : {x : A} {xs ys : List A} → Subsequence xs ys → Subsequence (x ∷ xs) (x ∷ ys)
  skip : {y : A} {xs ys : List A} → Subsequence xs ys → Subsequence xs (y ∷ ys)

module _ {ℓ} {A : Type ℓ} where
  pub Subsequence-keep_last :
      {xs ys : List A} (z : A) → Subsequence xs ys → Subsequence (xs ++ z ∷ []) (ys ++ z ∷ [])
  Subsequence-keep_last z done = keep done
  Subsequence-keep_last z (keep s) = keep (Subsequence-keep_last z s)
  Subsequence-keep_last z (skip s) = skip (Subsequence-keep_last z s)

  pub Subsequence-skip_last :
      {xs ys : List A} (z : A) → Subsequence xs ys → Subsequence xs (ys ++ z ∷ [])
  Subsequence-skip_last z done = skip done
  Subsequence-skip_last z (keep s) = keep (Subsequence-skip_last z s)
  Subsequence-skip_last z (skip s) = skip (Subsequence-skip_last z s)
