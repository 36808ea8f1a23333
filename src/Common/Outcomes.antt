-- ===== src/Common/Outcomes.antt =====
-- Code that may panic: an index out of range, or `unwrap` of `None`.
use mathlib.Core.Path.{◌≡◌, refl, subst}
use mathlib.Core.List.{List, [], ◌∷◌}
use mathlib.Core.Logic.{◌⊎◌, inl, inr}
use mathlib.Core.Option.{Option, none, some}

pub data Outcome {ℓ} (A : Type ℓ) : Type ℓ where
  returns : A → Outcome A
  panics : Outcome A

infixl 5 ◌>>=◌
abbrev pub ◌>>=◌ {ℓ κ} : {A : Type ℓ} {B : Type κ} → Outcome A → (A → Outcome B) → Outcome B
returns a >>= f = f a
panics >>= f = panics

abbrev pub unwrap {ℓ} : {A : Type ℓ} → Option A → Outcome A
unwrap none = panics
unwrap (some a) = returns a

-- Total correctness: the code returns, and what it returns satisfies `P`.
pub data Ensures {ℓ κ} {A : Type ℓ} (P : A → Type κ) : Outcome A → Type (ℓ ⊔ κ) where
  ensures : {a : A} → P a → Ensures P (returns a)

module _ {ℓ κ μ} {A : Type ℓ} {B : Type κ} where
  pub Ensures-bind {ν} :
      {P : A → Type μ} {Q : B → Type ν} {m : Outcome A} (f : A → Outcome B)
      → Ensures P m
      → ((a : A) → P a → Ensures Q (f a))
      → Ensures Q (m >>= f)
  Ensures-bind f (ensures {a = x} p) k = k x p

module _ {ℓ κ} {A : Type ℓ} {P : A → Type κ} where
  -- What a call that ensures `P` returns.
  pub Ensures-returns : {m : Outcome A} → Ensures P m → (a : A) × (m ≡ returns a) × P a
  Ensures-returns (ensures {a = x} p) = (x, refl, p)

  -- The equation is kept.
  pub Ensures-known : {m : Outcome A} → Ensures P m → Ensures (λ a. P a × (m ≡ returns a)) m
  Ensures-known (ensures p) = ensures (p, refl)

  pub Ensures-of : {m : Outcome A} {a : A} → m ≡ returns a → P a → Ensures P m
  Ensures-of {a} e p = rw e (ensures p)

  pub Ensures-mono {μ} :
      {Q : A → Type μ} {m : Outcome A} → Ensures P m → ((a : A) → P a → Q a) → Ensures Q m
  Ensures-mono (ensures {a = x} p) f = ensures (f x p)

module _ {ℓ κ μ} {A : Type ℓ} {P : A → Type κ} {Q : A → Type μ} where
  pub Ensures-and : {m : Outcome A} → Ensures P m → Ensures Q m → Ensures (λ a. P a × Q a) m
  Ensures-and (ensures {a = x} p) q =
      let r = Ensures-returns q in let same : r.0 ≡ x = cc (r.1) in ensures (p, subst Q same r.2)

-- A predicate on every element; it computes to tuples.
module _ {ℓ κ} {A : Type ℓ} where
  abbrev pub All : (A → Type κ) → List A → Type κ
  All Q [] = Unit
  All Q (a ∷ rest) = Q a × All Q rest

-- A predicate on some element.
module _ {ℓ} {A : Type ℓ} where
  abbrev pub Any : (A → Type 0) → List A → Type 0
  Any Q [] = ⊥
  Any Q (a ∷ rest) = Q a ⊎ Any Q rest

-- Each element of a list is one of its elements.
module _ {ℓ} {A B : Type ℓ} (R : A → B → Type 0) where
  All-Any-cons :
      (x : A) (xs ys : List A)
      → All (λ a. (b : B) → R a b → Any (λ c. R c b) xs) ys
      → All (λ a. (b : B) → R a b → Any (λ c. R c b) (x ∷ xs)) ys
  All-Any-cons x xs [] h = tt
  All-Any-cons x xs (y ∷ ys) h = (λ b r. inr (h.0 b r), All-Any-cons x xs ys h.1)

  pub All-Any : (xs : List A) → All (λ a. (b : B) → R a b → Any (λ c. R c b) xs) xs
  All-Any [] = tt
  All-Any (x ∷ xs) = (λ b r. inl r, All-Any-cons x xs xs (All-Any xs))

-- What holds of the result, if the code returns one.
abbrev pub IfReturns {ℓ κ} : {A : Type ℓ} → (A → Type κ) → Outcome A → Type κ
IfReturns P (returns a) = P a
IfReturns P panics = Unit

module _ {ℓ κ μ} {A : Type ℓ} {B : Type κ} where
  pub IfReturns-bind {ν} :
      {P : A → Type μ} (Q : B → Type ν) (m : Outcome A) (f : A → Outcome B)
      → IfReturns P m
      → ((a : A) → P a → IfReturns Q (f a))
      → IfReturns Q (m >>= f)
  IfReturns-bind Q (returns a) f p k = k a p
  IfReturns-bind Q panics f p k = tt

module _ {ℓ κ μ} {A : Type ℓ} {P : A → Type κ} {Q : A → Type μ} where
  pub Ensures-IfReturns : {m : Outcome A} → Ensures P m → IfReturns Q m → Ensures (λ a. P a × Q a) m
  Ensures-IfReturns (ensures p) q = ensures (p, q)

-- A `for` loop over a collection.
module _ {ℓ κ} {S : Type ℓ} {A : Type κ} where
  unfoldable pub for_each : (A → S → Outcome S) → List A → S → Outcome S
  for_each body [] s = returns s
  for_each body (x ∷ xs) s = do s' ← body x s; for_each body xs s'

-- The rule for a loop: what each round keeps holds at the end.
module _ {ℓ κ μ ν} {S : Type ℓ} {A : Type κ} (P : S → Type μ) (Q : A → Type ν) where
  pub for_each-Ensures :
      (body : A → S → Outcome S)
      → ((a : A) (s : S) → Q a → P s → Ensures P (body a s))
      → (xs : List A) (s : S) → All Q xs
      → P s
      → Ensures P (for_each body xs s)
  unfolding for_each
  for_each-Ensures body keep [] s q p = ensures p
  for_each-Ensures body keep (x ∷ xs) s q p =
      Ensures-bind _ (keep x s q.0 p) λ s' p'. for_each-Ensures body keep xs s' q.1 p'

-- The rule for a loop whose rounds each reach something that later rounds keep.
module _ {ℓ κ μ ν} {S : Type ℓ} {A : Type κ} (P : S → Type μ) (Done : A → S → Type ν)
    (Later : S → S → Type ν) where
  abbrev Round : S → A → S → Type (μ ⊔ ν)
  Round s a s' = P s' × Later s s' × Done a s'

  pub for_each-Each :
      (body : A → S → Outcome S)
      → ((s : S) → Later s s)
      → ((s t u : S) → Later s t → Later t u → Later s u)
      → ((a : A) (s t : S) → Later s t → Done a s → Done a t)
      → (Q : A → Type ν) → ((a : A) (s : S) → Q a → P s → Ensures (Round s a) (body a s))
      → (xs : List A) (s : S) → All Q xs
      → P s
      → Ensures (λ t. P t × Later s t × All (λ a. Done a t) xs) (for_each body xs s)
  unfolding for_each
  for_each-Each body refl_of trans keep Q round [] s q p = ensures (p, refl_of s, tt)
  for_each-Each body refl_of trans keep Q round (x ∷ xs) s q p =
      Ensures-bind _ (round x s q.0 p) λ t r.
        Ensures-mono (for_each-Each body refl_of trans keep Q round xs t q.1 r.0)
          λ u h. (h.0, trans s t u r.1 h.1, (keep x t u h.1 r.2, h.2))

module _ {ℓ κ μ ν} {S : Type ℓ} {A : Type κ} (P : S → Type μ) (Q : A → Type ν) where
  pub for_each-IfReturns :
      (body : A → S → Outcome S)
      → ((a : A) (s : S) → Q a → P s → IfReturns P (body a s))
      → (xs : List A) (s : S) → All Q xs
      → P s
      → IfReturns P (for_each body xs s)
  unfolding for_each
  for_each-IfReturns body keep [] s q p = p
  for_each-IfReturns body keep (x ∷ xs) s q p =
      IfReturns-bind P (body x s) _ (keep x s q.0 p)
        λ s' p'. for_each-IfReturns body keep xs s' q.1 p'
