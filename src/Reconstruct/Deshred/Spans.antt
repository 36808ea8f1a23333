-- ===== src/Reconstruct/Deshred/Spans.antt =====
-- Spans of shreds in the slots that the deshredding loop (proxy/src/deshred.rs) works on.
use shredstream_proxy.Common.{
  ℕ, ◌≤◌, ◌<◌, ◌≡◌, ◌⊎◌, inl, inr, ◌≢◌, Bool, true, false, List, [], ◌∷◌, ◌++◌, All, All-append,
}

-- slot, first index, last index
abbrev pub Span : Type 0
Span = ℕ × ℕ × ℕ

pub clash : {b : Bool} → b ≡ true → b ≡ false → ⊥
clash h k = cc

-- Two spans have no shred in common.
abbrev pub Apart : Span → Span → Type 0
Apart x y = (x.0 ≢ y.0) ⊎ (x.2 < y.1) ⊎ (y.2 < x.1)

abbrev pub AllApart : List Span → Type 0
AllApart [] = Unit
AllApart (x ∷ xs) = All (Apart x) xs × AllApart xs

pub AllApart-snoc :
    (xs : List Span) (y : Span) → AllApart xs → All (λ x. Apart x y) xs → AllApart (xs ++ y ∷ [])
AllApart-snoc [] y h k = (tt, tt)
AllApart-snoc (x ∷ xs) y h k =
    (All-append (Apart x) xs (y ∷ []) h.0 (k.0, tt), AllApart-snoc xs y h.1 k.1)

pub AllApart-append :
    (xs ys : List Span)
    → AllApart xs
    → AllApart ys
    → All (λ x. All (Apart x) ys) xs
    → AllApart (xs ++ ys)
AllApart-append [] ys h k c = k
AllApart-append (x ∷ xs) ys h k c =
    (All-append (Apart x) xs ys h.0 c.0, AllApart-append xs ys h.1 k c.1)

-- One of the spans holds the place.
abbrev pub Covers : List Span → ℕ → ℕ → Type 0
Covers [] slot k = ⊥
Covers (x ∷ xs) slot k = ((x.0 ≡ slot) × (x.1 ≤ k) × (k ≤ x.2)) ⊎ Covers xs slot k

pub Covers-left : (xs ys : List Span) (slot k : ℕ) → Covers xs slot k → Covers (xs ++ ys) slot k
Covers-left [] ys slot k h = absurd h
Covers-left (x ∷ xs) ys slot k (inl h) = inl h
Covers-left (x ∷ xs) ys slot k (inr h) = inr (Covers-left xs ys slot k h)

pub Covers-right : (xs ys : List Span) (slot k : ℕ) → Covers ys slot k → Covers (xs ++ ys) slot k
Covers-right [] ys slot k h = h
Covers-right (x ∷ xs) ys slot k h = inr (Covers-right xs ys slot k h)
