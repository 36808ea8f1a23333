-- ===== src/Common/Maps.antt =====
-- Hash maps as association lists. The order of the pairs is that of insertion; no theorem uses it.
use Prim.Native.Nat.{ℕ}
use mathlib.Core.Path.{◌≡◌, refl}
use mathlib.Core.Logic.{◌≢◌}
use mathlib.Core.List.{List, [], ◌∷◌}
use mathlib.Core.Option.{Option, none, some}
use native.Mathlib.Omega.{arith}
use shredstream_proxy.Common.Tests.{◌==◌, if◌then◌else◌}
use shredstream_proxy.Common.Outcomes.{All}

-- The pairs of a map.
abbrev pub Table {ℓ} : Type ℓ → Type ℓ
Table V = List (ℕ × V)

module _ {ℓ} {V : Type ℓ} where
  unfoldable pub lookup : ℕ → Table V → Option V
  lookup k [] = none
  lookup k (e ∷ table) = if e.0 == k then some e.1 else lookup k table

  unfoldable pub insert : ℕ → V → Table V → Table V
  insert k v [] = (k, v) ∷ []
  insert k v (e ∷ table) = if e.0 == k then (k, v) ∷ table else e ∷ insert k v table

  abbrev pub or_default : V → Option V → V
  or_default d none = d
  or_default d (some v) = v

  -- `m.entry(k).or_default()`, read.
  unfoldable pub entry : V → ℕ → Table V → V
  entry d k m = or_default d (lookup k m)

  -- The value at the key just written, else the one from before.
  pub lookup-insert :
      (key j : ℕ) (new : V) (table : Table V)
      → lookup j (insert key new table) ≡ (if key == j then some new else lookup j table)
  unfolding insert lookup
  lookup-insert key j new [] = refl
  lookup-insert key j new (e ∷ table) = ground (arith, lookup-insert key j new table)

  pub entry-insert :
      (d : V) (k j : ℕ) (v : V) (m : Table V)
      → entry d j (insert k v m) ≡ (if k == j then v else entry d j m)
  unfolding entry
  entry-insert d k j v m = ground (arith, lookup-insert k j v m)

  pub entry-insert_self : (d : V) (k : ℕ) (v : V) (m : Table V) → entry d k (insert k v m) ≡ v
  entry-insert_self d k v m = ground (arith, entry-insert d k k v m)

  pub entry-insert_ne :
      (d : V) (k j : ℕ) (v : V) (m : Table V) → k ≢ j → entry d j (insert k v m) ≡ entry d j m
  entry-insert_ne d k j v m h = ground (arith, entry-insert d k j v m)

  module _ {κ} (P : ℕ → V → Type κ) where
    pub All-insert :
        (k : ℕ) (v : V) (m : Table V)
        → P k v
        → All (λ e. P e.0 e.1) m
        → All (λ e. P e.0 e.1) (insert k v m)
    unfolding insert
    All-insert k v [] p h = (p, tt)
    All-insert k v (e ∷ m) p h = ground (arith, All-insert k v m p h.1)

    pub All-entry :
        (d : V) (k : ℕ) (m : Table V) → P k d → All (λ e. P e.0 e.1) m → P k (entry d k m)
    unfolding entry lookup
    All-entry d k [] p h = p
    All-entry d k (e ∷ m) p h = ground (arith, All-entry d k m p h.1)
