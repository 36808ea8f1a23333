-- ===== src/Reconstruct/Deshred/Exhausted.antt =====
-- Segments that the deshredding loop (proxy/src/deshred.rs, `reconstruct_shreds`) has nothing more
-- to do for: none is complete and not given out, unless its bytes cannot be decoded.
use mathlib.Core.Path.{ap₂}
use shredstream_proxy.Common.{
  ℕ, zero, suc, ◌-◌, ◌≡◌, refl, sym, ◌∙◌, ap, Bool, true, some, List, [], ◌∷◌, map, take, drop,
  arith,
}
use shredstream_proxy.Ledger.{Ledger, Shred, payload}
use shredstream_proxy.Tracker.{ShredsStateTracker, deshredded}
use shredstream_proxy.Segments.Spec.{IsSegment, StartsAfter, IsSegment-unique}
use shredstream_proxy.Reconstruct.{Codec}

map-some_inj : {A : Type 0} (xs ys : List A) → map some xs ≡ map some ys → xs ≡ ys
map-some_inj [] [] e = refl
map-some_inj [] (y ∷ ys) e = cc
map-some_inj (x ∷ xs) [] e = cc
map-some_inj (x ∷ xs) (y ∷ ys) e = ground (arith, map-some_inj xs ys)

module _ {L : Ledger} where
  -- A later tracker: the same shreds, no fewer marks.
  pub record Kept (t t' : ShredsStateTracker L) : Type 0 where
    pub same_status : t'.data_status ≡ t.data_status
    pub same_shreds : t'.data_shreds ≡ t.data_shreds
    pub marks_stay : (k : ℕ) → deshredded t k ≡ true → deshredded t' k ≡ true

  StartsAfter-same :
      (t t' : ShredsStateTracker L) (start : ℕ) (u : Bool)
      → t'.data_status ≡ t.data_status
      → StartsAfter t' start u
      → StartsAfter t start u
  StartsAfter-same t t' zero u e h = h
  StartsAfter-same t t' (suc p) u e h = rw (← e) h

  pub IsSegment-before :
      {t t' : ShredsStateTracker L} {index a b : ℕ} {u : Bool}
      → Kept t t'
      → IsSegment t' index a b u
      → IsSegment t index a b u
  IsSegment-before {t} {t'} {a = a} {u = u} c g = record {
    start_le = g.start_le;
    le_end = g.le_end;
    in_range = rw (← c.same_status) g.in_range;
    inner = λ k h i. rw (← c.same_status) (g.inner k h i);
    last = rw (← c.same_status) g.last;
    fresh = λ k h i. ground (arith, g.fresh k h i, c.marks_stay k);
    starts = StartsAfter-same t t' a u c.same_status g.starts;
  }

module _ {L : Ledger} (C : Codec L) where
  -- The data shreds from `a` to `b` do not give entries.
  abbrev pub Undecodable : ShredsStateTracker L → ℕ → ℕ → Type 0
  Undecodable t a b =
      (shreds : List (Shred L)) (bytes : List ℕ) (entries : List C.Entry)
      → map some shreds ≡ take (suc b - a) (drop a t.data_shreds)
      → C.deshred (map payload shreds) ≡ some bytes
      → ¬ (C.deserialize bytes ≡ some entries)

  abbrev pub Exhausted : ShredsStateTracker L → ℕ → Type 0
  Exhausted t index = (a b : ℕ) (u : Bool) → IsSegment t index a b u → Undecodable t a b

  pub Exhausted-later :
      {t t' : ShredsStateTracker L} {index : ℕ} → Kept t t' → Exhausted t index → Exhausted t' index
  Exhausted-later c h a b u g shreds bytes entries e f =
      h a b u (IsSegment-before c g) shreds bytes entries
        (e ∙ ap (λ v. take (suc b - a) (drop a v)) c.same_shreds) f

  -- A segment whose bytes fail.
  pub Exhausted-failed :
      {t : ShredsStateTracker L} {index a b : ℕ} {u : Bool} (xs : List (Shred L))
      → IsSegment t index a b u
      → map some xs ≡ take (suc b - a) (drop a t.data_shreds)
      → ((bytes : List ℕ) (entries : List C.Entry)
          → C.deshred (map payload xs) ≡ some bytes
          → ¬ (C.deserialize bytes ≡ some entries))
      → Exhausted t index
  Exhausted-failed {t} {index} {a} {b} xs g q fails a' b' u' g' shreds bytes entries e f =
      let same = IsSegment-unique index a b a' b' g g' in
      let alike : shreds ≡ xs = map-some_inj shreds xs (
        e
        ∙ ap₂ (λ x y. take (suc y - x) (drop x t.data_shreds)) (sym same.0) (sym same.1)
        ∙ sym q) in
      fails bytes entries (ap (λ ys. C.deshred (map payload ys)) (sym alike) ∙ f)

  -- A segment that is marked.
  pub Exhausted-marked :
      {t : ShredsStateTracker L} {index : ℕ} → deshredded t index ≡ true → Exhausted t index
  Exhausted-marked {index = index} done a' b' u' g' shreds bytes entries e f h =
      cc (done, g'.fresh index g'.start_le g'.le_end)
