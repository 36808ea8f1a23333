-- ===== src/Reconstruct/Deshred/Marks.antt =====
-- The places of a segment (proxy/src/deshred.rs, `reconstruct_shreds`): all hold the data shred of
-- their index, so the `unwrap` and the marks after the push do not panic.
use shredstream_proxy.Common.{
  ℕ, zero, suc, ◌+◌, ◌-◌, ◌≤◌, ◌<◌, ◌≡◌, refl, sym, ap, subst, ◌∙◌, ◌≢◌, true, false, ◌&&◌, ◌||◌,
  Option, none, some, List, [], ◌∷◌, map, returns, Ensures, ensures, Ensures-bind, Ensures-mono,
  for_each, put_lem, length, length-set, length-take, length-drop, get_or, get_or-set, set, take,
  drop, ltb, leb, lt→ltb, arith,
}
use shredstream_proxy.Ledger.{Ledger, Shred, ShredData, shred_code, shred_data, IsSane}
use shredstream_proxy.Tracker.{
  ShredsStateTracker, ShredStatus, unknown, status, shred_at, recovered, deshredded,
}
use shredstream_proxy.Tracker.Invariant.{IsValid, Agrees}
use shredstream_proxy.Reconstruct.Deshred.{slice, unwrap_all, mark_done}

length-take-drop {ℓ} :
    {A : Type ℓ} (s e : ℕ) (v : List A)
    → s ≤ e
    → e < length v
    → length (take (suc e - s) (drop s v)) ≡ suc e - s
length-take-drop s e v le lt = omega (arith, length-take (suc e - s) (drop s v), length-drop s v)

module _ {L : Ledger} where
  -- Place `k` holds the data shred of index `k`.
  abbrev pub Holds : ℕ → Option (Shred L) → Type 0
  Holds k none = ⊥
  Holds k (some (shred_code c)) = ⊥
  Holds k (some (shred_data d)) = (L.index d.common_header ≡ k) × IsSane (shred_data d)

  -- The places from `k` on.
  abbrev pub HoldsFrom : ℕ → List (Option (Shred L)) → Type 0
  HoldsFrom k [] = Unit
  HoldsFrom k (o ∷ rest) = Holds k o × HoldsFrom (suc k) rest

  Agrees-Holds :
      (k : ℕ) (o : Option (Shred L)) (s : ShredStatus) → Agrees o k s → s ≢ unknown → Holds k o
  Agrees-Holds k none s h n = absurd (n h)
  Agrees-Holds k (some (shred_code c)) s h n = h
  Agrees-Holds k (some (shred_data d)) s h n = (h.0, h.2)

  take-HoldsFrom :
      (v : List (Option (Shred L))) (b n : ℕ)
      → n ≤ length v
      → ((k : ℕ) → k < n → Holds (b + k) (get_or v k none))
      → HoldsFrom b (take n v)
  take-HoldsFrom v b zero h f = tt
  take-HoldsFrom [] b (suc n) h f = absurd (omega arith)
  take-HoldsFrom (o ∷ v) b (suc n) h f = (
    subst (λ i. Holds i o) (add_zero b) (f 0 (omega arith)),
    take-HoldsFrom v (suc b) n (omega arith)
        λ k lt. subst (λ i. Holds i (get_or v k none)) (shift b k) (f (suc k) (omega arith)),
  )
    where
      add_zero : (b : ℕ) → b + 0 ≡ b
      add_zero b = omega arith

      shift : (b k : ℕ) → b + suc k ≡ suc b + k
      shift b k = omega arith

  take-drop-HoldsFrom :
      (v : List (Option (Shred L))) (b s n : ℕ)
      → s + n ≤ length v
      → ((k : ℕ) → s ≤ k → k < s + n → Holds (b + k) (get_or v k none))
      → HoldsFrom (b + s) (take n (drop s v))
  take-drop-HoldsFrom v b zero n h f =
      subst (λ i. HoldsFrom i (take n v)) (add_zero b)
        (take-HoldsFrom v b n (omega arith) λ k lt. f k (omega arith) (omega arith))
    where
      add_zero : (b : ℕ) → b ≡ b + 0
      add_zero b = omega arith
  take-drop-HoldsFrom [] b (suc s) n h f = absurd (omega arith)
  take-drop-HoldsFrom (o ∷ v) b (suc s) n h f =
      subst (λ i. HoldsFrom i (take n (drop s v))) (shift b s)
        (take-drop-HoldsFrom v (suc b) s n (omega arith) λ k a c.
          subst (λ i. Holds i (get_or v k none)) (shift' b k)
            (f (suc k) (omega arith) (omega arith)))
    where
      shift : (b s : ℕ) → suc b + s ≡ b + suc s
      shift b s = omega arith

      shift' : (b k : ℕ) → b + suc k ≡ suc b + k
      shift' b k = omega arith

  take-drop-HoldsFrom_self :
      (v : List (Option (Shred L))) (s n : ℕ)
      → s + n ≤ length v
      → ((k : ℕ) → s ≤ k → k < s + n → Holds k (get_or v k none))
      → HoldsFrom s (take n (drop s v))
  take-drop-HoldsFrom_self v s n h f =
      subst (λ i. HoldsFrom i (take n (drop s v))) (zero_add s)
        (take-drop-HoldsFrom v 0 s n h
          λ k a b. subst (λ i. Holds i (get_or v k none)) (sym (zero_add k)) (f k a b))
    where
      zero_add : (b : ℕ) → 0 + b ≡ b
      zero_add b = omega arith

  pub unwrap_all-returns :
      (k : ℕ) (os : List (Option (Shred L)))
      → HoldsFrom k os
      → Ensures (λ xs. map some xs ≡ os) (unwrap_all os)
  unfolding unwrap_all
  unwrap_all-returns k [] h = ensures refl
  unwrap_all-returns k (none ∷ os) h = absurd h.0
  unwrap_all-returns k (some x ∷ os) h =
      Ensures-bind _ (unwrap_all-returns (suc k) os h.1) λ xs e. ensures (ap (◌∷◌ (some x)) e)

  -- The slice of a segment: as many places as the segment has, each with its data shred.
  pub slice-HoldsFrom :
      (t : ShredsStateTracker L) (s e : ℕ)
      → IsValid t
      → s ≤ e
      → e < length t.data_status
      → ((k : ℕ) → s ≤ k → k ≤ e → status t k ≢ unknown)
      → Ensures
          (λ os.
            HoldsFrom s os
            × (length os ≡ suc e - s)
            × (os ≡ take (suc e - s) (drop s t.data_shreds)))
          (slice t.data_shreds s e)
  unfolding slice
  slice-HoldsFrom t s e v le lt known =
      let size : e < length t.data_shreds = omega (arith, v.shreds_length, v.status_length) in
      rw (lt→ltb e (length t.data_shreds) size) (
        ensures (
          take-drop-HoldsFrom_self t.data_shreds s (suc e - s) (omega arith) (λ k a b.
              Agrees-Holds k (shred_at t k) (status t k) (v.agrees k) (known k a (omega arith))),
          length-take-drop s e t.data_shreds le size,
          refl,
        ))

  -- What the marks change: the flags of the `n` places from `k` on, and of their FEC sets.
  pub record Marks (k n : ℕ) (t t' : ShredsStateTracker L) : Type 0 where
    pub valid : IsValid t'
    pub same_status : t'.data_status ≡ t.data_status
    pub same_shreds : t'.data_shreds ≡ t.data_shreds
    pub marked : (j : ℕ) → deshredded t' j ≡ (deshredded t j || (leb k j && ltb j (k + n)))
    pub grows : (j : ℕ) → recovered t j ≡ true → recovered t' j ≡ true

  mark_one : ShredData L → ShredsStateTracker L → ShredsStateTracker L
  mark_one d t = record t {
    already_recovered_fec_sets =
        set t.already_recovered_fec_sets (L.fec_set_index d.common_header) true;
    already_deshredded = set t.already_deshredded (L.index d.common_header) true;
  }

  mark_done-eq :
      (d : ShredData L) (t : ShredsStateTracker L)
      → IsValid t
      → IsSane (shred_data d)
      → mark_done (some (shred_data d)) t ≡ returns (mark_one d t)
  unfolding mark_done mark_one
  mark_done-eq d t v h = rw (
    put_lem t.already_recovered_fec_sets (L.fec_set_index d.common_header) true
        (omega (arith, h.fec_lt, v.recovered_length)),
    put_lem t.already_deshredded (L.index d.common_header) true
        (omega (arith, h.index_lt, v.deshredded_length)),
  )

  mark_one-IsValid :
      (d : ShredData L) (t : ShredsStateTracker L) → IsValid t → IsValid (mark_one d t)
  unfolding mark_one
  mark_one-IsValid d t v = record {
    status_length = v.status_length;
    shreds_length = v.shreds_length;
    recovered_length = length-set t.already_recovered_fec_sets _ true ∙ v.recovered_length;
    deshredded_length = length-set t.already_deshredded _ true ∙ v.deshredded_length;
    agrees = v.agrees;
  }

  Marks-nil : (k : ℕ) (t : ShredsStateTracker L) → IsValid t → Marks k 0 t t
  Marks-nil k t v = record {
    valid = v;
    same_status = refl;
    same_shreds = refl;
    marked = λ j. ground arith;
    grows = λ j h. h;
  }

  Marks-cons :
      (d : ShredData L) (k n : ℕ) (t t' : ShredsStateTracker L)
      → IsValid t
      → IsSane (shred_data d)
      → L.index d.common_header ≡ k
      → Marks (suc k) n (mark_one d t) t'
      → Marks k (suc n) t t'
  unfolding mark_one
  Marks-cons d k n t t' v h e m = record {
    valid = m.valid;
    same_status = m.same_status;
    same_shreds = m.same_shreds;
    marked = λ j. ground (
      arith,
      m.marked j,
      v.deshredded_length,
      h.index_lt,
      get_or-set t.already_deshredded (L.index d.common_header) j true false,
    );
    grows = λ j r. m.grows j (
        ground (
          arith,
          v.recovered_length,
          h.fec_lt,
          get_or-set t.already_recovered_fec_sets (L.fec_set_index d.common_header) j true false,
        ));
  }

  -- The loop of marks returns, and marks exactly the places of the segment.
  pub mark_all-Marks :
      (k : ℕ) (os : List (Option (Shred L))) (t : ShredsStateTracker L)
      → IsValid t
      → HoldsFrom k os
      → Ensures (Marks k (length os) t) (for_each mark_done os t)
  unfolding for_each
  mark_all-Marks k [] t v h = ensures (Marks-nil k t v)
  mark_all-Marks k (none ∷ os) t v h = absurd h.0
  mark_all-Marks k (some (shred_code c) ∷ os) t v h = absurd h.0
  mark_all-Marks k (some (shred_data d) ∷ os) t v h = rw (mark_done-eq d t v h.0.1) (
      Ensures-mono (mark_all-Marks (suc k) os (mark_one d t) (mark_one-IsValid d t v) h.1)
        λ t' m. Marks-cons d k (length os) t t' v h.0.1 h.0.0 m)
