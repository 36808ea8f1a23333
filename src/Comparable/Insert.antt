-- ===== src/Comparable/Insert.antt =====
-- Insertion of a `ComparableShred` (proxy/src/deshred.rs) into a set.
use shredstream_proxy.Common.{
  IfReturns, IfReturns-bind, Outcome, panics, ◌>>=◌, Bool, ◌+◌, ◌≤◌, ◌≡◌, refl, Bool, true, false,
  ◌&&◌, List, [], ◌∷◌, returns, Ensures, ensures, Ensures-bind, length, take, All, arith,
}
use shredstream_proxy.Ledger.{
  Ledger, IsSane, Shred, ShredCode, ShredVariant, merkle_code, other, shred_code, shred_data,
}
use shredstream_proxy.Comparable.{
  bytes_eq, prefix, comparison_len, code_eq, comparable_eq, insert_shred,
}

-- Two shreds that `IsSane` describes are compared without a panic.
module _ (L : Ledger) where
  code_eq_total :
      (v : ShredVariant) (s1 s2 : ShredCode L)
      → length s1.payload ≡ L.size_of_payload
      → length s2.payload ≡ L.size_of_payload
      → (b : Bool) × (code_eq L v s1 s2 ≡ returns b)
  unfolding code_eq prefix comparison_len
  code_eq_total other s1 s2 h k = (false, refl)
  code_eq_total (merkle_code p r) s1 s2 h k = (
    L.coding_eq s1.coding_header s2.coding_header
        && L.common_eq s1.common_header s2.common_header
        && bytes_eq (take (comparison_len L p r) s1.payload)
            (take (comparison_len L p r) s2.payload),
    ground arith,
  )

  pub comparable_eq_total :
      (a b : Shred L) → IsSane a → IsSane b → (r : Bool) × (comparable_eq L a b ≡ returns r)
  unfolding comparable_eq
  comparable_eq_total (shred_code s1) (shred_code s2) h k = code_eq_total _ s1 s2 h.fits.0 k.fits.0
  comparable_eq_total (shred_code s1) (shred_data s2) h k = (false, refl)
  comparable_eq_total (shred_data s1) (shred_code s2) h k = (false, refl)
  comparable_eq_total (shred_data s1) (shred_data s2) h k = (_, refl)

  insert_shred-next :
      (s x : Shred L) (xs : List (Shred L)) (r : Bool)
      → comparable_eq L s x ≡ returns r
      → All IsSane (x ∷ xs)
      → Ensures (λ ys. All IsSane ys × (length ys ≤ length xs + 1)) (insert_shred L s xs)
      → Ensures
          (λ ys. All IsSane ys × (length ys ≤ length (x ∷ xs) + 1))
          (insert_shred L s (x ∷ xs))
  unfolding insert_shred
  insert_shred-next s x xs true e k ih = rw e (ensures (k, omega arith))
  insert_shred-next s x xs false e k ih =
      rw e (Ensures-bind _ ih λ ys p. ensures ((k.0, p.0), omega (arith, p.1)))

  -- Insertion of a sane shred into a set of sane ones returns a set of sane ones, at most one larger.
  pub insert_shred-IsSane :
      (s : Shred L) (xs : List (Shred L))
      → IsSane s
      → All IsSane xs
      → Ensures (λ ys. All IsSane ys × (length ys ≤ length xs + 1)) (insert_shred L s xs)
  unfolding insert_shred
  insert_shred-IsSane s [] h k = ensures ((h, tt), omega arith)
  insert_shred-IsSane s (x ∷ xs) h k =
      let (r, e) = comparable_eq_total s x h k.0 in
      insert_shred-next s x xs r e k (insert_shred-IsSane s xs h k.1)

module _ (L : Ledger) (Q : Shred L → Type 0) where
  -- What the shreds of a set have in common with the one that joins them.
  pub insert_shred-Held :
      (s : Shred L) (xs : List (Shred L)) → Q s → All Q xs → IfReturns (All Q) (insert_shred L s xs)
  unfolding insert_shred
  insert_shred-Held s [] h k = (h, tt)
  insert_shred-Held s (x ∷ xs) h k = joined (insert_shred-Held s xs h k.1) (comparable_eq L s x)
    where
      joined :
          IfReturns (All Q) (insert_shred L s xs)
          → (o : Outcome Bool)
          → IfReturns (All Q) (
              o >>= λ same. elim same [
                | true ↦ returns (x ∷ xs)
                | false ↦ insert_shred L s xs >>= λ rest. returns (x ∷ rest)
              ])
      joined ih panics = tt
      joined ih (returns true) = k
      joined ih (returns false) = IfReturns-bind _ (insert_shred L s xs) _ ih λ ys p. (k.0, p)
