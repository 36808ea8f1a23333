-- ===== src/Comparable/Laws.antt =====
-- `ComparableShred` (proxy/src/deshred.rs): its equality and its hash.
use shredstream_proxy.Common.{
  ℕ, ◌≡◌, refl, ap, true, Option, none, some, List, [], ◌∷◌, returns, take, arith,
}
use shredstream_proxy.Ledger.{
  Ledger, EqLaws, Shred, ShredCode, ShredData, ShredVariant, merkle_code, other, shred_code,
  shred_data,
}
use shredstream_proxy.Comparable.{
  bytes_eq, prefix, comparison_len, code_eq, data_shred_eq, comparable_eq, hash,
}

bytes_eq_iff : (xs ys : List ℕ) → bytes_eq xs ys ≡ true → xs ≡ ys
unfolding bytes_eq
bytes_eq_iff [] [] h = refl
bytes_eq_iff [] (y ∷ ys) h = cc
bytes_eq_iff (x ∷ xs) [] h = cc
bytes_eq_iff (x ∷ xs) (y ∷ ys) h = ground (arith, bytes_eq_iff xs ys)

bytes_eq_refl : (xs : List ℕ) → bytes_eq xs xs ≡ true
unfolding bytes_eq
bytes_eq_refl [] = refl
bytes_eq_refl (x ∷ xs) = ground (arith, bytes_eq_refl xs)

bytes_eq_comm : (xs ys : List ℕ) → bytes_eq xs ys ≡ bytes_eq ys xs
unfolding bytes_eq
bytes_eq_comm [] [] = refl
bytes_eq_comm [] (y ∷ ys) = refl
bytes_eq_comm (x ∷ xs) [] = refl
bytes_eq_comm (x ∷ xs) (y ∷ ys) = ground (arith, bytes_eq_comm xs ys)

module _ (L : Ledger) (laws : EqLaws L) where
  code_eq-hash :
      (v : ShredVariant) (s1 s2 : ShredCode L)
      → code_eq L v s1 s2 ≡ returns true
      → (s1.common_header ≡ s2.common_header) × (s1.coding_header ≡ s2.coding_header)
  unfolding code_eq
  code_eq-hash other s1 s2 h = cc
  code_eq-hash (merkle_code p r) s1 s2 h = ground (
    arith,
    laws.common_iff s1.common_header s2.common_header,
    laws.coding_iff s1.coding_header s2.coding_header,
  )

  -- Equal shreds feed the hasher the same input, if the derived equalities of headers decide
  -- equality.
  pub hash-comparable_eq :
      (a b : Shred L) → comparable_eq L a b ≡ returns true → hash L a ≡ hash L b
  unfolding comparable_eq hash
  hash-comparable_eq (shred_code s1) (shred_code s2) h =
      ground (arith, code_eq-hash (L.shred_variant s1.common_header) s1 s2 h)
  hash-comparable_eq (shred_code s1) (shred_data s2) h = cc
  hash-comparable_eq (shred_data s1) (shred_code s2) h = cc
  hash-comparable_eq (shred_data s1) (shred_data s2) h = ground (
    arith,
    laws.common_iff s1.common_header s2.common_header,
    laws.data_iff s1.data_header s2.data_header,
  )

  code_eq_comm :
      (v w : ShredVariant) (s1 s2 : ShredCode L)
      → L.shred_variant s1.common_header ≡ v
      → L.shred_variant s2.common_header ≡ w
      → code_eq L v s1 s2 ≡ code_eq L w s2 s1
  unfolding code_eq prefix
  code_eq_comm other other s1 s2 ev ew = refl
  code_eq_comm other (merkle_code p r) s1 s2 ev ew = ground (
    arith,
    laws.common_iff s2.common_header s1.common_header,
    laws.coding_iff s2.coding_header s1.coding_header,
  )
  code_eq_comm (merkle_code p r) other s1 s2 ev ew = ground (
    arith,
    laws.common_iff s1.common_header s2.common_header,
    laws.coding_iff s1.coding_header s2.coding_header,
  )
  code_eq_comm (merkle_code p r) (merkle_code p' r') s1 s2 ev ew = ground (
    arith,
    laws.common_iff s1.common_header s2.common_header,
    laws.coding_iff s1.coding_header s2.coding_header,
    laws.common_iff s2.common_header s1.common_header,
    laws.coding_iff s2.coding_header s1.coding_header,
    bytes_eq_comm (take (comparison_len L p r) s1.payload) (take (comparison_len L p r) s2.payload),
  )

  data_shred_eq_comm :
      (d1 d2 : Option (List ℕ)) (s1 s2 : ShredData L)
      → data_shred_eq L d1 d2 s1 s2 ≡ data_shred_eq L d2 d1 s2 s1
  unfolding data_shred_eq
  data_shred_eq_comm none none s1 s2 = refl
  data_shred_eq_comm none (some b) s1 s2 = refl
  data_shred_eq_comm (some b) none s1 s2 = refl
  data_shred_eq_comm (some b1) (some b2) s1 s2 = ground (
    arith,
    laws.common_iff s1.common_header s2.common_header,
    laws.data_iff s1.data_header s2.data_header,
    laws.common_iff s2.common_header s1.common_header,
    laws.data_iff s2.data_header s1.data_header,
    bytes_eq_comm b1 b2,
  )

  -- Which shred stands first makes no difference, a panic included, if the derived equalities of
  -- headers decide equality.
  pub comparable_eq_comm : (a b : Shred L) → comparable_eq L a b ≡ comparable_eq L b a
  unfolding comparable_eq
  comparable_eq_comm (shred_code s1) (shred_code s2) = code_eq_comm _ _ s1 s2 refl refl
  comparable_eq_comm (shred_code s1) (shred_data s2) = refl
  comparable_eq_comm (shred_data s1) (shred_code s2) = refl
  comparable_eq_comm (shred_data s1) (shred_data s2) =
      ap returns (data_shred_eq_comm (L.get_data s1.payload) (L.get_data s2.payload) s1 s2)

  -- A data shred whose data can be read equals itself.
  pub comparable_eq_refl :
      (s : ShredData L) (b : List ℕ)
      → L.get_data s.payload ≡ some b
      → comparable_eq L (shred_data s) (shred_data s) ≡ returns true
  unfolding comparable_eq data_shred_eq
  comparable_eq_refl s b e = rw e (
      ground (
        arith,
        laws.common_iff s.common_header s.common_header,
        laws.data_iff s.data_header s.data_header,
        bytes_eq_refl b,
      ))

  code_eq_trans :
      (v w : ShredVariant) (s1 s2 s3 : ShredCode L)
      → L.shred_variant s1.common_header ≡ v
      → L.shred_variant s2.common_header ≡ w
      → code_eq L v s1 s2 ≡ returns true
      → code_eq L w s2 s3 ≡ returns true
      → code_eq L v s1 s3 ≡ returns true
  unfolding code_eq prefix
  code_eq_trans other w s1 s2 s3 ev ew h k = cc
  code_eq_trans (merkle_code p r) other s1 s2 s3 ev ew h k = cc
  code_eq_trans (merkle_code p r) (merkle_code p' r') s1 s2 s3 ev ew h k = ground (
    arith,
    laws.common_iff s1.common_header s2.common_header,
    laws.coding_iff s1.coding_header s2.coding_header,
    laws.common_iff s2.common_header s3.common_header,
    laws.coding_iff s2.coding_header s3.coding_header,
    laws.common_iff s1.common_header s3.common_header,
    laws.coding_iff s1.coding_header s3.coding_header,
    bytes_eq_iff (take (comparison_len L p r) s1.payload) (take (comparison_len L p r) s2.payload),
  )

  data_shred_eq_trans :
      (d1 d2 d3 : Option (List ℕ)) (s1 s2 s3 : ShredData L)
      → data_shred_eq L d1 d2 s1 s2 ≡ true
      → data_shred_eq L d2 d3 s2 s3 ≡ true
      → data_shred_eq L d1 d3 s1 s3 ≡ true
  unfolding data_shred_eq
  data_shred_eq_trans none d2 d3 s1 s2 s3 h k = cc
  data_shred_eq_trans (some b1) none d3 s1 s2 s3 h k = cc
  data_shred_eq_trans (some b1) (some b2) none s1 s2 s3 h k = cc
  data_shred_eq_trans (some b1) (some b2) (some b3) s1 s2 s3 h k = ground (
    arith,
    laws.common_iff s1.common_header s2.common_header,
    laws.data_iff s1.data_header s2.data_header,
    laws.common_iff s2.common_header s3.common_header,
    laws.data_iff s2.data_header s3.data_header,
    laws.common_iff s1.common_header s3.common_header,
    laws.data_iff s1.data_header s3.data_header,
    bytes_eq_iff b1 b2,
    bytes_eq_iff b2 b3,
    bytes_eq_refl b1,
  )

  -- The equality of shreds is transitive, if the derived equalities of headers decide equality.
  pub comparable_eq_trans :
      (a b c : Shred L)
      → comparable_eq L a b ≡ returns true
      → comparable_eq L b c ≡ returns true
      → comparable_eq L a c ≡ returns true
  unfolding comparable_eq
  comparable_eq_trans (shred_code s1) (shred_code s2) (shred_code s3) h k =
      code_eq_trans _ _ s1 s2 s3 refl refl h k
  comparable_eq_trans (shred_data s1) (shred_data s2) (shred_data s3) h k =
      let d =
        data_shred_eq_trans (L.get_data s1.payload) (L.get_data s2.payload) (L.get_data s3.payload)
          s1 s2 s3 in
      ap returns (d (cc) (cc))
  comparable_eq_trans (shred_code s1) (shred_code s2) (shred_data s3) h k = cc
  comparable_eq_trans (shred_code s1) (shred_data s2) c h k = cc
  comparable_eq_trans (shred_data s1) (shred_code s2) c h k = cc
  comparable_eq_trans (shred_data s1) (shred_data s2) (shred_code s3) h k = cc
