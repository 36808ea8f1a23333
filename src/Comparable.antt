-- ===== src/Comparable.antt =====
-- proxy/src/deshred.rs: `ComparableShred`, a shred compared and hashed without the bytes that vary.
pub mod Laws
pub mod Insert
use shredstream_proxy.Common.{
  ℕ, ◌+◌, ◌-◌, ◌*◌, Bool, true, false, ◌&&◌, Option, none, some, List, [], ◌∷◌, Outcome, returns,
  panics, ◌>>=◌, length, take, ltb, if◌then◌else◌, ◌==◌,
}
use shredstream_proxy.Ledger.{
  Ledger, Shred, ShredCode, ShredData, ShredVariant, merkle_code, other, shred_code, shred_data,
}

-- `==` of byte slices.
pub bytes_eq : List ℕ → List ℕ → Bool
bytes_eq [] [] = true
bytes_eq [] (y ∷ ys) = false
bytes_eq (x ∷ xs) [] = false
bytes_eq (x ∷ xs) (y ∷ ys) = x == y && bytes_eq xs ys

-- `&v[..n]`, which panics past the end.
pub prefix : ℕ → List ℕ → Outcome (List ℕ)
prefix n v = if ltb (length v) n then panics else returns (take n v)

module _ (L : Ledger) where
  -- `comparison_len`: the payload without its Merkle proof and the retransmitter's signature.
  pub comparison_len : ℕ → Bool → ℕ
  comparison_len proof_size resigned =
      L.size_of_payload
      - (proof_size * L.size_of_merkle_proof_entry + (if resigned then L.size_of_signature else 0))

  -- The arm of two coding shreds, for the variant of the first one.
  pub code_eq : ShredVariant → ShredCode L → ShredCode L → Outcome Bool
  unfolding bytes_eq prefix comparison_len
  code_eq other s1 s2 = returns false
  code_eq (merkle_code proof_size resigned) s1 s2 =
      if L.coding_eq s1.coding_header s2.coding_header
        && L.common_eq s1.common_header s2.common_header
      then (do
        p1 ← prefix (comparison_len proof_size resigned) s1.payload
        p2 ← prefix (comparison_len proof_size resigned) s2.payload
        returns (bytes_eq p1 p2))
      else returns false

  -- The arm of two data shreds, for the data of both.
  pub data_shred_eq : Option (List ℕ) → Option (List ℕ) → ShredData L → ShredData L → Bool
  unfolding bytes_eq
  data_shred_eq none d2 s1 s2 = false
  data_shred_eq (some b1) none s1 s2 = false
  data_shred_eq (some b1) (some b2) s1 s2 =
      L.data_eq s1.data_header s2.data_header
      && L.common_eq s1.common_header s2.common_header
      && bytes_eq b1 b2

  -- `PartialEq for ComparableShred`
  pub comparable_eq : Shred L → Shred L → Outcome Bool
  unfolding code_eq data_shred_eq
  comparable_eq (shred_code s1) (shred_code s2) = code_eq (L.shred_variant s1.common_header) s1 s2
  comparable_eq (shred_code s1) (shred_data s2) = returns false
  comparable_eq (shred_data s1) (shred_code s2) = returns false
  comparable_eq (shred_data s1) (shred_data s2) =
      returns (data_shred_eq (L.get_data s1.payload) (L.get_data s2.payload) s1 s2)

  -- `Hash for ComparableShred`: what is fed to the hasher.
  pub data HashInput : Type 0 where
    code_input : L.CommonHeader → L.CodingHeader → HashInput
    data_input : L.CommonHeader → L.DataHeader → HashInput

  pub hash : Shred L → HashInput
  hash (shred_code s) = code_input s.common_header s.coding_header
  hash (shred_data s) = data_input s.common_header s.data_header

  -- `HashSet<ComparableShred>::insert`: nothing changes if an equal shred is there. The set
  -- compares only shreds of one hash; for two others `comparable_eq` answers false with no panic.
  unfoldable pub insert_shred : Shred L → List (Shred L) → Outcome (List (Shred L))
  unfolding comparable_eq
  insert_shred s [] = returns (s ∷ [])
  insert_shred s (x ∷ xs) = do
    same ← comparable_eq s x
    elim same [ true ↦ returns (x ∷ xs) | false ↦ insert_shred s xs >>= λ rest. returns (x ∷ rest) ]
