-- ===== src/FecInfo/Order.antt =====
-- `get_data_shred_info` (proxy/src/deshred.rs) walks a hash set, whose order is not fixed.
use shredstream_proxy.Common.{
  ℕ, suc, ◌<◌, ltb, ◌&&◌, ◌||◌, ◌+◌, ◌≡◌, ◌≢◌, ◌∙◌, Bool, true, false, List, [], ◌∷◌, if◌then◌else◌,
  ◌==◌, All, arith,
}
use shredstream_proxy.Ledger.{Ledger, Shred, shred_code, shred_data}
use shredstream_proxy.FecInfo.{
  FecInfo, u16, ends_batch, shreds_up_to, count_shred, count_shreds, get_data_shred_info,
}

abbrev Bounded : FecInfo → Type 0
Bounded i = (i.num_data_shreds < 65536) × (i.num_coding_shreds < 65536)

module _ {L : Ledger} where
  -- The shreds of one FEC set agree: all coding headers give the same counts, and all shreds that end
  -- a batch give the same number of shreds up to them.
  abbrev pub Agree : ℕ → ℕ → ℕ → Shred L → Type 0
  Agree nd nc upto (shred_code c) =
      (L.num_data_shreds c.coding_header ≡ nd) × (L.num_coding_shreds c.coding_header ≡ nc)
  Agree nd nc upto (shred_data d) =
      ends_batch (shred_data d) ≡ true → shreds_up_to (shred_data d) ≡ upto

  abbrev pub is_code : Shred L → Bool
  is_code (shred_code c) = true
  is_code (shred_data d) = false

  abbrev pub count_code : List (Shred L) → ℕ
  count_code [] = 0
  count_code (s ∷ rest) = if is_code s then suc (count_code rest) else count_code rest

  abbrev pub count_data : List (Shred L) → ℕ
  count_data [] = 0
  count_data (s ∷ rest) = if is_code s then count_data rest else suc (count_data rest)

  abbrev pub some_ends : List (Shred L) → Bool
  some_ends [] = false
  some_ends (s ∷ rest) = ends_batch s || some_ends rest

  module _ (nd nc upto : ℕ) (positive : nd ≢ 0) where
    -- The counts, with no regard to the order.
    abbrev counted : List (Shred L) → FecInfo → FecInfo
    counted xs i = record {
      num_expected_data_shreds =
          if ltb 0 (count_code xs)
          then nd
          else if some_ends xs && i.num_expected_data_shreds == 0
          then upto
          else i.num_expected_data_shreds;
      num_expected_coding_shreds =
          if ltb 0 (count_code xs) then nc else i.num_expected_coding_shreds;
      num_data_shreds = u16 (i.num_data_shreds + count_data xs);
      num_coding_shreds = u16 (i.num_coding_shreds + count_code xs);
    }

    counted-cons :
        (s : Shred L) (xs : List (Shred L)) (i : FecInfo)
        → Agree nd nc upto s
        → counted xs (count_shred s i) ≡ counted (s ∷ xs) i
    unfolding count_shred
    counted-cons (shred_code c) xs i h = ground arith
    counted-cons (shred_data d) xs i h = ground arith

    count_shred-Bounded : (s : Shred L) (i : FecInfo) → Bounded i → Bounded (count_shred s i)
    unfolding count_shred
    count_shred-Bounded (shred_code c) i b = omega arith
    count_shred-Bounded (shred_data d) i b = omega arith

    count_shreds-eq-counted :
        (xs : List (Shred L)) (i : FecInfo)
        → Bounded i
        → All (Agree nd nc upto) xs
        → count_shreds xs i ≡ counted xs i
    unfolding count_shreds
    count_shreds-eq-counted [] i b h = ground arith
    count_shreds-eq-counted (s ∷ xs) i b h =
        count_shreds-eq-counted xs (count_shred s i) (count_shred-Bounded s i b) h.1
        ∙ counted-cons s xs i h.0

    -- Where the shreds of a set agree, and coding headers expect at least one data shred, the order
    -- of the set makes no difference: the expected number of data shreds is that of the coding
    -- headers if one is there, else that of a shred that ends a batch, else 0; the other counts are
    -- those of the set.
    pub get_data_shred_info_lem :
        (xs : List (Shred L))
        → All (Agree nd nc upto) xs
        → get_data_shred_info xs ≡ record {
          num_expected_data_shreds =
              if ltb 0 (count_code xs) then nd else if some_ends xs then upto else 0;
          num_expected_coding_shreds = if ltb 0 (count_code xs) then nc else 0;
          num_data_shreds = u16 (count_data xs);
          num_coding_shreds = u16 (count_code xs);
        }
    unfolding get_data_shred_info
    get_data_shred_info_lem xs h = count_shreds-eq-counted xs _ (omega arith) h ∙ ground arith
