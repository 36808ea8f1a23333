-- ===== src/FecInfo/Unordered.antt =====
-- `get_data_shred_info` (proxy/src/deshred.rs) as a function of a set of shreds, which has no order.
use mathlib.Core.List.{Permᴰ}
use mathlib.Core.Quot
use mathlib.Core.Quot.{Quot}
use shredstream_proxy.Common.{ltb, if◌then◌else◌, ℕ, ◌≡◌, ◌≢◌, sym, ◌∙◌, List, All, arith, refl}
use shredstream_proxy.Ledger.{Ledger, Shred}
use shredstream_proxy.FecInfo.{FecInfo, u16, get_data_shred_info}
use shredstream_proxy.FecInfo.Order.{
  Agree, count_code, count_data, some_ends, get_data_shred_info_lem,
}

FecInfo-set : IsSet FecInfo
FecInfo-set = hlevel

module _ (L : Ledger) where
  -- What a walk in any order sees of a set.
  record SameCounts (xs ys : List (Shred L)) : Type 0 where
    codes : count_code xs ≡ count_code ys
    data_shreds : count_data xs ≡ count_data ys
    ends : some_ends xs ≡ some_ends ys

  Perm-SameCounts : {xs ys : List (Shred L)} → Permᴰ xs ys → SameCounts xs ys
  Perm-SameCounts Permᴰ.nil = record { codes = refl; data_shreds = refl; ends = refl }
  Perm-SameCounts (Permᴰ.cons e p) =
      let same = Perm-SameCounts p in
      record {
        codes = rw e (ground (arith, same.codes));
        data_shreds = rw e (ground (arith, same.data_shreds));
        ends = rw (e, same.ends) refl;
      }
  Perm-SameCounts (Permᴰ.swap {a} {b} {l} e f) = record {
    codes = rw (sym e, sym f) (ground arith);
    data_shreds = rw (sym e, sym f) (ground arith);
    ends = rw (sym e, sym f) (ground arith);
  }
  Perm-SameCounts (Permᴰ.trans p q) =
      let first = Perm-SameCounts p in
      let second = Perm-SameCounts q in
      record {
        codes = first.codes ∙ second.codes;
        data_shreds = first.data_shreds ∙ second.data_shreds;
        ends = first.ends ∙ second.ends;
      }

  module _ (nd nc upto : ℕ) where
    -- The shreds of one FEC set, as one walk of the hash set meets them.
    abbrev pub Walk : Type 0
    Walk = (xs : List (Shred L)) × All (Agree nd nc upto) xs

    -- Two walks of the same set.
    abbrev pub SameSet : Walk → Walk → Type 0
    SameSet a b = Permᴰ a.0 b.0

    module _ (positive : nd ≢ 0) where
      get_data_shred_info-SameSet :
          (a b : Walk) → SameSet a b → get_data_shred_info a.0 ≡ get_data_shred_info b.0
      get_data_shred_info-SameSet a b p =
          let same = Perm-SameCounts p in
          get_data_shred_info_lem nd nc upto positive a.0 a.1
          ∙ rw (same.codes, same.data_shreds, same.ends) refl
          ∙ sym (get_data_shred_info_lem nd nc upto positive b.0 b.1)

      -- Where the shreds of a set agree, and coding headers expect at least one data shred,
      -- `get_data_shred_info` is a function of the set, whatever the order of the walk: the
      -- expected number of data shreds is that of the coding headers if one is there, else that of
      -- a shred that ends a batch, else 0; the other counts are those of the set.
      pub get_data_shred_info-Quot :
          (info : Quot SameSet → FecInfo) × ((a : Walk)
            → (info (Quot.mk a) ≡ get_data_shred_info a.0)
              × (get_data_shred_info a.0 ≡ record {
                num_expected_data_shreds =
                    if ltb 0 (count_code a.0) then nd else if some_ends a.0 then upto else 0;
                num_expected_coding_shreds = if ltb 0 (count_code a.0) then nc else 0;
                num_data_shreds = u16 (count_data a.0);
                num_coding_shreds = u16 (count_code a.0);
              }))
      get_data_shred_info-Quot = (
        Quot.lift FecInfo-set (λ a. get_data_shred_info a.0) get_data_shred_info-SameSet,
        λ a. (refl, get_data_shred_info_lem nd nc upto positive a.0 a.1),
      )
