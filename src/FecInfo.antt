-- ===== src/FecInfo.antt =====
-- proxy/src/deshred.rs: `get_data_shred_info`, the counts of one FEC set. The fields are `u16`, and
-- wrap; the index difference is `u32`.
pub mod Order
pub mod Unordered
use shredstream_proxy.Common.{
  ℕ, ◌+◌, ◌-◌, ◌%◌, Bool, true, false, ◌&&◌, ◌||◌, List, [], ◌∷◌, if◌then◌else◌, ◌==◌,
}
use shredstream_proxy.Ledger.{Ledger, Shred, shred_code, shred_data}

pub record FecInfo : Type 0 where
  pub num_expected_data_shreds : ℕ
  pub num_expected_coding_shreds : ℕ
  pub num_data_shreds : ℕ
  pub num_coding_shreds : ℕ

abbrev pub u16 : ℕ → ℕ
u16 n = n % 65536

abbrev pub u32 : ℕ → ℕ
u32 n = n % 4294967296

module _ {L : Ledger} where
  abbrev pub ends_batch : Shred L → Bool
  ends_batch (shred_code c) = false
  ends_batch (shred_data d) = L.data_complete d.data_header || L.last_in_slot d.data_header

  -- `(index - fec_set_index) as u16 + 1`
  abbrev pub shreds_up_to : Shred L → ℕ
  shreds_up_to (shred_code c) = 0
  shreds_up_to (shred_data d) =
      let h = d.common_header in u16 (u16 (u32 (L.index h + 4294967296 - L.fec_set_index h)) + 1)

  -- One round of the loop.
  unfoldable pub count_shred : Shred L → FecInfo → FecInfo
  count_shred (shred_code c) i = record i {
    num_coding_shreds = u16 (i.num_coding_shreds + 1);
    num_expected_data_shreds = L.num_data_shreds c.coding_header;
    num_expected_coding_shreds = L.num_coding_shreds c.coding_header;
  }
  count_shred (shred_data d) i = record i {
    num_data_shreds = u16 (i.num_data_shreds + 1);
    num_expected_data_shreds =
        if i.num_expected_data_shreds == 0 && ends_batch (shred_data d)
        then shreds_up_to (shred_data d)
        else i.num_expected_data_shreds;
  }

  unfoldable pub count_shreds : List (Shred L) → FecInfo → FecInfo
  unfolding count_shred
  count_shreds [] i = i
  count_shreds (s ∷ rest) i = count_shreds rest (count_shred s i)

  unfoldable pub get_data_shred_info : List (Shred L) → FecInfo
  unfolding count_shreds
  get_data_shred_info shreds = count_shreds shreds (record {
    num_expected_data_shreds = 0;
    num_expected_coding_shreds = 0;
    num_data_shreds = 0;
    num_coding_shreds = 0;
  })
