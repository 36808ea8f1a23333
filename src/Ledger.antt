-- ===== src/Ledger.antt =====
-- What the proxy takes from the Solana crates (solana_ledger, solana_entry, bincode), as an
-- interface: the shred types of `solana_ledger::shred::merkle` with the accessors that
-- proxy/src/deshred.rs calls, and the parser, Reed-Solomon recovery and deserialisers as functions.
use shredstream_proxy.Common.{ℕ, ◌<◌, ◌≡◌, ◌↔◌, Bool, true, Option, List, length}

-- `solana_ledger::shred::ShredType`.
pub data ShredType : Type 0 where
  data_type code_type : ShredType

-- `ShredVariant::MerkleCode` with the fields that the proxy reads, or any other variant.
pub data ShredVariant : Type 0 where
  merkle_code : (proof_size : ℕ) → (resigned : Bool) → ShredVariant
  other : ShredVariant

pub record Ledger : Type 1 where
  -- headers, `#[derive(PartialEq, Hash)]`
  pub CommonHeader : Type 0
  pub CodingHeader : Type 0
  pub DataHeader : Type 0
  pub common_eq : CommonHeader → CommonHeader → Bool
  pub coding_eq : CodingHeader → CodingHeader → Bool
  pub data_eq : DataHeader → DataHeader → Bool
  pub slot : CommonHeader → ℕ
  pub index : CommonHeader → ℕ
  pub fec_set_index : CommonHeader → ℕ
  pub shred_type : CommonHeader → ShredType
  pub shred_variant : CommonHeader → ShredVariant
  pub num_data_shreds : CodingHeader → ℕ
  pub num_coding_shreds : CodingHeader → ℕ
  pub data_complete : DataHeader → Bool
  pub last_in_slot : DataHeader → Bool
  -- `shred::layout::get_data`
  pub get_data : List ℕ → Option (List ℕ)
  -- `ShredType as u8`
  pub type_byte : ShredType → ℕ
  -- constants
  pub max_data_shreds_per_slot : ℕ
  pub max_processing_age : ℕ
  pub size_of_payload : ℕ
  pub size_of_merkle_proof_entry : ℕ
  pub size_of_signature : ℕ

-- `merkle::ShredCode` and `merkle::ShredData`, as far as the proxy reads them.
module _ (L : Ledger) where
  pub record ShredCode : Type 0 where
    pub common_header : L.CommonHeader
    pub coding_header : L.CodingHeader
    pub payload : List ℕ

  pub record ShredData : Type 0 where
    pub common_header : L.CommonHeader
    pub data_header : L.DataHeader
    pub payload : List ℕ

  pub data Shred : Type 0 where
    shred_code : ShredCode → Shred
    shred_data : ShredData → Shred

module _ {L : Ledger} where
  abbrev pub common_header : Shred L → L.CommonHeader
  common_header (shred_code s) = s.common_header
  common_header (shred_data s) = s.common_header

  abbrev pub payload : Shred L → List ℕ
  payload (shred_code s) = s.payload
  payload (shred_data s) = s.payload

  abbrev pub slot_of : Shred L → ℕ
  slot_of s = L.slot (common_header s)

  abbrev pub index_of : Shred L → ℕ
  index_of s = L.index (common_header s)

  abbrev pub fec_of : Shred L → ℕ
  fec_of s = L.fec_set_index (common_header s)

  abbrev pub type_of : Shred L → ShredType
  type_of s = L.shred_type (common_header s)

-- Documented behaviour of the crates that some theorems take as hypotheses.
-- A derived `PartialEq` decides equality.
pub record EqLaws (L : Ledger) : Type 0 where
  pub common_iff : (a b : L.CommonHeader) → (L.common_eq a b ≡ true) ↔ (a ≡ b)
  pub coding_iff : (a b : L.CodingHeader) → (L.coding_eq a b ≡ true) ↔ (a ≡ b)
  pub data_iff : (a b : L.DataHeader) → (L.data_eq a b ≡ true) ↔ (a ≡ b)

-- What the parser's sanitisation promises of one shred: indices below the slot's limit, the type in
-- the header that of the variant, and a coding payload of full size.
abbrev pub PayloadFits : {L : Ledger} → Shred L → Type 0
PayloadFits {L} (shred_code s) =
    (length s.payload ≡ L.size_of_payload) × (L.shred_type s.common_header ≡ code_type)
PayloadFits {L} (shred_data s) = L.shred_type s.common_header ≡ data_type

pub record IsSane {L : Ledger} (s : Shred L) : Type 0 where
  pub index_lt : index_of s < L.max_data_shreds_per_slot
  pub fec_lt : fec_of s < L.max_data_shreds_per_slot
  pub fits : PayloadFits s
