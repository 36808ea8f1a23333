-- ===== src/Reconstruct.antt =====
-- proxy/src/deshred.rs: `reconstruct_shreds`. `Ingest`, `Recover`, `Deshred` and `Cleanup` model its
-- four parts, and `Whole` their composition. This file has the state that they share, and the
-- crates' functions that they call.
pub mod Trackers
pub mod Held
pub mod Ingest
pub mod Recover
pub mod Deshred
pub mod Cleanup
pub mod Remaining
pub mod Whole
use shredstream_proxy.Common.{ℕ, ◌<◌, ◌≡◌, Option, none, some, List, [], All}
use shredstream_proxy.Ledger.{Ledger, Shred, IsSane}
use shredstream_proxy.Tracker.{ShredsStateTracker, default}
use shredstream_proxy.Tracker.Invariant.{IsValid, default-IsValid}

-- Parsing, recovery and deserialisation in the Solana crates and bincode. `none` is an `Err`.
pub record Codec (L : Ledger) : Type 1 where
  pub Packet : Type 0
  pub Entry : Type 0
  -- `Packet::data(..)`, `None` for a discarded packet
  pub bytes : Packet → Option (List ℕ)
  -- `Shred::new_from_serialized_shred(..).and_then(Shred::try_from)`
  pub parse : List ℕ → Option (Shred L)
  -- `merkle::recover`
  pub recover : List (Shred L) → Option (List (Option (Shred L)))
  -- `Shredder::deshred`
  pub deshred : List (List ℕ) → Option (List ℕ)
  -- `bincode::deserialize::<Vec<Entry>>`
  pub deserialize : List ℕ → Option (List Entry)
  -- `e.transactions.len()`
  pub txn_len : Entry → ℕ

-- A property of a result, if it is there.
abbrev pub IfSome {ℓ κ} : {A : Type ℓ} → (A → Type κ) → Option A → Type κ
IfSome P none = Unit
IfSome P (some a) = P a

-- The crates sanitise what they parse and what they recover.
pub record CodecLaws {L : Ledger} (C : Codec L) : Type 0 where
  pub parse-IsSane : (b : List ℕ) (s : Shred L) → C.parse b ≡ some s → IsSane s
  pub recover-IsSane :
      (xs : List (Shred L)) (ys : List (Option (Shred L)))
      → All IsSane xs
      → C.recover xs ≡ some ys
      → All (IfSome IsSane) ys

-- The value of one slot: the shreds of each FEC set, and the tracker.
pub record SlotState (L : Ledger) : Type 0 where
  pub fec_sets : List (ℕ × List (Shred L))
  pub tracker : ShredsStateTracker L

-- `all_shreds`, by slot.
abbrev pub Slots : Ledger → Type 0
Slots L = List (ℕ × SlotState L)

unfoldable pub new_slot : (L : Ledger) → SlotState L
new_slot L = record { fec_sets = []; tracker = default L }

abbrev pub slot_lookback : ℕ
slot_lookback = 50

module _ {L : Ledger} where
  -- A FEC set's index is within the tracker's vectors, and its shreds are sane.
  abbrev pub FecSetValid : ℕ → List (Shred L) → Type 0
  FecSetValid f shreds = (f < L.max_data_shreds_per_slot) × All IsSane shreds

  pub record SlotValid (s : SlotState L) : Type 0 where
    pub fec_sets_valid : All (λ e. FecSetValid e.0 e.1) s.fec_sets
    pub tracker_valid : IsValid s.tracker

  abbrev pub SlotsValid : Slots L → Type 0
  SlotsValid = All (λ e. SlotValid e.1)

pub new_slot-SlotValid : (L : Ledger) → SlotValid (new_slot L)
unfolding new_slot
new_slot-SlotValid L = record { fec_sets_valid = tt; tracker_valid = default-IsValid L }
