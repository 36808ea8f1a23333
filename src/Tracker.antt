-- ===== src/Tracker.antt =====
-- proxy/src/deshred.rs: `ShredsStateTracker`, the state of one slot's data shreds, and
-- `update_state_tracker`, which records a shred. The vectors are lists; an index out of range panics.
pub mod Held
pub mod Invariant
pub mod Update
use shredstream_proxy.Common.{
  ℕ, ◌≡◌, Bool, true, false, ◌||◌, Option, none, some, List, [], ◌∷◌, Outcome, returns, panics,
  ◌>>=◌, length, replicate, get_or, at, put, if◌then◌else◌,
}
use shredstream_proxy.Ledger.{
  Ledger, Shred, ShredType, data_type, code_type, shred_code, shred_data, index_of, fec_of, type_of,
}

pub data ShredStatus : Type 0 where
  unknown not_data_complete data_complete : ShredStatus

module _ (L : Ledger) where
  pub record ShredsStateTracker : Type 0 where
    pub data_status : List ShredStatus
    pub data_shreds : List (Option (Shred L))
    pub already_recovered_fec_sets : List Bool
    pub already_deshredded : List Bool

  -- `ShredsStateTracker::default`
  unfoldable pub default : ShredsStateTracker
  default = record {
    data_status = replicate L.max_data_shreds_per_slot unknown;
    data_shreds = replicate L.max_data_shreds_per_slot none;
    already_recovered_fec_sets = replicate L.max_data_shreds_per_slot false;
    already_deshredded = replicate L.max_data_shreds_per_slot false;
  }

  -- The status that a data shred's flags give.
  abbrev pub status_of : L.DataHeader → ShredStatus
  status_of h = if L.data_complete h || L.last_in_slot h then data_complete else not_data_complete

abbrev pub is_some {ℓ} : {A : Type ℓ} → Option A → Bool
is_some none = false
is_some (some a) = true

abbrev pub is_unknown : ShredStatus → Bool
is_unknown unknown = true
is_unknown not_data_complete = false
is_unknown data_complete = false

module _ {L : Ledger} where
  -- Entries by index; what stands out of range is never read.
  abbrev pub status : ShredsStateTracker L → ℕ → ShredStatus
  status t k = get_or t.data_status k unknown

  abbrev pub shred_at : ShredsStateTracker L → ℕ → Option (Shred L)
  shred_at t k = get_or t.data_shreds k none

  abbrev pub recovered : ShredsStateTracker L → ℕ → Bool
  recovered t k = get_or t.already_recovered_fec_sets k false

  abbrev pub deshredded : ShredsStateTracker L → ℕ → Bool
  deshredded t k = get_or t.already_deshredded k false

  -- The second guard of `update_state_tracker`: a data shred whose place is taken.
  is_taken : ShredType → ℕ → ShredsStateTracker L → Outcome Bool
  is_taken code_type index t = returns false
  is_taken data_type index t = do
    shred ← at t.data_shreds index
    elim (is_some shred) [
      | true ↦ returns true
      | false ↦ at t.data_status index >>= λ s. returns (if is_unknown s then false else true)
    ]

  -- The writes of `update_state_tracker`.
  store : Shred L → ℕ → ShredsStateTracker L → Outcome (ShredsStateTracker L)
  store (shred_code c) index t = returns t
  store (shred_data d) index t = do
    shreds ← put t.data_shreds index (some (shred_data d))
    statuses ← put t.data_status index (status_of L d.data_header)
    returns (record t { data_shreds = shreds; data_status = statuses })

  unfoldable pub update_state_tracker :
      Shred L → ShredsStateTracker L → Outcome (Option ℕ × ShredsStateTracker L)
  unfolding is_taken store
  update_state_tracker shred t = do
    done ← at t.already_recovered_fec_sets (fec_of shred)
    elim done [
      | true ↦ returns (none, t)
      | false ↦ is_taken (type_of shred) (index_of shred) t >>= λ taken. elim taken [
        | true ↦ returns (none, t)
        | false ↦ store shred (index_of shred) t >>= λ t'. returns (some (index_of shred), t')
      ]
    ]
