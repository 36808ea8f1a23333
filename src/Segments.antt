-- ===== src/Segments.antt =====
-- proxy/src/deshred.rs: `get_indexes`, the bounds of the complete segment around an index.
pub mod Spec
pub mod Parts
pub mod Soundness
pub mod Completeness
use shredstream_proxy.Common.{
  ℕ, zero, suc, ◌-◌, Bool, true, false, Option, none, some, List, [], ◌∷◌, Outcome, returns, panics,
  ◌>>=◌, length, at, leb, if◌then◌else◌, ◌==◌,
}
use shredstream_proxy.Ledger.{Ledger}
use shredstream_proxy.Tracker.{
  ShredsStateTracker, ShredStatus, unknown, not_data_complete, data_complete,
}

-- start_data_complete_idx, end_data_complete_idx, unknown start index
abbrev pub Bounds : Type 0
Bounds = ℕ × ℕ × Bool

module _ {L : Ledger} where
  -- The `while end < data_status.len()` loop, with the rounds left: `some end` at the `break`, `none`
  -- at a `return None` and where the vector ends with no `DataComplete`.
  pub find_end : ShredsStateTracker L → ℕ → ℕ → Outcome (Option ℕ)
  find_end t zero end = returns none
  find_end t (suc rounds) end = at t.already_deshredded end >>= λ done. elim done [
    | true ↦ returns none
    | false ↦ at t.data_status end >>= λ s. elim s [
      | unknown ↦ returns none
      | data_complete ↦ returns (some end)
      | not_data_complete ↦ find_end t rounds (suc end)
    ]
  ]

  -- The `loop` towards the left. `next` falls by one in each round.
  pub find_start : ShredsStateTracker L → ℕ → ℕ → ℕ → Outcome (Option Bounds)
  find_start t end start zero = at t.data_status zero >>= λ s. elim s [
    | not_data_complete ↦ at t.already_deshredded zero >>= λ done.
        returns (if done then none else some (0, end, false))
    | data_complete ↦ returns (some (start, end, false))
    | unknown ↦ returns (some (start, end, true))
  ]
  find_start t end start (suc next) = at t.data_status (suc next) >>= λ s. elim s [
    | not_data_complete ↦ at t.already_deshredded (suc next) >>= λ done. elim done [
      | true ↦ returns none
      | false ↦ find_start t end (suc next) next
    ]
    | data_complete ↦ returns (some (start, end, false))
    | unknown ↦ returns (some (start, end, true))
  ]

  -- What follows the first loop.
  pub from_end : ShredsStateTracker L → ℕ → Option ℕ → Outcome (Option Bounds)
  unfolding find_start
  from_end t index none = returns none
  from_end t index (some end) =
      if end == 0
      then returns (some (0, 0, false))
      else if index == 0
      then returns (some (0, end, false))
      else find_start t end index (index - 1)

  unfoldable pub get_indexes : ShredsStateTracker L → ℕ → Outcome (Option Bounds)
  unfolding find_end from_end
  get_indexes t index =
      if leb (length t.data_status) index
      then returns none
      else find_end t (length t.data_status - index) index >>= from_end t index
