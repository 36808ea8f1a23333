-- ===== src/Reconstruct/Remaining.antt =====
-- proxy/src/deshred.rs: `debug_remaining_shreds`, the FEC sets that are still to be recovered.
pub mod Printed
use shredstream_proxy.Common.{
  ℕ, ◌+◌, ◌≡◌, refl, ◌⊎◌, inl, inr, false, List, [], ◌∷◌, map, Outcome, returns, ◌>>=◌, Ensures,
  ensures, Ensures-bind, length, All, All-mono, Key, sort_by_key, sort_by_key-All,
  sort_by_key-IsSorted, IsSorted,
}
use shredstream_proxy.Ledger.{Ledger}
use shredstream_proxy.Tracker.{recovered}
use shredstream_proxy.Reconstruct.{SlotState, Slots, SlotsValid}
use shredstream_proxy.Reconstruct.Cleanup.{MissedSet, Report, missed_sets, add_missed}
use shredstream_proxy.Reconstruct.Cleanup.Laws.{missed_sets-returns}

-- The keys of the two sorts: a slot has one entry, a FEC set index occurs once in it.
abbrev pub by_set : MissedSet → Key
by_set x = (x.0, x.1)

abbrev pub by_slot : ℕ × List MissedSet → Key
by_slot x = (x.0, length x.1)

abbrev pub sort_sets : ℕ × List MissedSet → ℕ × List MissedSet
sort_sets x = (x.0, sort_by_key by_set x.1)

module _ {L : Ledger} where
  -- `incomplete_fec_sets_count` and `incomplete_fec_sets`.
  unfoldable pub incomplete_fec_sets : Slots L → Outcome (ℕ × Report)
  unfolding missed_sets
  incomplete_fec_sets [] = returns (0, [])
  incomplete_fec_sets ((slot, s) ∷ rest) = missed_sets s.tracker s.fec_sets >>= λ missed.
      incomplete_fec_sets rest >>= λ r. returns (length missed + r.0, add_missed slot missed r.1)

  -- What is printed.
  unfoldable pub debug_remaining_shreds : Slots L → Outcome Report
  unfolding incomplete_fec_sets sort_by_key
  debug_remaining_shreds all_shreds =
      incomplete_fec_sets all_shreds >>= λ r. returns (sort_by_key by_slot (map sort_sets r.1))
