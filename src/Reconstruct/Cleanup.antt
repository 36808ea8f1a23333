-- ===== src/Reconstruct/Cleanup.antt =====
-- proxy/src/deshred.rs, `reconstruct_shreds`: old slots are dropped, and their missed FEC sets
-- reported.
pub mod Laws
use shredstream_proxy.Common.{
  ℕ, ◌-◌, Bool, true, false, List, [], ◌∷◌, Outcome, returns, ◌>>=◌, at, length, ltb, leb,
  if◌then◌else◌,
}
use shredstream_proxy.Ledger.{Ledger, Shred}
use shredstream_proxy.Tracker.{ShredsStateTracker}
use shredstream_proxy.FecInfo.{get_data_shred_info}
use shredstream_proxy.Reconstruct.{SlotState, Slots, slot_lookback}

-- fec_set_index, num_expected_data_shreds, number of shreds
abbrev pub MissedSet : Type 0
MissedSet = ℕ × ℕ × ℕ

-- `incomplete_fec_sets`, by slot. The datapoint prints it sorted.
abbrev pub Report : Type 0
Report = List (ℕ × List MissedSet)

abbrev pub add_missed : ℕ → List MissedSet → Report → Report
add_missed slot [] report = report
add_missed slot (x ∷ xs) report = (slot, x ∷ xs) ∷ report

module _ {L : Ledger} where
  -- The FEC sets of one slot that were not recovered.
  unfoldable pub missed_sets :
      ShredsStateTracker L → List (ℕ × List (Shred L)) → Outcome (List MissedSet)
  missed_sets t [] = returns []
  missed_sets t ((fec, shreds) ∷ rest) = do
    done ← at t.already_recovered_fec_sets fec
    missed ← missed_sets t rest
    returns (
        if done
        then missed
        else (fec, (get_data_shred_info shreds).num_expected_data_shreds, length shreds) ∷ missed)

  -- `all_shreds.retain(..)`
  unfoldable pub retain_recent : ℕ → Slots L → Outcome (Slots L × Report)
  unfolding missed_sets
  retain_recent slot_threshold [] = returns ([], [])
  retain_recent slot_threshold ((slot, s) ∷ rest) = retain_recent slot_threshold rest >>= λ r.
      if leb slot_threshold slot
      then returns ((slot, s) ∷ r.0, r.1)
      else missed_sets s.tracker s.fec_sets >>= λ missed. returns (r.0, add_missed slot missed r.1)

  unfoldable pub cleanup : ℕ → Slots L → Outcome (Slots L × Report)
  unfolding retain_recent
  cleanup highest_slot_seen all_shreds =
      if ltb L.max_processing_age (length all_shreds)
      then retain_recent (highest_slot_seen - slot_lookback) all_shreds
      else returns (all_shreds, [])
