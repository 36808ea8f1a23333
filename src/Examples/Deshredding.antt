-- ===== src/Examples/Deshredding.antt =====
-- The theorems on deshredding at a concrete input, and tests.
use shredstream_proxy.Common.{IsSorted}
use shredstream_proxy.Common.{
  ℕ, ◌≡◌, ◌↔◌, refl, true, false, none, some, [], ◌∷◌, All, length, returns, Ensures, ltb, ◌&&◌,
  ◌-◌, if◌then◌else◌, lookup, at, arith,
}
use shredstream_proxy.Examples.Toy.{
  no_metrics, toy, toy_laws, toy_data, toy_code, toy_data-IsSane, toy_codec, toy_tracker,
  toy_tracker-IsValid, toy_slots, toy_slots-SlotsValid,
}
use shredstream_proxy.Comparable.{comparable_eq, hash}
use shredstream_proxy.Comparable.Laws.{hash-comparable_eq, comparable_eq_refl}
use shredstream_proxy.Tracker.{update_state_tracker}
use shredstream_proxy.Tracker.Invariant.{IsValid}
use shredstream_proxy.Tracker.Update.{
  updated, Extends, update_state_tracker-eq-updated, update_state_tracker-Extends,
}
use shredstream_proxy.Segments.{get_indexes}
use shredstream_proxy.Segments.Spec.{IsSegment}
use shredstream_proxy.Segments.Completeness.{get_indexes_iff}
use shredstream_proxy.FecInfo.{FecInfo, u16, get_data_shred_info}
use shredstream_proxy.FecInfo.Order.{count_code, count_data, some_ends, get_data_shred_info_lem}
use mathlib.Core.Quot.{Quot}
use shredstream_proxy.FecInfo.Unordered.{Walk, SameSet, get_data_shred_info-Quot}
use shredstream_proxy.Reconstruct.{slot_lookback, SlotsValid}
use shredstream_proxy.Reconstruct.Ingest.{Ingested}
use shredstream_proxy.Reconstruct.Recover.{Recovered}
use shredstream_proxy.Reconstruct.Recover.Spared.{Spared}
use shredstream_proxy.Reconstruct.Deshred.{Deshredded, deshred_all, deshred_fec_set}
use shredstream_proxy.Reconstruct.Deshred.Step.{Step, deshred_fec_set-Step}
use shredstream_proxy.Reconstruct.Deshred.Delivered.{Delivered}
use shredstream_proxy.Reconstruct.Deshred.Once.{IsDone, deshred_all-Delivered}
use shredstream_proxy.Reconstruct.Remaining.{by_slot, debug_remaining_shreds}
use shredstream_proxy.Reconstruct.Remaining.Printed.{
  IsPrinted, IsComplete, debug_remaining_shreds-IsPrinted,
}
use shredstream_proxy.Reconstruct.Cleanup.{cleanup}
use shredstream_proxy.Reconstruct.Cleanup.Laws.{cleanup_lem}

get_indexes-toy_tracker : get_indexes toy_tracker 0 ≡ returns (some (0, 1, false))
unfolding get_indexes at
get_indexes-toy_tracker = refl

get_indexes_iff_example :
    (get_indexes toy_tracker 0 ≡ returns (some (0, 1, false))) ↔ IsSegment toy_tracker 0 0 1 false
get_indexes_iff_example = get_indexes_iff toy_tracker refl 0 0 1 false

abbrev toy_deshredded : Deshredded toy_codec
toy_deshredded = record { all_shreds = toy_slots; deshredded_entries = []; metrics = no_metrics }

deshred_all-Delivered_example :
    Ensures
      (λ st.
        Delivered toy_codec 5 toy_deshredded st
        × All (λ k. IsDone toy_codec k st) ((5, 0) ∷ (5, 1) ∷ []))
      (deshred_all toy_codec ((5, 0) ∷ (5, 1) ∷ []) toy_deshredded)
deshred_all-Delivered_example =
    deshred_all-Delivered toy_codec 5 ((5, 0) ∷ (5, 1) ∷ []) toy_deshredded
      (omega arith, (omega arith, tt)) toy_slots-SlotsValid

deshred_fec_set-Step_example :
    Ensures (Step toy_codec 5 0 toy_deshredded) (deshred_fec_set toy_codec (5, 0) toy_deshredded)
deshred_fec_set-Step_example =
    deshred_fec_set-Step toy_codec 5 0 toy_deshredded toy_slots-SlotsValid

update_state_tracker-eq-updated_example :
    update_state_tracker (toy_data 3 2) toy_tracker ≡ returns (updated (toy_data 3 2) toy_tracker)
update_state_tracker-eq-updated_example =
    update_state_tracker-eq-updated (toy_data 3 2) toy_tracker toy_tracker-IsValid
      (toy_data-IsSane 3 2 refl)

update_state_tracker-Extends_example :
    Ensures
      (λ r. IsValid r.1 × Extends toy_tracker r.1)
      (update_state_tracker (toy_data 3 2) toy_tracker)
update_state_tracker-Extends_example =
    update_state_tracker-Extends (toy_data 3 2) toy_tracker toy_tracker-IsValid
      (toy_data-IsSane 3 2 refl)

abbrev toy_ingested : Ingested toy
toy_ingested = record {
  all_shreds = toy_slots;
  slot_fec_indexes_to_iterate = [];
  highest_slot_seen = 5;
}

abbrev toy_recovered : Recovered toy
toy_recovered = record { all_shreds = toy_slots; total_recovered_count = 0 }

cleanup_lem_example :
    Ensures
      (λ r.
        SlotsValid r.0
        × ((k : ℕ)
            → lookup k r.0 ≡ (
                if ltb 1 (length toy_slots) && ltb k (90 - slot_lookback)
                then none
                else lookup k toy_slots)))
      (cleanup 90 toy_slots)
cleanup_lem_example = cleanup_lem 90 toy_slots toy_slots-SlotsValid

debug_remaining_shreds-IsPrinted_example :
    Ensures
      (λ r. All (IsPrinted toy_slots) r × IsComplete toy_slots r × IsSorted by_slot r)
      (debug_remaining_shreds toy_slots)
debug_remaining_shreds-IsPrinted_example =
    debug_remaining_shreds-IsPrinted toy_slots toy_slots-SlotsValid

get_data_shred_info-Quot_example :
    (info : Quot (SameSet toy 2 2 2) → FecInfo) × ((a : Walk toy 2 2 2)
      → (info (Quot.mk a) ≡ get_data_shred_info a.0)
        × (get_data_shred_info a.0 ≡ record {
          num_expected_data_shreds =
              if ltb 0 (count_code a.0) then 2 else if some_ends a.0 then 2 else 0;
          num_expected_coding_shreds = if ltb 0 (count_code a.0) then 2 else 0;
          num_data_shreds = u16 (count_data a.0);
          num_coding_shreds = u16 (count_code a.0);
        }))
get_data_shred_info-Quot_example = get_data_shred_info-Quot toy 2 2 2 (λ e. cc)

-- Two data shreds and a coding shred: the set is complete.
toy_set-info : get_data_shred_info (toy_data 0 0 ∷ toy_code ∷ toy_data 1 1 ∷ []) ≡ record {
  num_expected_data_shreds = 2;
  num_expected_coding_shreds = 2;
  num_data_shreds = 2;
  num_coding_shreds = 1;
}
toy_set-info =
    get_data_shred_info_lem 2 2 2 (λ e. cc) (toy_data 0 0 ∷ toy_code ∷ toy_data 1 1 ∷ [])
      ((λ e. cc), ((refl, refl), ((λ e. refl), tt)))

toy_data_refl : comparable_eq toy (toy_data 1 1) (toy_data 1 1) ≡ returns true
toy_data_refl = comparable_eq_refl toy toy_laws _ (9 ∷ []) refl

hash-comparable_eq_example : hash toy (toy_data 1 1) ≡ hash toy (toy_data 1 1)
hash-comparable_eq_example =
    hash-comparable_eq toy toy_laws (toy_data 1 1) (toy_data 1 1) toy_data_refl
