-- ===== src/Reconstruct/Recover.antt =====
-- proxy/src/deshred.rs, `reconstruct_shreds`: recovery of missing data shreds by FEC set.
pub mod Valid
pub mod Held
pub mod Won
pub mod Spared
pub mod Growth
pub mod Tried
pub mod Complete
use shredstream_proxy.Common.{
  ℕ, ◌+◌, ◌-◌, ◌<◌, Bool, true, false, ◌||◌, Option, none, some, List, [], ◌∷◌, Outcome, returns,
  ◌>>=◌, for_each, put, length, ltb, ◌==◌, if◌then◌else◌, Key, sort_by_key, entry, insert,
}
use shredstream_proxy.Ledger.{Ledger, Shred, index_of, type_of}
use shredstream_proxy.Tracker.{ShredsStateTracker, update_state_tracker}
use shredstream_proxy.FecInfo.{FecInfo, get_data_shred_info}
use shredstream_proxy.Reconstruct.{Codec, SlotState, Slots, new_slot}

pub record Recovered (L : Ledger) : Type 0 where
  pub all_shreds : Slots L
  pub total_recovered_count : ℕ

-- The state of the loop over the recovered shreds of one set.
pub record SetProgress (L : Ledger) : Type 0 where
  pub tracker : ShredsStateTracker L
  pub fec_set_recovered_count : ℕ

-- Too few shreds, no expected count, or all data shreds there.
abbrev pub set_skipped : FecInfo → ℕ → Bool
set_skipped info len =
    info.num_expected_data_shreds == 0
    || ltb len info.num_expected_data_shreds
    || info.num_data_shreds == info.num_expected_data_shreds

module _ {L : Ledger} where
  -- `(u8::MAX - shred_type as u8, index)`
  abbrev pub recover_key : Shred L → Key
  recover_key s = (255 - L.type_byte (type_of s), index_of s)

  -- The two outcomes of `update_state_tracker` for one recovered shred.
  abbrev pub count_recovered : SetProgress L → Option ℕ × ShredsStateTracker L → SetProgress L
  count_recovered p (none, t) = record p { tracker = t }
  count_recovered p (some index, t) = record {
    tracker = t;
    fec_set_recovered_count = p.fec_set_recovered_count + 1;
  }

  pub add_recovered : Option (Shred L) → SetProgress L → Outcome (SetProgress L)
  add_recovered none p = returns p
  add_recovered (some shred) p = do
    r ← update_state_tracker shred p.tracker
    returns (count_recovered p r)

  -- After the loop: a set of which anything was recovered is marked, and its shreds are cleared.
  pub close_set :
      ℕ → List (Shred L) → SetProgress L → Outcome (List (Shred L) × ShredsStateTracker L)
  close_set fec shreds p =
      let t = p.tracker in
      if ltb 0 p.fec_set_recovered_count
      then (do
        flags ← put t.already_recovered_fec_sets fec true
        returns ([], record t { already_recovered_fec_sets = flags }))
      else returns (shreds, t)

  -- The set's shreds and tracker after it was tried, and how many shreds were recovered.
  pub recover_result :
      ℕ
      → List (Shred L)
      → ShredsStateTracker L
      → Option (List (Option (Shred L)))
      → Outcome (List (Shred L) × ShredsStateTracker L × ℕ)
  unfolding add_recovered close_set for_each
  recover_result fec shreds t none = returns (shreds, t, 0)
  recover_result fec shreds t (some found) = do
    p ← for_each add_recovered found (record { tracker = t; fec_set_recovered_count = 0 })
    r ← close_set fec shreds p
    returns (r.0, r.1, p.fec_set_recovered_count)

  pub recover_set :
      Codec L
      → ℕ
      → List (Shred L)
      → ShredsStateTracker L
      → Outcome (List (Shred L) × ShredsStateTracker L × ℕ)
  unfolding recover_result
  recover_set C fec shreds t =
      if set_skipped (get_data_shred_info shreds) (length shreds)
      then returns (shreds, t, 0)
      else recover_result fec shreds t (C.recover (sort_by_key recover_key shreds))

  unfoldable pub recover_fec_set : Codec L → Key → Recovered L → Outcome (Recovered L)
  unfolding recover_set
  recover_fec_set C (slot, fec) st =
      let s = entry (new_slot L) slot st.all_shreds in
      recover_set C fec (entry [] fec s.fec_sets) s.tracker >>= λ r. returns (record {
        all_shreds =
            insert slot (record { fec_sets = insert fec r.0 s.fec_sets; tracker = r.1 })
              st.all_shreds;
        total_recovered_count = st.total_recovered_count + r.2;
      })

  unfoldable pub recover_all : Codec L → List Key → Recovered L → Outcome (Recovered L)
  unfolding recover_fec_set for_each
  recover_all C keys st = for_each (recover_fec_set C) keys st
