-- ===== src/Tracker/Invariant.antt =====
-- What holds of a slot's tracker (proxy/src/deshred.rs: `ShredsStateTracker`) between two calls.
use shredstream_proxy.Common.{
  ℕ, ◌≡◌, refl, not, false, Option, none, some, length, length-replicate, get_or-replicate, arith,
}
use shredstream_proxy.Ledger.{Ledger, Shred, shred_code, shred_data, IsSane}
use shredstream_proxy.Tracker.{
  ShredsStateTracker, ShredStatus, unknown, default, is_some, is_unknown, status, shred_at,
  status_of, deshredded,
}

module _ {L : Ledger} where
  -- The shred stored at `k` is the data shred of that index, and the status is that of its flags.
  abbrev pub AtPlace : Shred L → ℕ → ShredStatus → Type 0
  AtPlace (shred_code c) k s = ⊥
  AtPlace (shred_data d) k s =
      (L.index d.common_header ≡ k) × (s ≡ status_of L d.data_header) × IsSane (shred_data d)

  -- An optional shred against the status of its place.
  abbrev pub Agrees : Option (Shred L) → ℕ → ShredStatus → Type 0
  Agrees none k s = s ≡ unknown
  Agrees (some x) k s = AtPlace x k s

  pub record IsValid (t : ShredsStateTracker L) : Type 0 where
    pub status_length : length t.data_status ≡ L.max_data_shreds_per_slot
    pub shreds_length : length t.data_shreds ≡ L.max_data_shreds_per_slot
    pub recovered_length : length t.already_recovered_fec_sets ≡ L.max_data_shreds_per_slot
    pub deshredded_length : length t.already_deshredded ≡ L.max_data_shreds_per_slot
    pub agrees : (k : ℕ) → Agrees (shred_at t k) k (status t k)

  -- A status is unknown exactly where no shred is stored.
  pub unknown_iff_missing :
      (o : Option (Shred L)) (k : ℕ) (s : ShredStatus)
      → Agrees o k s
      → is_unknown s ≡ not (is_some o)
  unknown_iff_missing none k s h = ground arith
  unknown_iff_missing (some (shred_code c)) k s h = absurd h
  unknown_iff_missing (some (shred_data d)) k s h = ground arith

module _ (L : Ledger) where
  pub default-IsValid : IsValid (default L)
  unfolding default
  default-IsValid = record {
    status_length = length-replicate _ _;
    shreds_length = length-replicate _ _;
    recovered_length = length-replicate _ _;
    deshredded_length = length-replicate _ _;
    agrees = λ k.
        rw
          (
            get_or-replicate {A = Option (Shred L)} L.max_data_shreds_per_slot k none,
            get_or-replicate L.max_data_shreds_per_slot k unknown,
          )
          refl;
  }

  pub default-unmarked : (k : ℕ) → deshredded (default L) k ≡ false
  unfolding default
  default-unmarked k = get_or-replicate L.max_data_shreds_per_slot k false

  pub default-unknown : (k : ℕ) → status (default L) k ≡ unknown
  unfolding default
  default-unknown k = get_or-replicate L.max_data_shreds_per_slot k unknown
