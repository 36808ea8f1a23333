-- ===== src/Tracker/Update.antt =====
-- `update_state_tracker` (proxy/src/deshred.rs): what it returns and what it writes, on each branch.
use shredstream_proxy.Common.{
  ℕ, ◌≡◌, ◌≢◌, refl, sym, ◌∙◌, inl, inr, Bool-cases, ==_iff, Bool, true, false, ◌⊎◌, ℕ_discrete,
  get_or-set_ne, ◌||◌, Option, none, some, returns, Ensures, ensures, set, at_lem, put_lem,
  length-set, get_or-set, if◌then◌else◌, ◌==◌, arith,
}
use shredstream_proxy.Ledger.{
  Ledger, Shred, ShredData, shred_code, shred_data, IsSane, index_of, fec_of,
}
use shredstream_proxy.Tracker.{
  ShredsStateTracker, unknown, is_some, status, shred_at, recovered, status_of,
  update_state_tracker,
}
use shredstream_proxy.Tracker.Invariant.{IsValid, Agrees, unknown_iff_missing}

module _ {L : Ledger} where
  -- A data shred whose index is stored already.
  abbrev pub is_stored : Shred L → ShredsStateTracker L → Bool
  is_stored (shred_code c) t = false
  is_stored (shred_data d) t = is_some (shred_at t (L.index d.common_header))

  abbrev pub stored : Shred L → ShredsStateTracker L → ShredsStateTracker L
  stored (shred_code c) t = t
  stored (shred_data d) t = record t {
    data_shreds = set t.data_shreds (L.index d.common_header) (some (shred_data d));
    data_status = set t.data_status (L.index d.common_header) (status_of L d.data_header);
  }

  pub stored-same_recovered :
      (s : Shred L) (t : ShredsStateTracker L)
      → (stored s t).already_recovered_fec_sets ≡ t.already_recovered_fec_sets
  stored-same_recovered (shred_code c) t = refl
  stored-same_recovered (shred_data d) t = refl

  -- The place of a stored data shred is filled.
  pub stored-filled_self :
      (d : ShredData L) (t : ShredsStateTracker L)
      → IsValid t
      → IsSane (shred_data d)
      → is_some (shred_at (stored (shred_data d) t) (L.index d.common_header)) ≡ true
  stored-filled_self d t v h =
      let i = L.index d.common_header in
      ground (
        arith,
        get_or-set t.data_shreds i i (some (shred_data d)) none
            (omega (arith, v.shreds_length, h.index_lt)),
      )

  -- A place that is filled afterwards was filled before, or is that of the shred.
  pub stored-filled :
      (s : Shred L) (t : ShredsStateTracker L) (k : ℕ)
      → is_some (shred_at (stored s t) k) ≡ true
      → (is_some (shred_at t k) ≡ true) ⊎ (index_of s ≡ k)
  stored-filled (shred_code c) t k h = inl h
  stored-filled (shred_data d) t k h = elim (ℕ_discrete (L.index d.common_header) k) [
    | yes e ↦ inr e
    | no n ↦ inl (
        ground (
          arith,
          get_or-set_ne t.data_shreds (L.index d.common_header) k (some (shred_data d)) none n,
        ))
  ]

  -- The reference: a shred of a recovered FEC set and a stored data shred change nothing.
  abbrev pub updated : Shred L → ShredsStateTracker L → Option ℕ × ShredsStateTracker L
  updated s t =
      if recovered t (fec_of s) || is_stored s t then (none, t) else (some (index_of s), stored s t)

  -- On a valid tracker and a sane shred, `update_state_tracker` returns what the reference does:
  -- nothing for a shred of a recovered FEC set or a data shred that is stored, else the shred's
  -- index, and a data shred is stored with its status.
  pub update_state_tracker-eq-updated :
      (s : Shred L) (t : ShredsStateTracker L)
      → IsValid t
      → IsSane s
      → update_state_tracker s t ≡ returns (updated s t)
  unfolding update_state_tracker
  update_state_tracker-eq-updated (shred_code c) t v h =
      ground (arith, at_lem t.already_recovered_fec_sets (L.fec_set_index c.common_header) false)
  update_state_tracker-eq-updated (shred_data d) t v h = ground (
    arith,
    at_lem t.already_recovered_fec_sets (L.fec_set_index d.common_header) false,
    at_lem t.data_shreds (L.index d.common_header) none,
    at_lem t.data_status (L.index d.common_header) unknown,
    put_lem t.data_shreds (L.index d.common_header) (some (shred_data d)),
    put_lem t.data_status (L.index d.common_header) (status_of L d.data_header),
    unknown_iff_missing (shred_at t (L.index d.common_header)) (L.index d.common_header)
        (status t (L.index d.common_header)) (v.agrees (L.index d.common_header)),
  )

  stored-Agrees :
      (s : Shred L) (t : ShredsStateTracker L) (k : ℕ)
      → IsValid t
      → IsSane s
      → Agrees (shred_at (stored s t) k) k (status (stored s t) k)
  stored-Agrees (shred_code c) t k v h = v.agrees k
  stored-Agrees (shred_data d) t k v h =
      let i = L.index d.common_header in
      rw
        (
          get_or-set t.data_shreds i k (some (shred_data d)) none
              (omega (arith, h.index_lt, v.shreds_length)),
          get_or-set t.data_status i k (status_of L d.data_header) unknown
              (omega (arith, h.index_lt, v.status_length)),
        )
        (elim (Bool-cases (i == k)) [
          | inl e ↦ rw e ((==_iff i k).0 e, refl, h)
          | inr e ↦ rw e (v.agrees k)
        ])

  pub stored-IsValid :
      (s : Shred L) (t : ShredsStateTracker L) → IsValid t → IsSane s → IsValid (stored s t)
  stored-IsValid (shred_code c) t v h = v
  stored-IsValid (shred_data d) t v h = record {
    status_length = length-set t.data_status _ _ ∙ v.status_length;
    shreds_length = length-set t.data_shreds _ _ ∙ v.shreds_length;
    recovered_length = v.recovered_length;
    deshredded_length = v.deshredded_length;
    agrees = λ k. stored-Agrees (shred_data d) t k v h;
  }

  -- What a tracker keeps while shreds are recorded: each stored shred and its status, and all flags.
  pub record Extends (t t' : ShredsStateTracker L) : Type 0 where
    pub kept : (k : ℕ) (s : Shred L) → shred_at t k ≡ some s → shred_at t' k ≡ some s
    pub known : (k : ℕ) → status t k ≢ unknown → status t' k ≡ status t k
    pub same_recovered : t'.already_recovered_fec_sets ≡ t.already_recovered_fec_sets
    pub same_deshredded : t'.already_deshredded ≡ t.already_deshredded

  pub Extends-refl : (t : ShredsStateTracker L) → Extends t t
  Extends-refl t = record {
    kept = λ k s e. e;
    known = λ k h. refl;
    same_recovered = refl;
    same_deshredded = refl;
  }

  pub Extends-trans : {t u w : ShredsStateTracker L} → Extends t u → Extends u w → Extends t w
  Extends-trans p q = record {
    kept = λ k s e. q.kept k s (p.kept k s e);
    known = λ k h. q.known k (λ e. h (sym (p.known k h) ∙ e)) ∙ p.known k h;
    same_recovered = q.same_recovered ∙ p.same_recovered;
    same_deshredded = q.same_deshredded ∙ p.same_deshredded;
  }

  stored-Extends :
      (s : Shred L) (t : ShredsStateTracker L)
      → IsValid t
      → IsSane s
      → is_stored s t ≡ false
      → Extends t (stored s t)
  stored-Extends (shred_code c) t v h new = Extends-refl t
  stored-Extends (shred_data d) t v h new = record {
    kept = λ k s e. ground (
      arith,
      new,
      get_or-set t.data_shreds (L.index d.common_header) k (some (shred_data d)) none,
    );
    known = λ k e. ground (
      arith,
      new,
      get_or-set t.data_status (L.index d.common_header) k (status_of L d.data_header) unknown,
      unknown_iff_missing (shred_at t k) k (status t k) (v.agrees k),
    );
    same_recovered = refl;
    same_deshredded = refl;
  }

  -- `update_state_tracker` of a sane shred returns and keeps a valid tracker valid, with each shred
  -- that it stores, each status that is known, and all flags.
  pub update_state_tracker-Extends :
      (s : Shred L) (t : ShredsStateTracker L)
      → IsValid t
      → IsSane s
      → Ensures (λ r. IsValid r.1 × Extends t r.1) (update_state_tracker s t)
  update_state_tracker-Extends s t v h =
      rw (update_state_tracker-eq-updated s t v h)
        (elim (Bool-cases (recovered t (fec_of s) || is_stored s t)) [
          | inl e ↦ rw e (ensures (v, Extends-refl t))
          | inr e ↦ rw e (ensures (stored-IsValid s t v h, stored-Extends s t v h (ground arith)))
        ])
