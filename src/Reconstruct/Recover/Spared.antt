-- ===== src/Reconstruct/Recover/Spared.antt =====
-- Recovery over the queue (proxy/src/deshred.rs, `reconstruct_shreds`) clears and marks no FEC set
-- but those that it recovers.
use shredstream_proxy.Common.{
  ℕ, ◌≡◌, refl, sym, ◌∙◌, ap, subst, ◌⊎◌, inl, inr, true, List, [], Ensures, ensures, Ensures-bind,
  Ensures-mono, Ensures-and, for_each-Ensures, ℕ_discrete, Key, entry, entry-insert_self,
  entry-insert_ne, insert, All, All-entry,
}
use shredstream_proxy.Ledger.{Ledger, Shred}
use shredstream_proxy.Tracker.{recovered}
use shredstream_proxy.Reconstruct.{
  Codec, CodecLaws, SlotState, Slots, SlotsValid, SlotValid, FecSetValid, new_slot,
  new_slot-SlotValid,
}
use shredstream_proxy.Reconstruct.Trackers.{tracker_of}
use shredstream_proxy.Reconstruct.Ingest.Valid.{KeyValid}
use shredstream_proxy.Reconstruct.Recover.{Recovered, recover_fec_set, recover_all}
use shredstream_proxy.Reconstruct.Recover.Valid.{recover_fec_set-Valid}
use shredstream_proxy.Reconstruct.Recover.Growth.{Grows, Grows-refl, Grows-trans}
use shredstream_proxy.Reconstruct.Recover.Won.{Won, Won-widen, Turn, recover_set-Turn}

module _ {L : Ledger} where
  -- The shreds held of a FEC set.
  abbrev pub set_of : Slots L → ℕ → ℕ → List (Shred L)
  set_of m slot fec = entry [] fec (entry (new_slot L) slot m).fec_sets

  module _ (C : Codec L) where
    -- A FEC set of the earlier slots was recovered.
    abbrev pub WonSet : Slots L → Slots L → ℕ → ℕ → Type 0
    WonSet m m' slot fec = Won C (set_of m slot fec) fec (tracker_of m slot) (tracker_of m' slot)

    pub record Spared (m m' : Slots L) : Type 0 where
      pub grows : (slot : ℕ) → Grows (tracker_of m slot) (tracker_of m' slot)
      -- A set keeps its shreds, or it was recovered and cleared.
      pub sets :
          (slot fec : ℕ)
          → (set_of m' slot fec ≡ set_of m slot fec)
            ⊎ ((set_of m' slot fec ≡ []) × WonSet m m' slot fec)
      -- A set is marked if it was so before, or was recovered.
      pub flags :
          (slot fec : ℕ)
          → recovered (tracker_of m' slot) fec ≡ true
          → (recovered (tracker_of m slot) fec ≡ true) ⊎ WonSet m m' slot fec

    Spared-refl : (m : Slots L) → Spared m m
    Spared-refl m = record {
      grows = λ slot. Grows-refl (tracker_of m slot);
      sets = λ slot fec. inl refl;
      flags = λ slot fec h. inl h;
    }

    Spared-trans : (m m' m'' : Slots L) → Spared m m' → Spared m' m'' → Spared m m''
    Spared-trans m m' m'' p q = record {
      grows = λ slot.
          Grows-trans (tracker_of m slot) (tracker_of m' slot) (tracker_of m'' slot) (p.grows slot)
            (q.grows slot);
      sets = λ slot fec. elim (q.sets slot fec) [
        | inl same ↦ elim (p.sets slot fec) [
          | inl same' ↦ inl (same ∙ same')
          | inr won ↦ inr (same ∙ won.0, first slot fec won.1)
        ]
        | inr won ↦ inr (won.0, then slot fec won.1)
      ];
      flags = λ slot fec h. elim (q.flags slot fec h) [
        | inl old ↦ elim (p.flags slot fec old) [
          | inl older ↦ inl older
          | inr won ↦ inr (first slot fec won)
        ]
        | inr won ↦ inr (then slot fec won)
      ];
    }
      where
        first : (slot fec : ℕ) → WonSet m m' slot fec → WonSet m m'' slot fec
        first slot fec w =
            Won-widen C (tracker_of m slot) (tracker_of m slot) (tracker_of m' slot)
              (tracker_of m'' slot) (Grows-refl (tracker_of m slot)) (q.grows slot) w

        then : (slot fec : ℕ) → WonSet m' m'' slot fec → WonSet m m'' slot fec
        then slot fec w = elim (p.sets slot fec) [
          | inl same ↦
              subst (λ xs. Won C xs fec (tracker_of m slot) (tracker_of m'' slot)) same
                (Won-widen C (tracker_of m slot) (tracker_of m' slot) (tracker_of m'' slot)
                  (tracker_of m'' slot) (p.grows slot) (Grows-refl (tracker_of m'' slot)) w)
          | inr won ↦ first slot fec won.1
        ]

    -- What a turn leaves of one slot.
    record SlotSpared (s s' : SlotState L) : Type 0 where
      grows : Grows s.tracker s'.tracker
      sets :
          (fec : ℕ)
          → (entry [] fec s'.fec_sets ≡ entry [] fec s.fec_sets)
            ⊎ ((entry [] fec s'.fec_sets ≡ [])
                × Won C (entry [] fec s.fec_sets) fec s.tracker s'.tracker)
      flags :
          (fec : ℕ)
          → recovered s'.tracker fec ≡ true
          → (recovered s.tracker fec ≡ true)
            ⊎ Won C (entry [] fec s.fec_sets) fec s.tracker s'.tracker

    SlotSpared-refl : (s : SlotState L) → SlotSpared s s
    SlotSpared-refl s = record {
      grows = Grows-refl s.tracker;
      sets = λ fec. inl refl;
      flags = λ fec h. inl h;
    }

    -- Slot by slot.
    Spared-of :
        (m m' : Slots L)
        → ((slot : ℕ) → SlotSpared (entry (new_slot L) slot m) (entry (new_slot L) slot m'))
        → Spared m m'
    Spared-of m m' h = record {
      grows = λ slot. (h slot).grows;
      sets = λ slot fec. (h slot).sets fec;
      flags = λ slot fec k. (h slot).flags fec k;
    }

    Spared-insert :
        (m : Slots L) (slot : ℕ) (s : SlotState L)
        → SlotSpared (entry (new_slot L) slot m) s
        → Spared m (insert slot s m)
    Spared-insert m slot s h = Spared-of m (insert slot s m) λ j. elim (ℕ_discrete slot j) [
      | yes e ↦
          subst (λ i. SlotSpared (entry (new_slot L) i m) (entry (new_slot L) i (insert slot s m)))
            e
            (subst (SlotSpared (entry (new_slot L) slot m))
              (sym (entry-insert_self (new_slot L) slot s m)) h)
      | no n ↦
          subst (SlotSpared (entry (new_slot L) j m))
            (sym (entry-insert_ne (new_slot L) slot j s m n))
            (SlotSpared-refl (entry (new_slot L) j m))
    ]

    SlotSpared-Turn :
        (fec : ℕ) (s : SlotState L) (xs : List (Shred L)) (s' : SlotState L)
        → Turn C fec (entry [] fec s.fec_sets) s.tracker xs s'.tracker
        → s'.fec_sets ≡ insert fec xs s.fec_sets
        → SlotSpared s s'
    SlotSpared-Turn fec s xs s' t e = record {
      grows = t.grows;
      sets = λ f. elim (ℕ_discrete fec f) [
        | yes same ↦
            subst
              (λ i.
                (entry [] i s'.fec_sets ≡ entry [] i s.fec_sets)
                ⊎ ((entry [] i s'.fec_sets ≡ [])
                    × Won C (entry [] i s.fec_sets) i s.tracker s'.tracker))
              same
              (subst
                (λ ys.
                  (ys ≡ entry [] fec s.fec_sets)
                  ⊎ ((ys ≡ []) × Won C (entry [] fec s.fec_sets) fec s.tracker s'.tracker))
                (sym (ap (entry [] fec) e ∙ entry-insert_self [] fec xs s.fec_sets)) t.kept_or_won)
        | no n ↦ inl (ap (entry [] f) e ∙ entry-insert_ne [] fec f xs s.fec_sets n)
      ];
      flags = λ f h. elim (t.flags f h) [
        | inl old ↦ inl old
        | inr (same, won) ↦
            inr (subst (λ i. Won C (entry [] i s.fec_sets) i s.tracker s'.tracker) (sym same) won)
      ];
    }

    module _ (laws : CodecLaws C) where
      recover_fec_set-Spared :
          (k : Key) (st : Recovered L)
          → KeyValid L k
          → SlotsValid st.all_shreds
          → Ensures (λ r. Spared st.all_shreds r.all_shreds) (recover_fec_set C k st)
      unfolding recover_fec_set
      recover_fec_set-Spared (slot, fec) st h w =
          let m = st.all_shreds in
          let s = entry (new_slot L) slot m in
          let v : SlotValid s =
            All-entry (λ j x. SlotValid x) (new_slot L) slot m (new_slot-SlotValid L) w in
          Ensures-bind _
            (recover_set-Turn C laws fec (set_of m slot fec) s.tracker
              (All-entry FecSetValid [] fec s.fec_sets (h, tt) v.fec_sets_valid) v.tracker_valid)
            λ r t. ensures (
              Spared-insert m slot (record { fec_sets = insert fec r.0 s.fec_sets; tracker = r.1 })
                (SlotSpared-Turn fec s r.0
                  (record { fec_sets = insert fec r.0 s.fec_sets; tracker = r.1 }) t refl))

      pub recover_all-Spared :
          (keys : List Key) (st : Recovered L)
          → All (KeyValid L) keys
          → SlotsValid st.all_shreds
          → Ensures (λ r. Spared st.all_shreds r.all_shreds) (recover_all C keys st)
      unfolding recover_all
      recover_all-Spared keys st h w =
          Ensures-mono
            (for_each-Ensures
              (λ (r : Recovered L). SlotsValid r.all_shreds × Spared st.all_shreds r.all_shreds)
              (KeyValid L) (recover_fec_set C)
              (λ k s q v.
                Ensures-mono
                  (Ensures-and (recover_fec_set-Valid C laws k s q v.0)
                    (recover_fec_set-Spared k s q v.0))
                  λ r p. (p.0.0, Spared-trans st.all_shreds s.all_shreds r.all_shreds v.1 p.1))
              keys st h (w, Spared-refl st.all_shreds))
            λ r p. p.1
