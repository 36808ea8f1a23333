-- ===== src/Reconstruct/Recover/Complete.antt =====
-- Recovery by FEC set (proxy/src/deshred.rs, `reconstruct_shreds`) leaves no queued set that could be
-- recovered further.
use shredstream_proxy.Common.{
  ℕ, ◌≡◌, refl, sym, ◌∙◌, ap, subst, ◌⊎◌, inl, inr, List, [], Ensures, ensures, Ensures-bind,
  Ensures-mono, Ensures-and, for_each-Each, ℕ_discrete, Key, entry, entry-insert_self,
  entry-insert_ne, insert, All, All-entry,
}
use shredstream_proxy.Ledger.{Ledger}
use shredstream_proxy.Reconstruct.{
  Codec, CodecLaws, SlotState, Slots, SlotsValid, SlotValid, FecSetValid, new_slot,
  new_slot-SlotValid,
}
use shredstream_proxy.Reconstruct.Trackers.{tracker_of, SameMarks, SameMarks-trans}
use shredstream_proxy.Reconstruct.Ingest.Valid.{KeyValid}
use shredstream_proxy.Reconstruct.Recover.{Recovered, recover_fec_set, recover_all}
use shredstream_proxy.Reconstruct.Recover.Valid.{recover_fec_set-Valid}
use shredstream_proxy.Reconstruct.Recover.Growth.{Grows, Grows-refl, Grows-trans}
use shredstream_proxy.Reconstruct.Recover.Spared.{set_of, Spared, recover_all-Spared}
use shredstream_proxy.Reconstruct.Recover.Tried.{Tried, Tried-later, Tried-nil, recover_set-Tries}

module _ {L : Ledger} where
  -- A later map of slots: trackers grow, and each set stays as it is or is cleared.
  pub record Onward (m m' : Slots L) : Type 0 where
    pub grows : (slot : ℕ) → Grows (tracker_of m slot) (tracker_of m' slot)
    pub sets_stay :
        (slot fec : ℕ) → (set_of m' slot fec ≡ set_of m slot fec) ⊎ (set_of m' slot fec ≡ [])

  Onward-refl : (m : Slots L) → Onward m m
  Onward-refl m = record {
    grows = λ slot. Grows-refl (tracker_of m slot);
    sets_stay = λ slot fec. inl refl;
  }

  Onward-trans : {m m' m'' : Slots L} → Onward m m' → Onward m' m'' → Onward m m''
  Onward-trans {m} {m'} {m''} p q = record {
    grows = λ slot.
        Grows-trans (tracker_of m slot) (tracker_of m' slot) (tracker_of m'' slot) (p.grows slot)
          (q.grows slot);
    sets_stay = λ slot fec. elim (q.sets_stay slot fec) [
      | inl same ↦ elim (p.sets_stay slot fec) [
        | inl same' ↦ inl (same ∙ same')
        | inr gone ↦ inr (same ∙ gone)
      ]
      | inr gone ↦ inr gone
    ];
  }

  -- One slot is written back.
  Onward-insert :
      (m : Slots L) (slot : ℕ) (s : SlotState L)
      → Grows (tracker_of m slot) s.tracker
      → ((fec : ℕ) → (entry [] fec s.fec_sets ≡ set_of m slot fec) ⊎ (entry [] fec s.fec_sets ≡ []))
      → Onward m (insert slot s m)
  Onward-insert m slot s g k = record {
    grows = λ j. elim (ℕ_discrete slot j) [
      | yes e ↦
          subst (λ i. Grows (tracker_of m i) (tracker_of (insert slot s m) i)) e
            (subst (λ x. Grows (tracker_of m slot) x.tracker)
              (sym (entry-insert_self (new_slot L) slot s m)) g)
      | no n ↦
          subst (λ x. Grows (tracker_of m j) x.tracker)
            (sym (entry-insert_ne (new_slot L) slot j s m n)) (Grows-refl (tracker_of m j))
    ];
    sets_stay = λ j fec. elim (ℕ_discrete slot j) [
      | yes e ↦
          subst
            (λ i.
              (set_of (insert slot s m) i fec ≡ set_of m i fec)
              ⊎ (set_of (insert slot s m) i fec ≡ []))
            e
            (subst
              (λ x. (entry [] fec x.fec_sets ≡ set_of m slot fec) ⊎ (entry [] fec x.fec_sets ≡ []))
              (sym (entry-insert_self (new_slot L) slot s m)) (k fec))
      | no n ↦ inl (ap (λ x. entry [] fec x.fec_sets) (entry-insert_ne (new_slot L) slot j s m n))
    ];
  }

  module _ (C : Codec L) where
    -- A queued set was tried.
    abbrev pub SetDone : Key → Slots L → Type 0
    SetDone k m = Tried C k.1 (set_of m k.0 k.1) (tracker_of m k.0)

    pub SetDone-later : (k : Key) (m m' : Slots L) → Onward m m' → SetDone k m → SetDone k m'
    SetDone-later k m m' l d = elim (l.sets_stay k.0 k.1) [
      | inl same ↦
          subst (λ xs. Tried C k.1 xs (tracker_of m' k.0)) (sym same)
            (Tried-later C k.1 (set_of m k.0 k.1) _ _ (l.grows k.0) d)
      | inr gone ↦ subst (λ xs. Tried C k.1 xs (tracker_of m' k.0)) (sym gone) (Tried-nil C k.1 _)
    ]

    module _ (laws : CodecLaws C) where
      recover_fec_set-Done :
          (k : Key) (st : Recovered L)
          → KeyValid L k
          → SlotsValid st.all_shreds
          → Ensures
              (λ r. Onward st.all_shreds r.all_shreds × SetDone k r.all_shreds)
              (recover_fec_set C k st)
      unfolding recover_fec_set
      recover_fec_set-Done (slot, fec) st h w =
          let m = st.all_shreds in
          let s = entry (new_slot L) slot m in
          let v : SlotValid s =
            All-entry (λ j x. SlotValid x) (new_slot L) slot m (new_slot-SlotValid L) w in
          Ensures-bind _
            (recover_set-Tries C laws fec (set_of m slot fec) s.tracker
              (All-entry FecSetValid [] fec s.fec_sets (h, tt) v.fec_sets_valid) v.tracker_valid)
            λ r q.
              let s' : SlotState L = record {
                fec_sets = insert fec r.0 s.fec_sets;
                tracker = r.1;
              } in
              ensures (
                Onward-insert m slot s' q.1 (λ f. elim (ℕ_discrete fec f) [
                  | yes e ↦
                      subst
                        (λ i.
                          (entry [] i s'.fec_sets ≡ set_of m slot i)
                          ⊎ (entry [] i s'.fec_sets ≡ []))
                        e
                        (subst (λ xs. (xs ≡ set_of m slot fec) ⊎ (xs ≡ []))
                          (sym (entry-insert_self [] fec r.0 s.fec_sets)) q.2)
                  | no n ↦ inl (entry-insert_ne [] fec f r.0 s.fec_sets n)
                ]),
                subst (λ x. Tried C fec (entry [] fec x.fec_sets) x.tracker)
                    (sym (entry-insert_self (new_slot L) slot s' m))
                    (subst (λ xs. Tried C fec xs r.1)
                      (sym (entry-insert_self [] fec r.0 s.fec_sets)) q.0),
              )

      recover_all-Tried :
          (keys : List Key) (st : Recovered L)
          → All (KeyValid L) keys
          → SlotsValid st.all_shreds
          → Ensures
              (λ r.
                (SlotsValid r.all_shreds × SameMarks st.all_shreds r.all_shreds)
                × Onward st.all_shreds r.all_shreds
                × All (λ k. SetDone k r.all_shreds) keys)
              (recover_all C keys st)
      unfolding recover_all
      recover_all-Tried keys st h w =
          for_each-Each
            (λ (r : Recovered L). SlotsValid r.all_shreds × SameMarks st.all_shreds r.all_shreds)
            (λ k r. SetDone k r.all_shreds) (λ r r'. Onward r.all_shreds r'.all_shreds)
            (recover_fec_set C) (λ r. Onward-refl r.all_shreds) (λ r r' r'' p q. Onward-trans p q)
            (λ k r r' l d. SetDone-later k r.all_shreds r'.all_shreds l d) (KeyValid L)
            (λ k s q v.
              Ensures-mono
                (Ensures-and (recover_fec_set-Valid C laws k s q v.0)
                  (recover_fec_set-Done k s q v.0))
                λ r p. (
                  (p.0.0, SameMarks-trans st.all_shreds s.all_shreds r.all_shreds v.1 p.0.1),
                  p.1.0,
                  p.1.1,
                ))
            keys st h (w, λ slot. refl)

      pub recover_all-Done :
          (keys : List Key) (st : Recovered L)
          → All (KeyValid L) keys
          → SlotsValid st.all_shreds
          → Ensures
              (λ r.
                (SlotsValid r.all_shreds × SameMarks st.all_shreds r.all_shreds)
                × Spared C st.all_shreds r.all_shreds
                × All (λ k. SetDone k r.all_shreds) keys)
              (recover_all C keys st)
      recover_all-Done keys st h w =
          Ensures-mono
            (Ensures-and (recover_all-Tried keys st h w) (recover_all-Spared C laws keys st h w))
            λ r p. (p.0.0, p.1, p.0.2)
