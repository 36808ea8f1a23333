-- ===== src/Reconstruct/Recover/Valid.antt =====
-- Recovery by FEC set (proxy/src/deshred.rs, `reconstruct_shreds`) returns, and keeps the slots
-- valid.
use shredstream_proxy.Common.{
  ℕ, ◌≡◌, refl, ◌∙◌, inl, inr, true, Option, none, some, List, [], Ensures, ensures, Ensures-bind,
  Ensures-mono, Bool, insert, for_each-Ensures, put_lem, length, length-set, set, ltb, Bool-cases,
  Key, sort_by_key, sort_by_key-All, entry, All, All-insert, All-entry, arith,
}
use shredstream_proxy.Ledger.{Ledger, Shred, IsSane}
use shredstream_proxy.Tracker.{ShredsStateTracker}
use shredstream_proxy.Tracker.Invariant.{IsValid}
use shredstream_proxy.Tracker.Update.{update_state_tracker-Extends}
use shredstream_proxy.FecInfo.{get_data_shred_info}
use shredstream_proxy.Reconstruct.{
  Codec, CodecLaws, IfSome, SlotsValid, SlotValid, FecSetValid, new_slot, new_slot-SlotValid,
}
use shredstream_proxy.Reconstruct.Trackers.{SameMarks, SameMarks-trans, SameMarks-insert}
use shredstream_proxy.Reconstruct.Ingest.Valid.{KeyValid}
use shredstream_proxy.Reconstruct.Recover.{
  Recovered, SetProgress, recover_key, set_skipped, count_recovered, add_recovered, close_set,
  recover_result, recover_set, recover_fec_set, recover_all,
}

module _ {L : Ledger} where
  -- A valid tracker with the given marks.
  abbrev ValidMarks : List Bool → ShredsStateTracker L → Type 0
  ValidMarks marks t = IsValid t × (t.already_deshredded ≡ marks)

  abbrev ProgressValid : List Bool → SetProgress L → Type 0
  ProgressValid marks p = ValidMarks marks p.tracker

  count_recovered-Valid :
      (marks : List Bool) (p : SetProgress L) (o : Option ℕ) (t : ShredsStateTracker L)
      → ValidMarks marks t
      → ProgressValid marks (count_recovered p (o, t))
  count_recovered-Valid marks p none t v = v
  count_recovered-Valid marks p (some i) t v = v

  add_recovered-Valid :
      (marks : List Bool) (o : Option (Shred L)) (p : SetProgress L)
      → IfSome IsSane o
      → ProgressValid marks p
      → Ensures (ProgressValid marks) (add_recovered o p)
  unfolding add_recovered
  add_recovered-Valid marks none p h v = ensures v
  add_recovered-Valid marks (some s) p h v =
      Ensures-bind _ (update_state_tracker-Extends s p.tracker v.0 h)
        λ r q. ensures (count_recovered-Valid marks p r.0 r.1 (q.0, q.1.same_deshredded ∙ v.1))

  pub mark_recovered-IsValid :
      (t : ShredsStateTracker L) (fec : ℕ)
      → IsValid t
      → IsValid
          (record t { already_recovered_fec_sets = set t.already_recovered_fec_sets fec true })
  mark_recovered-IsValid t fec v = record {
    status_length = v.status_length;
    shreds_length = v.shreds_length;
    recovered_length = length-set t.already_recovered_fec_sets fec true ∙ v.recovered_length;
    deshredded_length = v.deshredded_length;
    agrees = v.agrees;
  }

  close_set-Valid :
      (marks : List Bool) (fec : ℕ) (shreds : List (Shred L)) (p : SetProgress L)
      → FecSetValid fec shreds
      → ProgressValid marks p
      → Ensures (λ r. All IsSane r.0 × ValidMarks marks r.1) (close_set fec shreds p)
  unfolding close_set
  close_set-Valid marks fec shreds p h v = elim (Bool-cases (ltb 0 p.fec_set_recovered_count)) [
    | inl more ↦
        rw
          (
            more,
            put_lem p.tracker.already_recovered_fec_sets fec true
                (omega (arith, h.0, v.0.recovered_length)),
          )
          (ensures (tt, (mark_recovered-IsValid p.tracker fec v.0, v.1)))
    | inr nothing ↦ rw nothing (ensures (h.1, v))
  ]

  module _ (C : Codec L) (laws : CodecLaws C) where
    recover_result-Valid :
        (fec : ℕ) (shreds : List (Shred L)) (t : ShredsStateTracker L)
        (o : Option (List (Option (Shred L))))
        → FecSetValid fec shreds
        → IsValid t
        → ((ys : List (Option (Shred L))) → o ≡ some ys → All (IfSome IsSane) ys)
        → Ensures
            (λ r. All IsSane r.0 × ValidMarks t.already_deshredded r.1)
            (recover_result fec shreds t o)
    unfolding recover_result
    recover_result-Valid fec shreds t none h v k = ensures (h.1, (v, refl))
    recover_result-Valid fec shreds t (some found) h v k =
        Ensures-bind _
          (for_each-Ensures (ProgressValid t.already_deshredded) (IfSome IsSane) add_recovered
            (add_recovered-Valid t.already_deshredded) found _ (k found refl) (v, refl))
          λ p q.
            Ensures-bind _ (close_set-Valid t.already_deshredded fec shreds p h q) λ r w. ensures w

    recover_set-Valid :
        (fec : ℕ) (shreds : List (Shred L)) (t : ShredsStateTracker L)
        → FecSetValid fec shreds
        → IsValid t
        → Ensures
            (λ r. All IsSane r.0 × ValidMarks t.already_deshredded r.1)
            (recover_set C fec shreds t)
    unfolding recover_set
    recover_set-Valid fec shreds t h v =
        elim (Bool-cases (set_skipped (get_data_shred_info shreds) (length shreds))) [
          | inl skip ↦ rw skip (ensures (h.1, (v, refl)))
          | inr try ↦ rw try (
              recover_result-Valid fec shreds t (C.recover (sort_by_key recover_key shreds)) h v
                (λ ys.
                  laws.recover-IsSane (sort_by_key recover_key shreds) ys
                    (sort_by_key-All recover_key IsSane shreds h.1)))
        ]

    pub recover_fec_set-Valid :
        (k : Key) (st : Recovered L)
        → KeyValid L k
        → SlotsValid st.all_shreds
        → Ensures
            (λ r. SlotsValid r.all_shreds × SameMarks st.all_shreds r.all_shreds)
            (recover_fec_set C k st)
    unfolding recover_fec_set
    recover_fec_set-Valid (slot, fec) st h w =
        let s = entry (new_slot L) slot st.all_shreds in
        let v : SlotValid s =
          All-entry (λ j x. SlotValid x) (new_slot L) slot st.all_shreds (new_slot-SlotValid L) w in
        let f : FecSetValid fec (entry [] fec s.fec_sets) =
          All-entry FecSetValid [] fec s.fec_sets (h, tt) v.fec_sets_valid in
        Ensures-bind _ (recover_set-Valid fec (entry [] fec s.fec_sets) s.tracker f v.tracker_valid)
          λ r q. ensures (
            All-insert (λ j x. SlotValid x) slot _ st.all_shreds
                (record {
                  fec_sets_valid =
                      All-insert FecSetValid fec r.0 s.fec_sets (h, q.0) v.fec_sets_valid;
                  tracker_valid = q.1.0;
                })
                w,
            SameMarks-insert st.all_shreds slot
                (record { fec_sets = insert fec r.0 s.fec_sets; tracker = r.1 }) q.1.1,
          )

    -- On valid slots, and with crates that sanitise, recovery over any queue of FEC sets within the
    -- vectors returns, and keeps all slots valid and all marks of shreds that were given out.
    pub recover_all-Valid :
        (keys : List Key) (st : Recovered L)
        → All (KeyValid L) keys
        → SlotsValid st.all_shreds
        → Ensures
            (λ r. SlotsValid r.all_shreds × SameMarks st.all_shreds r.all_shreds)
            (recover_all C keys st)
    unfolding recover_all
    recover_all-Valid keys st h w =
        for_each-Ensures (λ r. SlotsValid r.all_shreds × SameMarks st.all_shreds r.all_shreds)
          (KeyValid L) (recover_fec_set C)
          (λ k s q v.
            Ensures-mono (recover_fec_set-Valid k s q v.0)
              λ r p. (p.0, SameMarks-trans st.all_shreds s.all_shreds r.all_shreds v.1 p.1))
          keys st h (w, λ slot. refl)
