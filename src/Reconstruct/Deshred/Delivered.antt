-- ===== src/Reconstruct/Deshred/Delivered.antt =====
-- What a turn of the deshredding loop (proxy/src/deshred.rs, `reconstruct_shreds`) adds to what was
-- delivered.
use shredstream_proxy.Common.{
  ℕ, suc, ◌-◌, ◌≡◌, ◌≤◌, refl, sym, ◌∙◌, ap, subst, Bool, List, [], ◌∷◌, ◌++◌, ◌⊎◌, inl, inr, true,
  entry, insert, take, drop, All, All-insert, All-entry, All-append, All-mono,
}
use mathlib.Core.List.{append-nil, append_assoc}
use shredstream_proxy.Ledger.{Ledger}
use shredstream_proxy.Tracker.{ShredsStateTracker, deshredded}
use shredstream_proxy.Segments.Spec.{IsSegment}
use shredstream_proxy.Reconstruct.{
  Codec, Slots, SlotsValid, SlotValid, new_slot, new_slot-SlotValid,
}
use shredstream_proxy.Reconstruct.Deshred.{Decoded, Deshredded}
use shredstream_proxy.Reconstruct.Deshred.Marks.{Marks}
use shredstream_proxy.Reconstruct.Deshred.Step.{Step, idle, deliver}
use shredstream_proxy.Reconstruct.Trackers.{tracker_of, tracker_of-insert_back}
use shredstream_proxy.Reconstruct.Deshred.Carried.{
  Decodes, AllDecode, AllDecode-snoc, length-map-some,
}
use shredstream_proxy.Reconstruct.Deshred.Spans.{
  Covers, Covers-left, Covers-right, Span, Apart, AllApart, AllApart-snoc,
}
use shredstream_proxy.Reconstruct.Deshred.Fresh.{
  Marks-from, IsFresh, IsMarked, Later, IsFresh-before, Apart-of, Later-refl, Later-trans,
  Later-insert, Later-Marks, IsMarked-Marks, IsFresh-IsSegment,
}

module _ {L : Ledger} (C : Codec L) where
  -- What was delivered since `st0`: the spans, in the order of the entries that were pushed, which are
  -- decoded from the shreds that were stored of the spans, from slots not below `n`.
  pub record Delivered (n : ℕ) (st0 st : Deshredded C) : Type 0 where
    pub log : List Span
    pub new_entries : List (Decoded C)
    pub pushed : st.deshredded_entries ≡ st0.deshredded_entries ++ new_entries
    pub decoded : AllDecode C st0.all_shreds new_entries log
    pub were_fresh : All (IsFresh st0.all_shreds) log
    pub are_marked : All (IsMarked st.all_shreds) log
    pub apart : AllApart log
    pub from : All (λ x. n ≤ x.0) log
    pub later : Later st0.all_shreds st.all_shreds
    pub slots_valid : SlotsValid st.all_shreds
    -- Nothing else was marked.
    pub marks_from :
        (slot k : ℕ)
        → deshredded (tracker_of st.all_shreds slot) k ≡ true
        → (deshredded (tracker_of st0.all_shreds slot) k ≡ true) ⊎ Covers log slot k

  All-IsMarked :
      {m m' : Slots L} → Later m m' → (xs : List Span) → All (IsMarked m) xs → All (IsMarked m') xs
  All-IsMarked l xs h = All-mono _ _ xs (λ x p k a b. l.marks_stay x.0 k (p k a b)) h

  All-Apart :
      (m0 m : Slots L) (y : Span) (xs : List Span)
      → All (IsFresh m0) xs
      → All (IsMarked m) xs
      → IsFresh m y
      → All (λ x. Apart x y) xs
  All-Apart m0 m y [] h k f = tt
  All-Apart m0 m y (x ∷ xs) h k f =
      (Apart-of m x y h.0.ordered k.0 f, All-Apart m0 m y xs h.1 k.1 f)

  pushed_snoc :
      (before news : List (Decoded C)) (x : Decoded C) {es es' : List (Decoded C)}
      → es' ≡ es ++ x ∷ []
      → es ≡ before ++ news
      → es' ≡ before ++ (news ++ x ∷ [])
  pushed_snoc before news x p q = p ∙ ap (λ es. es ++ x ∷ []) q ∙ append_assoc before news (x ∷ [])

  pub Delivered-refl : (n : ℕ) (st : Deshredded C) → SlotsValid st.all_shreds → Delivered n st st
  Delivered-refl n st v = record {
    log = [];
    new_entries = [];
    pushed = sym (append-nil _);
    decoded = tt;
    were_fresh = tt;
    are_marked = tt;
    apart = tt;
    from = tt;
    later = Later-refl st.all_shreds;
    slots_valid = v;
    marks_from = λ slot k h. inl h;
  }

  pub Step-Later :
      (slot fec : ℕ) (st st' : Deshredded C)
      → Step C slot fec st st'
      → Later st.all_shreds st'.all_shreds
  Step-Later slot fec st st' (idle e f x) = rw e (
      Later-insert st.all_shreds slot (entry (new_slot L) slot st.all_shreds) refl refl (λ k h. h)
        (λ k h. h) refl)
  Step-Later slot fec st st' (deliver a b u t shreds entries bytes g p _ h c x y e f) =
      rw e (Later-Marks st.all_shreds slot a (suc b - a) t p)

  module _ (n : ℕ) (st0 st : Deshredded C) (d : Delivered n st0 st) where
    -- A turn that delivers nothing.
    Delivered-idle :
        (st' : Deshredded C) (slot : ℕ)
        → st'.all_shreds ≡ insert slot (entry (new_slot L) slot st.all_shreds) st.all_shreds
        → st'.deshredded_entries ≡ st.deshredded_entries
        → Later st.all_shreds st'.all_shreds
        → Delivered n st0 st'
    Delivered-idle st' slot e f l = record {
      marks_from = λ j k h. d.marks_from j k (
          subst (λ t. deshredded t k ≡ true) (tracker_of-insert_back st.all_shreds slot j)
            (subst (λ m. deshredded (tracker_of m j) k ≡ true) e h));
      log = d.log;
      new_entries = d.new_entries;
      pushed = f ∙ d.pushed;
      decoded = d.decoded;
      were_fresh = d.were_fresh;
      are_marked = All-IsMarked l d.log d.are_marked;
      apart = d.apart;
      from = d.from;
      later = Later-trans d.later l;
      slots_valid = rw e (
          All-insert (λ j x. SlotValid x) slot _ st.all_shreds
            (All-entry (λ j x. SlotValid x) (new_slot L) slot st.all_shreds (new_slot-SlotValid L)
              d.slots_valid)
            d.slots_valid);
    }

    -- A turn that delivers the span `(slot, a, b)`.
    Delivered-span :
        (st' : Deshredded C) (slot fec a b : ℕ) (u : Bool) (t : ShredsStateTracker L)
        (entries : List C.Entry) (bytes : List ℕ)
        → n ≤ slot
        → IsSegment (tracker_of st.all_shreds slot) fec a b u
        → Marks a (suc b - a) (tracker_of st.all_shreds slot) t
        → st'.all_shreds
          ≡ insert slot
              (record (entry (new_slot L) slot st.all_shreds) { tracker = t })
              st.all_shreds
        → st'.deshredded_entries ≡ st.deshredded_entries ++ (slot, entries, bytes) ∷ []
        → Decodes C st0.all_shreds (slot, entries, bytes) (slot, a, b)
        → Later st.all_shreds st'.all_shreds
        → Delivered n st0 st'
    Delivered-span st' slot fec a b u t entries bytes le g p e f c l =
        let new = IsFresh-IsSegment st.all_shreds slot fec a b u g in
        let v : SlotValid (entry (new_slot L) slot st.all_shreds) =
          All-entry (λ j x. SlotValid x) (new_slot L) slot st.all_shreds (new_slot-SlotValid L)
            d.slots_valid in
        record {
          marks_from = λ j k h.
              elim (Marks-from st.all_shreds slot a b t j k p
                (subst (λ m. deshredded (tracker_of m j) k ≡ true) e h)) [
                  | inl old ↦ elim (d.marks_from j k old) [
                    | inl older ↦ inl older
                    | inr held ↦ inr (Covers-left d.log _ j k held)
                  ]
                  | inr new ↦ inr (Covers-right d.log _ j k new)
                ];
          log = d.log ++ (slot, a, b) ∷ [];
          new_entries = d.new_entries ++ (slot, entries, bytes) ∷ [];
          pushed =
              pushed_snoc st0.deshredded_entries d.new_entries (slot, entries, bytes) f d.pushed;
          decoded =
              AllDecode-snoc C st0.all_shreds d.new_entries d.log (slot, entries, bytes)
                (slot, a, b) d.decoded c;
          were_fresh = All-append _ d.log _ d.were_fresh (IsFresh-before d.later new, tt);
          are_marked =
              All-append _ d.log _ (All-IsMarked l d.log d.are_marked)
                (rw e (IsMarked-Marks st.all_shreds slot a b t new.ordered p), tt);
          apart =
              AllApart-snoc d.log (slot, a, b) d.apart
                (All-Apart st0.all_shreds st.all_shreds (slot, a, b) d.log d.were_fresh d.are_marked
                  new);
          from = All-append _ d.log _ d.from (le, tt);
          later = Later-trans d.later l;
          slots_valid = rw e (
              All-insert (λ j x. SlotValid x) slot _ st.all_shreds
                (record { fec_sets_valid = v.fec_sets_valid; tracker_valid = p.valid })
                d.slots_valid);
        }

  pub Step-Delivered :
      (n : ℕ) (st0 st st' : Deshredded C) (slot fec : ℕ)
      → n ≤ slot
      → Delivered n st0 st
      → Step C slot fec st st'
      → Delivered n st0 st'
  Step-Delivered n st0 st st' slot fec le d (idle e f x) =
      Delivered-idle n st0 st d st' slot e f (Step-Later slot fec st st' (idle e f x))
  Step-Delivered n st0 st st' slot fec le d
        (deliver a b u t shreds entries bytes g p q h c x y e f) =
      Delivered-span n st0 st d st' slot fec a b u t entries bytes le g p e f
        (record {
          same_slot = refl;
          shreds = shreds;
          stored = q ∙ ap (λ v. take (suc b - a) (drop a v)) (d.later.same_shreds slot);
          count = sym (length-map-some shreds) ∙ c;
          in_place = h;
          deshreds = x;
          parses = y;
        })
        (Step-Later slot fec st st' (deliver a b u t shreds entries bytes g p q h c x y e f))
