-- ===== src/Reconstruct/Whole/Dropped.antt =====
-- A slot that the clean-up (proxy/src/deshred.rs, `reconstruct_shreds`) drops: a new one stands for
-- it, with no mark and no segment.
use shredstream_proxy.Common.{
  ℕ, Key, [], get_or, ◌≡◌, sym, ap, subst, ◌⊎◌, inl, inr, Bool, true, false, none, lookup, entry,
  or_default, if◌then◌else◌,
}
use shredstream_proxy.Ledger.{Ledger}
use shredstream_proxy.Tracker.{default, is_some, deshredded}
use shredstream_proxy.Tracker.Invariant.{default-unmarked, default-unknown}
use shredstream_proxy.Reconstruct.{Codec, Slots, new_slot}
use shredstream_proxy.Reconstruct.Trackers.{tracker_of}
use shredstream_proxy.Reconstruct.Deshred.Exhausted.{Exhausted}
use shredstream_proxy.Reconstruct.Deshred.Fresh.{Later}
use shredstream_proxy.Reconstruct.Recover.Tried.{Tried, Tried-nil}
use shredstream_proxy.Reconstruct.Recover.Complete.{Onward, SetDone}

module _ {L : Ledger} where
  -- Each slot stays as it is, or is new again.
  abbrev pub KeptOrNew : Slots L → Slots L → Type 0
  KeptOrNew m m' =
      (slot : ℕ)
      → (entry (new_slot L) slot m' ≡ entry (new_slot L) slot m)
        ⊎ (entry (new_slot L) slot m' ≡ new_slot L)

  entry-lookup :
      (m m' : Slots L) (slot : ℕ) (gone : Bool)
      → lookup slot m' ≡ (if gone then none else lookup slot m)
      → (entry (new_slot L) slot m' ≡ entry (new_slot L) slot m)
        ⊎ (entry (new_slot L) slot m' ≡ new_slot L)
  unfolding entry
  entry-lookup m m' slot true h = inr (ap (or_default (new_slot L)) h)
  entry-lookup m m' slot false h = inl (ap (or_default (new_slot L)) h)

  pub KeptOrNew-of :
      (m m' : Slots L) (gone : ℕ → Bool)
      → ((slot : ℕ) → lookup slot m' ≡ (if gone slot then none else lookup slot m))
      → KeptOrNew m m'
  KeptOrNew-of m m' gone h slot = entry-lookup m m' slot (gone slot) (h slot)

  -- A mark after the clean-up was there before it.
  pub marked_before :
      (m m' : Slots L)
      → KeptOrNew m m'
      → (slot k : ℕ) → deshredded (tracker_of m' slot) k ≡ true
      → deshredded (tracker_of m slot) k ≡ true
  unfolding new_slot
  marked_before m m' c slot k h = elim (c slot) [
    | inl same ↦ subst (λ x. deshredded x.tracker k ≡ true) same h
    | inr new ↦ cc (subst (λ x. deshredded x.tracker k ≡ true) new h, default-unmarked L k)
  ]

  module _ (C : Codec L) where
    default-Exhausted : (index : ℕ) → Exhausted C (default L) index
    default-Exhausted index a b u g = cc (g.last, default-unknown L b)

    pub Exhausted-after :
        (m m' : Slots L) (slot index : ℕ)
        → KeptOrNew m m'
        → Exhausted C (tracker_of m slot) index
        → Exhausted C (tracker_of m' slot) index
    unfolding new_slot
    Exhausted-after m m' slot index c h = elim (c slot) [
      | inl same ↦ subst (λ x. Exhausted C x.tracker index) (sym same) h
      | inr new ↦ subst (λ x. Exhausted C x.tracker index) (sym new) (default-Exhausted index)
    ]

    -- The same for the recovery of a set.
    pub SetDone-after : (k : Key) (m m' : Slots L) → KeptOrNew m m' → SetDone C k m → SetDone C k m'
    unfolding new_slot entry lookup
    SetDone-after k m m' c d = elim (c k.0) [
      | inl same ↦ subst (λ x. Tried C k.1 (entry [] k.1 x.fec_sets) x.tracker) (sym same) d
      | inr new ↦
          subst (λ x. Tried C k.1 (entry [] k.1 x.fec_sets) x.tracker) (sym new)
            (Tried-nil C k.1 (default L))
    ]

  -- The deshredding loop leaves the sets of shreds as they are.
  pub Onward-Later : (m m' : Slots L) → Later m m' → Onward m m'
  Onward-Later m m' l = record {
    grows = λ slot. record {
      recovered_stay = l.recovered_stay slot;
      filled_stay =
          λ k h. subst (λ v. is_some (get_or v k none) ≡ true) (sym (l.same_shreds slot)) h;
    };
    sets_stay = λ slot fec. inl (ap (entry [] fec) (l.same_sets slot));
  }
