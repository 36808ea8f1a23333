-- ===== src/Reconstruct/Ingest/Accounted.antt =====
-- Ingestion of a batch (proxy/src/deshred.rs, `reconstruct_shreds`) leaves no shred unaccounted for.
use shredstream_proxy.Common.{
  ℕ, below_or, ◌<◌, ◌≤◌, ◌-◌, ◌≡◌, refl, ◌∙◌, ap, sym, subst, ◌⊎◌, inl, inr, true, ◌||◌, Option,
  none, some, List, ℕ_discrete, Key, contains, entry, insert, Any, arith,
}
use shredstream_proxy.Ledger.{Ledger, Shred, shred_code, shred_data, slot_of, index_of, fec_of}
use shredstream_proxy.Tracker.{is_some, shred_at, recovered, deshredded}
use shredstream_proxy.Tracker.Update.{is_stored}
use shredstream_proxy.Reconstruct.{Codec, SlotState, Slots, new_slot, slot_lookback}
use shredstream_proxy.Reconstruct.Trackers.{
  tracker_of, tracker_of-insert_self, tracker_of-insert_ne,
}
use shredstream_proxy.Reconstruct.Ingest.{Ingested}

module _ {L : Ledger} (C : Codec L) where
  -- The shred that a packet holds.
  abbrev pub parsed_bytes : Option (List ℕ) → Option (Shred L)
  parsed_bytes none = none
  parsed_bytes (some b) = C.parse b

  abbrev pub parsed : C.Packet → Option (Shred L)
  parsed p = parsed_bytes (C.bytes p)

  -- A shred of the batch whose FEC set is queued, for this place.
  pub record FilledBy (batch : List C.Packet) (queue : List Key) (slot k : ℕ) : Type 0 where
    pub shred : Shred L
    pub received : Any (λ p. parsed p ≡ some shred) batch
    pub same_slot : slot_of shred ≡ slot
    pub same_index : index_of shred ≡ k
    pub queued : contains (slot, fec_of shred) queue ≡ true

  -- The place of a slot is filled.
  abbrev pub IsFilled : Slots L → ℕ → ℕ → Type 0
  IsFilled m slot k = is_some (shred_at (tracker_of m slot) k) ≡ true

  -- The place of a data shred is filled.
  abbrev pub HasPlace : Slots L → Shred L → Type 0
  HasPlace m (shred_code c) = Unit
  HasPlace m (shred_data d) = IsFilled m (L.slot d.common_header) (L.index d.common_header)

  pub HasPlace-later :
      (m m' : Slots L) (s : Shred L)
      → (IsFilled m (slot_of s) (index_of s) → IsFilled m' (slot_of s) (index_of s))
      → HasPlace m s
      → HasPlace m' s
  HasPlace-later m m' (shred_code c) h p = tt
  HasPlace-later m m' (shred_data d) h p = h p

  -- One slot is written back with no place emptied.
  pub IsFilled-insert :
      (m : Slots L) (slot : ℕ) (s : SlotState L)
      → ((k : ℕ) → IsFilled m slot k → is_some (shred_at s.tracker k) ≡ true)
      → (j k : ℕ) → IsFilled m j k
      → IsFilled (insert slot s m) j k
  IsFilled-insert m slot s h j k f = elim (ℕ_discrete slot j) [
    | yes e ↦
        subst (λ i. IsFilled (insert slot s m) i k) e
          (subst (λ t. is_some (shred_at t k) ≡ true) (sym (tracker_of-insert_self m slot s))
            (h k (subst (λ i. IsFilled m i k) (sym e) f)))
    | no n ↦ subst (λ t. is_some (shred_at t k) ≡ true) (sym (tracker_of-insert_ne m slot j s n)) f
  ]

  module _ (batch : List C.Packet) (m : Slots L) where
    -- What becomes of a shred that is received when the slots are `m`.
    pub data Accounted (now : Slots L) (highest : ℕ) (queue : List Key) (s : Shred L) : Type 0 where
      too_old : slot_of s < highest - slot_lookback → Accounted now highest queue s
      completed :
          (recovered (tracker_of m (slot_of s)) (fec_of s)
              || deshredded (tracker_of m (slot_of s)) (index_of s))
            ≡ true
          → Accounted now highest queue s
      stored_before : is_stored s (tracker_of m (slot_of s)) ≡ true → Accounted now highest queue s
      in_place :
          FilledBy batch queue (slot_of s) (index_of s)
          → HasPlace now s
          → Accounted now highest queue s

    -- Where the loop is: the flags of recovered sets are as they were, and each place that was filled
    -- since is filled by a shred of the batch.
    pub record Fills (st : Ingested L) : Type 0 where
      pub same_recovered :
          (slot : ℕ)
          → (tracker_of st.all_shreds slot).already_recovered_fec_sets
            ≡ (tracker_of m slot).already_recovered_fec_sets
      pub filled :
          (slot k : ℕ)
          → is_some (shred_at (tracker_of st.all_shreds slot) k) ≡ true
          → (is_some (shred_at (tracker_of m slot) k) ≡ true)
            ⊎ FilledBy batch st.slot_fec_indexes_to_iterate slot k

    -- A later state of the loop.
    pub record Grows (st st' : Ingested L) : Type 0 where
      pub highest_le : st.highest_slot_seen ≤ st'.highest_slot_seen
      pub queue_grows :
          (k : Key)
          → contains k st.slot_fec_indexes_to_iterate ≡ true
          → contains k st'.slot_fec_indexes_to_iterate ≡ true
      pub filled_stay :
          (slot k : ℕ) → IsFilled st.all_shreds slot k → IsFilled st'.all_shreds slot k

    FilledBy-later :
        {queue queue' : List Key} {slot k : ℕ}
        → ((j : Key) → contains j queue ≡ true → contains j queue' ≡ true)
        → FilledBy batch queue slot k
        → FilledBy batch queue' slot k
    FilledBy-later {slot} g f = record {
      shred = f.shred;
      received = f.received;
      same_slot = f.same_slot;
      same_index = f.same_index;
      queued = g (slot, fec_of f.shred) f.queued;
    }

    pub Accounted-later :
        (s : Shred L) (now now' : Slots L) (highest highest' : ℕ) (queue queue' : List Key)
        → ((slot k : ℕ) → IsFilled now slot k → IsFilled now' slot k)
        → highest ≤ highest'
        → ((j : Key) → contains j queue ≡ true → contains j queue' ≡ true)
        → Accounted now highest queue s
        → Accounted now' highest' queue' s
    Accounted-later s now now' highest highest' queue queue' f le g (too_old h) =
        too_old (omega (arith, h, le))
    Accounted-later s now now' highest highest' queue queue' f le g (completed h) = completed h
    Accounted-later s now now' highest highest' queue queue' f le g (stored_before h) =
        stored_before h
    Accounted-later s now now' highest highest' queue queue' f le g (in_place by p) =
        in_place (FilledBy-later g by) (HasPlace-later now now' s (f (slot_of s) (index_of s)) p)

    -- Only slots that are too old may lose what fills their places.
    pub Accounted-recent :
        (s : Shred L) (now now' : Slots L) (highest : ℕ) (queue : List Key)
        → ((slot k : ℕ)
            → highest - slot_lookback ≤ slot
            → IsFilled now slot k
            → IsFilled now' slot k)
        → Accounted now highest queue s
        → Accounted now' highest queue s
    Accounted-recent s now now' highest queue f (too_old h) = too_old h
    Accounted-recent s now now' highest queue f (completed h) = completed h
    Accounted-recent s now now' highest queue f (stored_before h) = stored_before h
    Accounted-recent s now now' highest queue f (in_place by p) =
        elim (below_or (slot_of s) (highest - slot_lookback)) [
          | inl old ↦ too_old old
          | inr recent ↦
              in_place by (HasPlace-later now now' s (f (slot_of s) (index_of s) recent) p)
        ]

    -- One slot is written back.
    pub Fills-insert :
        (st : Ingested L) (slot highest : ℕ) (s : SlotState L) (queue : List Key)
        → Fills st
        → s.tracker.already_recovered_fec_sets
          ≡ (tracker_of st.all_shreds slot).already_recovered_fec_sets
        → ((j : Key) → contains j st.slot_fec_indexes_to_iterate ≡ true → contains j queue ≡ true)
        → ((k : ℕ)
            → is_some (shred_at s.tracker k) ≡ true
            → (is_some (shred_at (tracker_of st.all_shreds slot) k) ≡ true)
              ⊎ FilledBy batch queue slot k)
        → Fills (record {
          all_shreds = insert slot s st.all_shreds;
          slot_fec_indexes_to_iterate = queue;
          highest_slot_seen = highest;
        })
    Fills-insert st slot highest s queue f same g new = record {
      same_recovered = λ j. elim (ℕ_discrete slot j) [
        | yes e ↦
            subst
              (λ i.
                (tracker_of (insert slot s st.all_shreds) i).already_recovered_fec_sets
                ≡ (tracker_of m i).already_recovered_fec_sets)
              e
              (ap (λ t. t.already_recovered_fec_sets) (tracker_of-insert_self st.all_shreds slot s)
                ∙ same
                ∙ f.same_recovered slot)
        | no n ↦
            ap (λ t. t.already_recovered_fec_sets) (tracker_of-insert_ne st.all_shreds slot j s n)
            ∙ f.same_recovered j
      ];
      filled = λ j k. elim (ℕ_discrete slot j) [
        | yes e ↦
            subst
              (λ i.
                is_some (shred_at (tracker_of (insert slot s st.all_shreds) i) k) ≡ true
                → (is_some (shred_at (tracker_of m i) k) ≡ true) ⊎ FilledBy batch queue i k)
              e
              (λ h. here k (
                subst (λ t. is_some (shred_at t k) ≡ true)
                  (tracker_of-insert_self st.all_shreds slot s) h))
        | no n ↦ λ h. older j k (
            subst (λ t. is_some (shred_at t k) ≡ true)
              (tracker_of-insert_ne st.all_shreds slot j s n) h)
      ];
    }
      where
        older :
            (j k : ℕ)
            → is_some (shred_at (tracker_of st.all_shreds j) k) ≡ true
            → (is_some (shred_at (tracker_of m j) k) ≡ true) ⊎ FilledBy batch queue j k
        older j k h = elim (f.filled j k h) [
          | inl old ↦ inl old
          | inr by ↦ inr (FilledBy-later g by)
        ]

        here :
            (k : ℕ)
            → is_some (shred_at s.tracker k) ≡ true
            → (is_some (shred_at (tracker_of m slot) k) ≡ true) ⊎ FilledBy batch queue slot k
        here k h = elim (new k h) [ inl old ↦ older slot k old | inr by ↦ inr by ]

    -- The slot is written back as it was.
    pub Fills-kept :
        (st : Ingested L) (slot : ℕ)
        → Fills st
        → Fills (record st {
          all_shreds = insert slot (entry (new_slot L) slot st.all_shreds) st.all_shreds;
        })
    Fills-kept st slot f =
        Fills-insert st slot st.highest_slot_seen (entry (new_slot L) slot st.all_shreds)
          st.slot_fec_indexes_to_iterate f refl (λ j h. h) (λ k h. inl h)

    pub Grows-refl : (st : Ingested L) → Grows st st
    Grows-refl st = record {
      highest_le = omega arith;
      queue_grows = λ k h. h;
      filled_stay = λ slot k h. h;
    }

    -- Only a slot is written back as it was.
    pub Grows-kept :
        (st : Ingested L) (slot : ℕ)
        → Grows st (record st {
          all_shreds = insert slot (entry (new_slot L) slot st.all_shreds) st.all_shreds;
        })
    Grows-kept st slot = record {
      highest_le = omega arith;
      queue_grows = λ k h. h;
      filled_stay = IsFilled-insert st.all_shreds slot _ (λ k h. h);
    }
