-- ===== src/Reconstruct/Recover/Won.antt =====
-- When recovery (proxy/src/deshred.rs, `reconstruct_shreds`) marks a FEC set and clears its shreds:
-- where it has recovered something, and what it has recovered is in the tracker.
use shredstream_proxy.Common.{
  ℕ, ◌<◌, ◌≡◌, ◌≢◌, refl, sym, ◌∙◌, ap, subst, ◌⊎◌, inl, inr, true, false, ◌||◌, Option, none, some,
  List, [], ◌∷◌, Ensures, ensures, Ensures-bind, Ensures-mono, for_each, All, Any, put_lem, length,
  set, get_or, get_or-set, get_or-set_ne, ltb, Bool-cases, ℕ_discrete, sort_by_key, sort_by_key-All,
  arith,
}
use shredstream_proxy.Ledger.{Ledger, Shred, shred_code, shred_data, IsSane, fec_of}
use shredstream_proxy.Tracker.{ShredsStateTracker, recovered}
use shredstream_proxy.Tracker.Invariant.{IsValid}
use shredstream_proxy.Tracker.Update.{
  is_stored, stored, stored-IsValid, stored-same_recovered, stored-filled_self,
  update_state_tracker-eq-updated,
}
use shredstream_proxy.FecInfo.{get_data_shred_info}
use shredstream_proxy.Reconstruct.{Codec, CodecLaws, IfSome, FecSetValid}
use shredstream_proxy.Reconstruct.Recover.{
  SetProgress, recover_key, set_skipped, add_recovered, close_set, recover_result, recover_set,
}
use shredstream_proxy.Reconstruct.Recover.Growth.{
  Grows, Grows-refl, Grows-trans, Has, Has-later, stored-Grows,
}
use shredstream_proxy.Reconstruct.Recover.Tried.{mark-Grows}

module _ {L : Ledger} where
  -- A recovered data shred is stored, unless its own FEC set was recovered before.
  abbrev pub InPlace : ShredsStateTracker L → Option (Shred L) → Type 0
  InPlace t none = Unit
  InPlace t (some (shred_code c)) = Unit
  InPlace t (some (shred_data d)) = Has t (shred_data d)

  -- The tracker has a use for it.
  abbrev pub IsNew : ShredsStateTracker L → Option (Shred L) → Type 0
  IsNew t none = ⊥
  IsNew t (some s) = (recovered t (fec_of s) || is_stored s t) ≡ false

  InPlace-later :
      (t t' : ShredsStateTracker L) (o : Option (Shred L)) → Grows t t' → InPlace t o → InPlace t' o
  InPlace-later t t' none g h = tt
  InPlace-later t t' (some (shred_code c)) g h = tt
  InPlace-later t t' (some (shred_data d)) g h = Has-later t t' (shred_data d) g h

  IsNew-before :
      (t t' : ShredsStateTracker L) (o : Option (Shred L)) → Grows t t' → IsNew t' o → IsNew t o
  IsNew-before t t' none g h = h
  IsNew-before t t' (some s) g h = elim (Bool-cases (recovered t (fec_of s) || is_stored s t)) [
    | inl has ↦ cc (Has-later t t' s g has, h)
    | inr new ↦ new
  ]

  -- One recovered shred.
  record Gains (o : Option (Shred L)) (p q : SetProgress L) : Type 0 where
    valid : IsValid q.tracker
    grows : Grows p.tracker q.tracker
    same_flags : q.tracker.already_recovered_fec_sets ≡ p.tracker.already_recovered_fec_sets
    in_place : InPlace q.tracker o
    counted : (q.fec_set_recovered_count ≡ p.fec_set_recovered_count) ⊎ IsNew p.tracker o

  Has-InPlace : (t : ShredsStateTracker L) (s : Shred L) → Has t s → InPlace t (some s)
  Has-InPlace t (shred_code c) h = tt
  Has-InPlace t (shred_data d) h = h

  pub stored-InPlace :
      (s : Shred L) (t : ShredsStateTracker L)
      → IsValid t
      → IsSane s
      → InPlace (stored s t) (some s)
  stored-InPlace (shred_code c) t v h = tt
  stored-InPlace (shred_data d) t v h = ground (arith, stored-filled_self d t v h)

  add_recovered-Gains :
      (o : Option (Shred L)) (p : SetProgress L)
      → IfSome IsSane o
      → IsValid p.tracker
      → Ensures (Gains o p) (add_recovered o p)
  unfolding add_recovered
  add_recovered-Gains none p h v = ensures (record {
    valid = v;
    grows = Grows-refl p.tracker;
    same_flags = refl;
    in_place = tt;
    counted = inl refl;
  })
  add_recovered-Gains (some s) p h v =
      rw (update_state_tracker-eq-updated s p.tracker v h)
        (elim (Bool-cases (recovered p.tracker (fec_of s) || is_stored s p.tracker)) [
          | inl e ↦ rw e (
              ensures (record {
                valid = v;
                grows = Grows-refl p.tracker;
                same_flags = refl;
                in_place = Has-InPlace p.tracker s e;
                counted = inl refl;
              }))
          | inr e ↦ rw e (
              ensures (record {
                valid = stored-IsValid s p.tracker v h;
                grows = stored-Grows s p.tracker;
                same_flags = stored-same_recovered s p.tracker;
                in_place = stored-InPlace s p.tracker v h;
                counted = inr e;
              }))
        ])

  -- The recovered shreds of a set, one after the other; `t` is the tracker before them.
  record GainsAll (t : ShredsStateTracker L) (found : List (Option (Shred L))) (p q : SetProgress L)
      : Type 0 where
    valid : IsValid q.tracker
    grows : Grows p.tracker q.tracker
    same_flags : q.tracker.already_recovered_fec_sets ≡ p.tracker.already_recovered_fec_sets
    in_place : All (InPlace q.tracker) found
    counted : (q.fec_set_recovered_count ≡ p.fec_set_recovered_count) ⊎ Any (IsNew t) found

  for_each-GainsAll :
      (t : ShredsStateTracker L) (found : List (Option (Shred L))) (p : SetProgress L)
      → Grows t p.tracker
      → All (IfSome IsSane) found
      → IsValid p.tracker
      → Ensures (GainsAll t found p) (for_each add_recovered found p)
  unfolding for_each
  for_each-GainsAll t [] p g h v = ensures (record {
    valid = v;
    grows = Grows-refl p.tracker;
    same_flags = refl;
    in_place = tt;
    counted = inl refl;
  })
  for_each-GainsAll t (o ∷ found) p g h v = Ensures-bind _ (add_recovered-Gains o p h.0 v) λ u a.
      Ensures-mono
        (for_each-GainsAll t found u (Grows-trans t p.tracker u.tracker g a.grows) h.1 a.valid)
        λ q b. record {
          valid = b.valid;
          grows = Grows-trans p.tracker u.tracker q.tracker a.grows b.grows;
          same_flags = b.same_flags ∙ a.same_flags;
          in_place = (InPlace-later u.tracker q.tracker o b.grows a.in_place, b.in_place);
          counted = elim b.counted [
            | inl same ↦ elim a.counted [
              | inl same' ↦ inl (same ∙ same')
              | inr new ↦ inr (inl (IsNew-before t p.tracker o g new))
            ]
            | inr new ↦ inr (inr new)
          ];
        }

  module _ (C : Codec L) where
    -- A FEC set of the shreds `xs` was recovered between two trackers: it was not to be skipped, of
    -- what the recovery gave some shred was new, all data shreds of it were in place before the set
    -- was marked, and the set is marked.
    pub record Won (xs : List (Shred L)) (fec : ℕ) (t t' : ShredsStateTracker L) : Type 0 where
      pub before : ShredsStateTracker L
      pub after : ShredsStateTracker L
      pub grows_before : Grows t before
      pub grows_between : Grows before after
      pub grows_after : Grows after t'
      pub found : List (Option (Shred L))
      pub was_tried : set_skipped (get_data_shred_info xs) (length xs) ≡ false
      pub recovers : C.recover (sort_by_key recover_key xs) ≡ some found
      pub some_new : Any (IsNew before) found
      pub same_flags : after.already_recovered_fec_sets ≡ before.already_recovered_fec_sets
      pub all_in_place : All (InPlace after) found
      pub marked : recovered t' fec ≡ true

    pub Won-widen :
        {xs : List (Shred L)} {fec : ℕ} (s t t' s' : ShredsStateTracker L)
        → Grows s t
        → Grows t' s'
        → Won xs fec t t'
        → Won xs fec s s'
    Won-widen {fec = fec} s t t' s' g h w = record {
      before = w.before;
      after = w.after;
      grows_before = Grows-trans s t w.before g w.grows_before;
      grows_between = w.grows_between;
      grows_after = Grows-trans w.after t' s' w.grows_after h;
      found = w.found;
      was_tried = w.was_tried;
      recovers = w.recovers;
      some_new = w.some_new;
      same_flags = w.same_flags;
      all_in_place = w.all_in_place;
      marked = h.recovered_stay fec w.marked;
    }

    -- One set's turn: nothing becomes of the set and its flag, or the set was recovered.
    pub record Turn (fec : ℕ) (xs : List (Shred L)) (t : ShredsStateTracker L)
        (xs' : List (Shred L)) (t' : ShredsStateTracker L) : Type 0 where
      pub grows : Grows t t'
      pub kept_or_won : (xs' ≡ xs) ⊎ ((xs' ≡ []) × Won xs fec t t')
      pub flags :
          (k : ℕ) → recovered t' k ≡ true → (recovered t k ≡ true) ⊎ ((k ≡ fec) × Won xs fec t t')

    Turn-kept :
        (fec : ℕ) (xs : List (Shred L)) (t t' : ShredsStateTracker L)
        → Grows t t'
        → t'.already_recovered_fec_sets ≡ t.already_recovered_fec_sets
        → Turn fec xs t xs t'
    Turn-kept fec xs t t' g same = record {
      grows = g;
      kept_or_won = inl refl;
      flags = λ k h. inl (subst (λ v. get_or v k false ≡ true) same h);
    }

    Turn-won :
        (fec : ℕ) (xs : List (Shred L)) (t t' : ShredsStateTracker L)
        → Won xs fec t t'
        → ((k : ℕ) → fec ≢ k → recovered t' k ≡ recovered t k)
        → Turn fec xs t [] t'
    Turn-won fec xs t t' w others = record {
      grows =
          Grows-trans t w.before t' w.grows_before
            (Grows-trans w.before w.after t' w.grows_between w.grows_after);
      kept_or_won = inr (refl, w);
      flags = λ k h. elim (ℕ_discrete fec k) [
        | yes e ↦ inr (sym e, w)
        | no n ↦ inl (sym (others k n) ∙ h)
      ];
    }

    close_set-Turn :
        (fec : ℕ) (xs : List (Shred L)) (t : ShredsStateTracker L) (found : List (Option (Shred L)))
        (q : SetProgress L)
        → fec < L.max_data_shreds_per_slot
        → set_skipped (get_data_shred_info xs) (length xs) ≡ false
        → C.recover (sort_by_key recover_key xs) ≡ some found
        → GainsAll t found (record { tracker = t; fec_set_recovered_count = 0 }) q
        → Ensures (λ r. Turn fec xs t r.0 r.1) (close_set fec xs q)
    unfolding close_set
    close_set-Turn fec xs t found q h tried e g =
        let flags = q.tracker.already_recovered_fec_sets in
        let lt : fec < length flags = omega (arith, h, g.valid.recovered_length) in
        elim (Bool-cases (ltb 0 q.fec_set_recovered_count)) [
          | inr nothing ↦ rw nothing (ensures (Turn-kept fec xs t q.tracker g.grows g.same_flags))
          | inl more ↦
              rw (more, put_lem flags fec true lt)
                (elim g.counted [
                  | inl same ↦ absurd (ground (arith, more, same))
                  | inr new ↦ ensures (
                      Turn-won fec xs t
                        (record q.tracker { already_recovered_fec_sets = set flags fec true })
                        (record {
                          before = t;
                          after = q.tracker;
                          grows_before = Grows-refl t;
                          grows_between = g.grows;
                          grows_after = mark-Grows C q.tracker fec;
                          found = found;
                          was_tried = tried;
                          recovers = e;
                          some_new = new;
                          same_flags = g.same_flags;
                          all_in_place = g.in_place;
                          marked = ground (arith, get_or-set flags fec fec true false lt);
                        })
                        λ k n.
                          get_or-set_ne flags fec k true false n
                          ∙ ap (λ v. get_or v k false) g.same_flags)
                ])
        ]

    module _ (laws : CodecLaws C) where
      recover_result-Turn :
          (fec : ℕ) (xs : List (Shred L)) (t : ShredsStateTracker L)
          (o : Option (List (Option (Shred L))))
          → C.recover (sort_by_key recover_key xs) ≡ o
          → set_skipped (get_data_shred_info xs) (length xs) ≡ false
          → FecSetValid fec xs
          → IsValid t
          → ((ys : List (Option (Shred L))) → o ≡ some ys → All (IfSome IsSane) ys)
          → Ensures (λ r. Turn fec xs t r.0 r.1) (recover_result fec xs t o)
      unfolding recover_result
      recover_result-Turn fec xs t none e tried h v k =
          ensures (Turn-kept fec xs t t (Grows-refl t) refl)
      recover_result-Turn fec xs t (some found) e tried h v k =
          Ensures-bind _ (for_each-GainsAll t found _ (Grows-refl t) (k found refl) v)
            λ q g. Ensures-bind _ (close_set-Turn fec xs t found q h.0 tried e g) λ r w. ensures w

      pub recover_set-Turn :
          (fec : ℕ) (xs : List (Shred L)) (t : ShredsStateTracker L)
          → FecSetValid fec xs
          → IsValid t
          → Ensures (λ r. Turn fec xs t r.0 r.1) (recover_set C fec xs t)
      unfolding recover_set
      recover_set-Turn fec xs t h v =
          elim (Bool-cases (set_skipped (get_data_shred_info xs) (length xs))) [
            | inl skip ↦ rw skip (ensures (Turn-kept fec xs t t (Grows-refl t) refl))
            | inr try ↦ rw try (
                recover_result-Turn fec xs t (C.recover (sort_by_key recover_key xs)) refl try h v
                  λ ys.
                    laws.recover-IsSane (sort_by_key recover_key xs) ys
                      (sort_by_key-All recover_key IsSane xs h.1))
          ]
