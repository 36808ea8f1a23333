-- ===== src/Reconstruct/Deshred/Carried.antt =====
-- Which shreds the bytes of a delivered segment (proxy/src/deshred.rs, `reconstruct_shreds`) come
-- from.
use shredstream_proxy.Common.{
  ℕ, suc, ◌-◌, ◌≡◌, refl, ap, some, List, [], ◌∷◌, ◌++◌, map, length, take, drop, All,
}
use shredstream_proxy.Ledger.{Ledger, Shred, payload}
use shredstream_proxy.Reconstruct.{Codec, Slots}
use shredstream_proxy.Reconstruct.Trackers.{tracker_of}
use shredstream_proxy.Reconstruct.Held.{Held, slice-Held}
use shredstream_proxy.Reconstruct.Deshred.{Decoded}
use shredstream_proxy.Reconstruct.Deshred.Marks.{HoldsFrom}
use shredstream_proxy.Reconstruct.Deshred.Spans.{Span}

pub length-map-some : {A : Type 0} (xs : List A) → length (map some xs) ≡ length xs
length-map-some [] = refl
length-map-some (x ∷ xs) = ap suc (length-map-some xs)

module _ {L : Ledger} (C : Codec L) where
  -- The entries of a delivered segment and their bytes: deshredded from the payloads of exactly the
  -- data shreds that the slots hold of the span, and deserialised.
  pub record Decodes (m : Slots L) (d : Decoded C) (x : Span) : Type 0 where
    pub same_slot : d.0 ≡ x.0
    pub shreds : List (Shred L)
    pub stored : map some shreds ≡ take (suc x.2 - x.1) (drop x.1 (tracker_of m x.0).data_shreds)
    pub count : length shreds ≡ suc x.2 - x.1
    pub in_place : HoldsFrom x.1 (map some shreds)
    pub deshreds : C.deshred (map payload shreds) ≡ some d.2
    pub parses : C.deserialize d.2 ≡ some d.1

  abbrev pub AllDecode : Slots L → List (Decoded C) → List Span → Type 0
  AllDecode m [] [] = Unit
  AllDecode m [] (x ∷ xs) = ⊥
  AllDecode m (d ∷ ds) [] = ⊥
  AllDecode m (d ∷ ds) (x ∷ xs) = Decodes m d x × AllDecode m ds xs

  pub AllDecode-snoc :
      (m : Slots L) (ds : List (Decoded C)) (xs : List Span) (d : Decoded C) (x : Span)
      → AllDecode m ds xs
      → Decodes m d x
      → AllDecode m (ds ++ d ∷ []) (xs ++ x ∷ [])
  AllDecode-snoc m [] [] d x h k = (k, tt)
  AllDecode-snoc m [] (y ∷ ys) d x h k = absurd h
  AllDecode-snoc m (c ∷ cs) [] d x h k = absurd h
  AllDecode-snoc m (c ∷ cs) (y ∷ ys) d x h k = (h.0, AllDecode-snoc m cs ys d x h.1 k)

  -- The slot and the bytes of each entry, as they are broadcast.
  abbrev pub sent_of : List (Decoded C) → List (ℕ × List ℕ)
  sent_of es = map (λ (d : Decoded C). (d.0, d.2)) es

  module _ (Q : Shred L → Type 0) where
    -- What is broadcast: the bytes are deshredded from the payloads of data shreds with the indices
    -- of the span, one for each and in order, all with the property Q, and they deserialise.
    pub record Carries (b : ℕ × List ℕ) (x : Span) : Type 0 where
      pub same_slot : b.0 ≡ x.0
      pub shreds : List (Shred L)
      pub common : All Q shreds
      pub count : length shreds ≡ suc x.2 - x.1
      pub in_place : HoldsFrom x.1 (map some shreds)
      pub deshreds : C.deshred (map payload shreds) ≡ some b.1
      pub entries : List C.Entry
      pub parses : C.deserialize b.1 ≡ some entries

    abbrev pub AllCarry : List (ℕ × List ℕ) → List Span → Type 0
    AllCarry [] [] = Unit
    AllCarry [] (x ∷ xs) = ⊥
    AllCarry (b ∷ bs) [] = ⊥
    AllCarry (b ∷ bs) (x ∷ xs) = Carries b x × AllCarry bs xs

    pub AllCarry-append :
        (bs cs : List (ℕ × List ℕ)) (xs ys : List Span)
        → AllCarry bs xs
        → AllCarry cs ys
        → AllCarry (bs ++ cs) (xs ++ ys)
    AllCarry-append [] cs [] ys h k = k
    AllCarry-append [] cs (x ∷ xs) ys h k = absurd h
    AllCarry-append (b ∷ bs) cs [] ys h k = absurd h
    AllCarry-append (b ∷ bs) cs (x ∷ xs) ys h k = (h.0, AllCarry-append bs cs xs ys h.1 k)

    pub AllCarry-decoded :
        (m : Slots L) (ds : List (Decoded C)) (xs : List Span)
        → Held Q m
        → AllDecode m ds xs
        → AllCarry (sent_of ds) xs
    AllCarry-decoded m [] [] held h = tt
    AllCarry-decoded m [] (x ∷ xs) held h = absurd h
    AllCarry-decoded m (d ∷ ds) [] held h = absurd h
    AllCarry-decoded m (d ∷ ds) (x ∷ xs) held h = (
      record {
        same_slot = h.0.same_slot;
        shreds = h.0.shreds;
        common =
            slice-Held Q (tracker_of m x.0).data_shreds (suc x.2 - x.1) x.1 h.0.shreds h.0.stored
              (held x.0).places;
        count = h.0.count;
        in_place = h.0.in_place;
        deshreds = h.0.deshreds;
        entries = d.1;
        parses = h.0.parses;
      },
      AllCarry-decoded m ds xs held h.1,
    )
