-- ===== src/Forwarder/Handle/Sources.antt =====
-- The counts by source address that the handler of a batch (proxy/src/forwarder.rs) keeps.
use shredstream_proxy.Common.{
  ℕ, suc, ◌+◌, ◌%◌, ◌^◌, ◌≡◌, refl, sym, inl, inr, Bool, true, false, not, ◌&&◌, Option, none, some,
  List, [], ◌∷◌, ◌==◌, ==_iff, Bool-cases, if◌then◌else◌, lookup, insert, lookup-insert, or_default,
  arith,
}
use shredstream_proxy.Forwarder.{Wire, Forwarder}
use shredstream_proxy.Forwarder.Handle.{tally_entry, store_stats}

-- What a missing entry counts as.
abbrev pub counts_at : ℕ → List (ℕ × (ℕ × ℕ)) → ℕ × ℕ
counts_at k table = or_default (0, 0) (lookup k table)

-- One packet more, discarded or not.
abbrev Bumped : Bool → ℕ × ℕ → ℕ × ℕ → Type 0
Bumped b c c' =
    (c'.0 % 2 ^ 64 ≡ (c.0 + (if b then 1 else 0)) % 2 ^ 64)
    × (c'.1 % 2 ^ 64 ≡ (c.1 + (if b then 0 else 1)) % 2 ^ 64)

tally_entry-Bumped :
    (b : Bool) (o : Option (ℕ × ℕ)) → Bumped b (or_default (0, 0) o) (tally_entry b o)
tally_entry-Bumped true none = (refl, refl)
tally_entry-Bumped false none = (refl, refl)
tally_entry-Bumped true (some c) = omega arith
tally_entry-Bumped false (some c) = omega arith

-- One entry written: the counts at its own address, and at another.
at_insert :
    (a k : ℕ) (b : Bool) (table : List (ℕ × (ℕ × ℕ)))
    → let c = counts_at k table in
      let c' = counts_at k (insert a (tally_entry b (lookup a table)) table) in
      (c'.0 % 2 ^ 64 ≡ (c.0 + (if a == k && b then 1 else 0)) % 2 ^ 64)
      × (c'.1 % 2 ^ 64 ≡ (c.1 + (if a == k && not b then 1 else 0)) % 2 ^ 64)
at_insert a k b table =
    rw (lookup-insert a k (tally_entry b (lookup a table)) table) (elim (Bool-cases (a == k)) [
      | inl e ↦ rw (e, sym ((==_iff a k).0 e)) (own b (tally_entry-Bumped b (lookup a table)))
      | inr e ↦ rw e (omega arith)
    ])
  where
    own :
        (d : Bool)
        → Bumped d (counts_at a table) (tally_entry d (lookup a table))
        → ((tally_entry d (lookup a table)).0 % 2 ^ 64
            ≡ ((counts_at a table).0 + (if d then 1 else 0)) % 2 ^ 64)
          × ((tally_entry d (lookup a table)).1 % 2 ^ 64
              ≡ ((counts_at a table).1 + (if not d then 1 else 0)) % 2 ^ 64)
    own true h = h
    own false h = h

-- One packet, and then the rest of the batch.
add_rest :
    (d m : Bool) (n n' : ℕ) (before after end : ℕ × ℕ)
    → (after.0 % 2 ^ 64 ≡ (before.0 + (if m && d then 1 else 0)) % 2 ^ 64)
      × (after.1 % 2 ^ 64 ≡ (before.1 + (if m && not d then 1 else 0)) % 2 ^ 64)
    → (end.0 % 2 ^ 64 ≡ (after.0 + n) % 2 ^ 64) × (end.1 % 2 ^ 64 ≡ (after.1 + n') % 2 ^ 64)
    → (end.0 % 2 ^ 64 ≡ (before.0 + (if m && d then suc n else n)) % 2 ^ 64)
      × (end.1 % 2 ^ 64 ≡ (before.1 + (if m && not d then suc n' else n')) % 2 ^ 64)
add_rest true true n n' before after end p q = omega (arith, p, q)
add_rest true false n n' before after end p q = omega (arith, p, q)
add_rest false true n n' before after end p q = omega (arith, p, q)
add_rest false false n n' before after end p q = omega (arith, p, q)

module _ (W : Wire) where
  -- The packets of a batch from one address, discarded or not as the flag says.
  abbrev pub count_from : ℕ → Bool → List W.Packet → ℕ
  count_from k b [] = 0
  count_from k b (p ∷ rest) =
      let n = count_from k b rest in
      if W.addr p == k && (if b then W.discard p else not (W.discard p)) then suc n else n

  -- Modulo 2 ^ 64, the loop adds to each source address the number of its packets that were
  -- discarded, and of those that were not.
  pub store_stats_lem :
      (k : ℕ) (batch : List W.Packet) (f : Forwarder W)
      → let c = counts_at k f.metrics.packets_received in
        let c' = counts_at k (store_stats W batch f).metrics.packets_received in
        (c'.0 % 2 ^ 64 ≡ (c.0 + count_from k true batch) % 2 ^ 64)
        × (c'.1 % 2 ^ 64 ≡ (c.1 + count_from k false batch) % 2 ^ 64)
  unfolding store_stats
  store_stats_lem k [] f = omega arith
  store_stats_lem k (p ∷ rest) f =
      add_rest (W.discard p) (W.addr p == k) (count_from k true rest) (count_from k false rest) _ _
        _ (at_insert (W.addr p) k (W.discard p) f.metrics.packets_received)
        (store_stats_lem k rest _)
