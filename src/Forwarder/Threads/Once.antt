-- ===== src/Forwarder/Threads/Once.antt =====
-- What the reconstructor thread (proxy/src/forwarder.rs) broadcasts over its whole life.
use shredstream_proxy.Common.{
  ℕ, ◌-◌, ◌≤◌, ◌<◌, ◌⊎◌, inl, inr, below_or, false, List, [], ◌∷◌, ◌++◌, Ensures, ensures,
  Ensures-bind, All, All-append, All-mono, ◌≡◌, true, entry, lookup, arith,
}
use shredstream_proxy.Reconstruct.Deshred.Carried.{
  AllCarry, AllCarry-append, AllCarry-decoded, sent_of,
}
use shredstream_proxy.Tracker.{deshredded}
use shredstream_proxy.Tracker.Invariant.{default-unmarked}
use shredstream_proxy.Reconstruct.Trackers.{tracker_of}
use shredstream_proxy.Ledger.{Ledger, Shred}
use shredstream_proxy.Reconstruct.Held.{IsClosed, Brings, Held, Held-nil}
use shredstream_proxy.Metrics.{ShredMetrics}
use shredstream_proxy.Reconstruct.{Codec, CodecLaws, Slots, SlotsValid, new_slot, slot_lookback}
use shredstream_proxy.Reconstruct.Deshred.Spans.{
  Span, Apart, AllApart, AllApart-append, Covers, Covers-left, Covers-right,
}
use shredstream_proxy.Reconstruct.Deshred.Fresh.{IsMarked, Apart-of_unmarked, IsUnmarked}
use shredstream_proxy.Reconstruct.Whole.{Reconstructed}
use shredstream_proxy.Reconstruct.Whole.Promise.{MarksStay, Promised}
use shredstream_proxy.Reconstruct.Whole.Total.{reconstruct_shreds-Promised}
use shredstream_proxy.Forwarder.Threads.{
  Reconstructor, ReconstructEvent, batch_received, timeout, disconnected, start, drain,
  reconstructor_step,
}

module _ {L : Ledger} where
  -- A span that was given out: its slot is old, or its shreds are marked.
  abbrev pub IsSettled : ℕ → Slots L → Span → Type 0
  IsSettled highest m x = (x.0 < highest - slot_lookback) ⊎ IsMarked m x

  -- A settled span and one that is given out later.
  Apart-settled :
      (highest : ℕ) (m : Slots L) (x y : Span)
      → x.1 ≤ x.2
      → IsSettled highest m x
      → highest - slot_lookback ≤ y.0
      → y.1 ≤ y.2
      → IsUnmarked m y
      → Apart x y
  Apart-settled highest m x y h (inl old) from h' f = inl (λ e. omega (arith, old, from, e))
  Apart-settled highest m x y h (inr marked) from h' f = Apart-of_unmarked m x y h h' marked f

  -- Settled spans stay settled.
  IsSettled-later :
      (highest highest' : ℕ) (m m' : Slots L) (x : Span)
      → highest ≤ highest'
      → MarksStay (highest' - slot_lookback) m m'
      → IsSettled highest m x
      → IsSettled highest' m' x
  IsSettled-later highest highest' m m' x le stay (inl old) = inl (omega (arith, le, old))
  IsSettled-later highest highest' m m' x le stay (inr marked) =
      elim (below_or x.0 (highest' - slot_lookback)) [
        | inl old ↦ inl old
        | inr recent ↦ inr (λ k a b. stay x.0 k recent (marked k a b))
      ]

  IsSettled-new :
      (highest : ℕ) (m : Slots L) (x : Span)
      → (highest - slot_lookback ≤ x.0 → IsMarked m x)
      → IsSettled highest m x
  IsSettled-new highest m x h = elim (below_or x.0 (highest - slot_lookback)) [
    | inl old ↦ inl old
    | inr recent ↦ inr (h recent)
  ]

pub no_slot-unmarked : (L : Ledger) (slot k : ℕ) → deshredded (tracker_of {L = L} [] slot) k ≡ false
unfolding new_slot entry lookup
no_slot-unmarked L slot k = default-unmarked L k

module _ {L : Ledger} (C : Codec L) (Q : Shred L → Type 0) where
  -- What a turn brings the thread.
  abbrev pub EventBrings : ReconstructEvent C → Type 0
  EventBrings (batch_received batch) = Brings Q C batch
  EventBrings timeout = Unit
  EventBrings disconnected = Unit

  -- What the thread has broadcast, and what it holds: the bytes of each entry from shreds of a span
  -- of its slot that all have the property, no two spans with a shred in common.
  pub record Broadcasts (s : Reconstructor C) : Type 0 where
    pub slots_valid : SlotsValid s.all_shreds
    pub held : Held Q s.all_shreds
    pub log : List Span
    pub carried : AllCarry C Q s.broadcast log
    pub apart : AllApart log
    pub ordered : All (λ x. x.1 ≤ x.2) log
    pub settled : All (IsSettled s.highest_slot_seen s.all_shreds) log
    -- A shred is marked as given out only if it was broadcast.
    pub marked_sent :
        (slot k : ℕ) → deshredded (tracker_of s.all_shreds slot) k ≡ true → Covers log slot k

  across :
      (m : Slots L) (highest : ℕ) (x : Span) (ys : List Span)
      → x.1 ≤ x.2
      → IsSettled highest m x
      → All (λ y. highest - slot_lookback ≤ y.0) ys
      → All (λ y. y.1 ≤ y.2) ys
      → All (IsUnmarked m) ys
      → All (Apart x) ys
  across m highest x [] h p a b c = tt
  across m highest x (y ∷ ys) h p a b c =
      (Apart-settled highest m x y h p a.0 b.0 c.0, across m highest x ys h p a.1 b.1 c.1)

  across_each :
      (m : Slots L) (highest : ℕ) (xs ys : List Span)
      → All (λ x. x.1 ≤ x.2) xs
      → All (IsSettled highest m) xs
      → All (λ y. highest - slot_lookback ≤ y.0) ys
      → All (λ y. y.1 ≤ y.2) ys
      → All (IsUnmarked m) ys
      → All (λ x. All (Apart x) ys) xs
  across_each m highest [] ys h p a b c = tt
  across_each m highest (x ∷ xs) ys h p a b c =
      (across m highest x ys h.0 p.0 a b c, across_each m highest xs ys h.1 p.1 a b c)

  drain-Broadcasts :
      (batch : List C.Packet) (s : Reconstructor C) (r : Reconstructed C)
      → Broadcasts s
      → Promised C Q batch s.all_shreds s.highest_slot_seen r
      → Broadcasts (drain C s r)
  drain-Broadcasts batch s r b p = record {
    slots_valid = p.slots_valid;
    held = p.held;
    log = b.log ++ p.log;
    carried =
        AllCarry-append C Q s.broadcast (sent_of C r.deshredded_entries) b.log p.log b.carried (
          AllCarry-decoded C Q p.recovered_slots r.deshredded_entries p.log p.held_before
            p.decoded);
    apart = AllApart-append b.log p.log b.apart p.apart (
        across_each s.all_shreds s.highest_slot_seen b.log p.log b.ordered b.settled p.from
          p.ordered p.were_unmarked);
    ordered = All-append _ b.log p.log b.ordered p.ordered;
    settled =
        All-append _ b.log p.log
          (All-mono _ _ b.log
            (λ x h.
              IsSettled-later s.highest_slot_seen r.highest_slot_seen s.all_shreds r.all_shreds x
                p.highest_le p.marks_stay h)
            b.settled)
          (All-mono _ _ p.log (λ x h. IsSettled-new r.highest_slot_seen r.all_shreds x h)
            p.are_marked);
    marked_sent = λ slot k h. elim (p.marks_from slot k h) [
      | inl old ↦ Covers-left b.log p.log slot k (b.marked_sent slot k old)
      | inr new ↦ Covers-right b.log p.log slot k new
    ];
  }

  stop-Broadcasts : (s : Reconstructor C) → Broadcasts s → Broadcasts (record s { running = false })
  stop-Broadcasts s b = record {
    slots_valid = b.slots_valid;
    held = b.held;
    log = b.log;
    carried = b.carried;
    apart = b.apart;
    ordered = b.ordered;
    settled = b.settled;
    marked_sent = b.marked_sent;
  }

  -- The counters say nothing of what was broadcast.
  pub with_metrics-Broadcasts :
      (s : Reconstructor C) (m : ShredMetrics)
      → Broadcasts s
      → Broadcasts (record s { metrics = m })
  with_metrics-Broadcasts s m b = record {
    slots_valid = b.slots_valid;
    held = b.held;
    log = b.log;
    carried = b.carried;
    apart = b.apart;
    ordered = b.ordered;
    settled = b.settled;
    marked_sent = b.marked_sent;
  }

  pub reconstructor_step-Broadcasts :
      (laws : CodecLaws C) (closed : IsClosed Q C) (s : Reconstructor C) (e : ReconstructEvent C)
      → Broadcasts s
      → EventBrings e
      → Ensures Broadcasts (reconstructor_step C s e)
  unfolding reconstructor_step
  reconstructor_step-Broadcasts laws closed s (batch_received batch) b q =
      Ensures-bind _
        (reconstruct_shreds-Promised C Q closed laws batch s.all_shreds s.highest_slot_seen
          s.metrics b.slots_valid b.held q)
        λ r p. ensures (drain-Broadcasts batch s r b p)
  reconstructor_step-Broadcasts laws closed s timeout b q = ensures b
  reconstructor_step-Broadcasts laws closed s disconnected b q = ensures (stop-Broadcasts s b)

  pub start-Broadcasts : (metrics : ShredMetrics) → Broadcasts (start C metrics)
  start-Broadcasts metrics = record {
    slots_valid = tt;
    held = Held-nil Q;
    log = [];
    carried = tt;
    apart = tt;
    ordered = tt;
    settled = tt;
    marked_sent = λ slot k h. cc (h, no_slot-unmarked L slot k);
  }
