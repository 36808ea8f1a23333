-- ===== src/Server/Carried.antt =====
-- proxy/src/server.rs on what proxy/src/forwarder.rs broadcasts: what reaches a client.
use shredstream_proxy.Common.{ℕ, zero, suc, subst, Bool, List, [], ◌∷◌, ◌++◌, drop, All}
use shredstream_proxy.Ledger.{Ledger, Shred}
use shredstream_proxy.Reconstruct.{Codec}
use shredstream_proxy.Forwarder.{Forwarder}
use shredstream_proxy.Forwarder.Pipeline.{Pipeline}
use shredstream_proxy.Reconstruct.Deshred.Spans.{Span, Apart, AllApart}
use shredstream_proxy.Reconstruct.Deshred.Carried.{AllCarry}
use shredstream_proxy.Forwarder.Threads.{Reconstructor}
use shredstream_proxy.Forwarder.Threads.Once.{Broadcasts}
use shredstream_proxy.Server.{RecvResult, subscribe_entries}
use shredstream_proxy.Server.Contiguous.{Receives, subscribe_entries-Contiguous}

module _ {L : Ledger} (C : Codec L) (Q : Shred L → Type 0) where
  -- The entries carry spans of shreds that have the property and no shred in common.
  pub record OnceEach (bs : List (ℕ × List ℕ)) : Type 0 where
    pub log : List Span
    pub carried : AllCarry C Q bs log
    pub apart : AllApart log

  OnceEach-tail : (b : ℕ × List ℕ) (bs : List (ℕ × List ℕ)) → OnceEach (b ∷ bs) → OnceEach bs
  OnceEach-tail b bs o = tail o.log o.carried o.apart
    where
      tail : (log : List Span) → AllCarry C Q (b ∷ bs) log → AllApart log → OnceEach bs
      tail [] c a = absurd c
      tail (x ∷ log) c a = record { log = log; carried = c.1; apart = a.1 }

  OnceEach-drop : (k : ℕ) (bs : List (ℕ × List ℕ)) → OnceEach bs → OnceEach (drop k bs)
  OnceEach-drop zero bs o = o
  OnceEach-drop (suc k) [] o = o
  OnceEach-drop (suc k) (b ∷ bs) o = OnceEach-drop k bs (OnceEach-tail b bs o)

  -- The entries of a prefix, with their spans, all of which are apart from what the whole is apart
  -- from.
  prefix :
      (bs cs : List (ℕ × List ℕ)) (log : List Span)
      → AllCarry C Q (bs ++ cs) log
      → AllApart log
      → (front : List Span) × AllCarry C Q bs front
        × AllApart front
        × ((x : Span) → All (Apart x) log → All (Apart x) front)
  prefix [] cs log c a = ([], tt, tt, λ x h. tt)
  prefix (b ∷ bs) cs [] c a = absurd c
  prefix (b ∷ bs) cs (y ∷ log) c a =
      let (front, d, e, f) = prefix bs cs log c.1 a.1 in
      (y ∷ front, (c.0, d), (f y a.0, e), λ x h. (h.0, f x h.1))

  OnceEach-prefix : (bs cs : List (ℕ × List ℕ)) → OnceEach (bs ++ cs) → OnceEach bs
  OnceEach-prefix bs cs o =
      let (front, d, e, f) = prefix bs cs o.log o.carried o.apart in
      record { log = front; carried = d; apart = e }

  -- A client that subscribed after any number of the broadcasts of a reconstructor thread in a
  -- state it can be in, with the broadcast channel as documented, is sent only bytes that are
  -- deshredded from the payloads of data shreds of a span, one for each index and in order, that all
  -- have the property, and no two of its entries have a shred in common.
  pub subscribe_entries-OnceEach :
      (s : Reconstructor C) (before : ℕ) (answers : List (RecvResult (ℕ × List ℕ) × Bool))
      → Broadcasts C Q s
      → Receives (drop before s.broadcast) answers
      → OnceEach (subscribe_entries answers).sent
  subscribe_entries-OnceEach s before answers b r =
      let c = subscribe_entries-Contiguous r in
      OnceEach-prefix (subscribe_entries answers).sent c.later (
        subst OnceEach c.prefix (
          OnceEach-drop before s.broadcast
            (record { log = b.log; carried = b.carried; apart = b.apart })))
