-- ===== src/Server/Contiguous.antt =====
-- proxy/src/server.rs: what a client has got is what was broadcast first since it subscribed.
use shredstream_proxy.Common.{
  ℕ, ◌≡◌, refl, ap, Bool, true, false, not, ◌||◌, inl, inr, ◌⊎◌, List, [], ◌∷◌, ◌++◌, drop,
}
use shredstream_proxy.Server.{
  RecvResult, received, lagged, closed, ended, Subscription, subscribe_entries, ShutdownResult,
  signalled, timed_out, disconnected, server_turn, server_loop,
}

module _ {Entry : Type 0} where
  -- The broadcast channel's receiver, as `tokio` documents it, with the entries that are sent from
  -- the subscription on: it gives them in order, drops the oldest for a receiver that lags, and is
  -- closed only past the last.
  pub data Receives : List Entry → List (RecvResult Entry × Bool) → Type 0 where
    quiet : {pending : List Entry} → Receives pending []
    next :
        {entry : Entry} {pending : List Entry} {delivered : Bool}
        {rest : List (RecvResult Entry × Bool)}
        → Receives pending rest
        → Receives (entry ∷ pending) ((received entry, delivered) ∷ rest)
    skips :
        {pending : List Entry} {skipped : ℕ} {delivered : Bool}
        {rest : List (RecvResult Entry × Bool)}
        → Receives (drop skipped pending) rest
        → Receives pending ((lagged skipped, delivered) ∷ rest)
    over :
        {delivered : Bool} {rest : List (RecvResult Entry × Bool)}
        → Receives [] rest
        → Receives [] ((closed, delivered) ∷ rest)

  -- The entries among the answers.
  abbrev pub entries : List (RecvResult Entry × Bool) → List Entry
  entries [] = []
  entries ((received entry, delivered) ∷ rest) = entry ∷ entries rest
  entries ((lagged skipped, delivered) ∷ rest) = entries rest
  entries ((closed, delivered) ∷ rest) = entries rest

  -- A prefix of what was broadcast, and all that was received as long as the task goes on.
  pub record Contiguous (pending : List Entry) (answers : List (RecvResult Entry × Bool))
      (s : Subscription Entry) : Type 0 where
    pub later : List Entry
    pub prefix : pending ≡ s.sent ++ later
    pub complete : (s.phase ≡ ended) ⊎ (s.sent ≡ entries answers)

  nothing_sent :
      (pending : List Entry) (answers : List (RecvResult Entry × Bool))
      → Contiguous pending answers (record { sent = []; phase = ended })
  nothing_sent pending answers = record { later = pending; prefix = refl; complete = inl refl }

  -- With the broadcast channel as documented, a client is sent exactly the first entries that were
  -- broadcast after it subscribed, in order and with no gap, also when its receiver lags behind;
  -- and as long as its task has not ended, every entry that was received.
  pub subscribe_entries-Contiguous :
      {pending : List Entry} {answers : List (RecvResult Entry × Bool)}
      → Receives pending answers
      → Contiguous pending answers (subscribe_entries answers)
  unfolding subscribe_entries
  subscribe_entries-Contiguous {pending} quiet = record {
    later = pending;
    prefix = refl;
    complete = inr refl;
  }
  subscribe_entries-Contiguous (next {entry} {delivered = true} r) =
      let c = subscribe_entries-Contiguous r in
      record {
        later = c.later;
        prefix = ap (λ x. entry ∷ x) c.prefix;
        complete = elim c.complete [ inl e ↦ inl e | inr e ↦ inr (ap (λ x. entry ∷ x) e) ];
      }
  subscribe_entries-Contiguous (next {delivered = false} r) = nothing_sent _ _
  subscribe_entries-Contiguous (skips r) = nothing_sent _ _
  subscribe_entries-Contiguous (over r) = nothing_sent _ _

-- Whether the loop is told to stop: the flag is set, or a signal comes.
abbrev pub told : List (Bool × ShutdownResult) → Bool
told [] = false
told ((exit, signalled) ∷ rest) = true
told ((exit, timed_out) ∷ rest) = exit || told rest
told ((exit, disconnected) ∷ rest) = exit || told rest

stopped :
    (turns : List (Bool × ShutdownResult)) (aborted : Bool)
    → (server_loop turns (record { running = false; aborted = aborted })).running ≡ false
unfolding server_loop
stopped [] a = refl
stopped ((exit, r) ∷ rest) a = refl

-- From the start, the server's thread goes on exactly until a turn in which the flag is set or a
-- signal comes.
server_loop-told :
    (turns : List (Bool × ShutdownResult)) (aborted : Bool)
    → (server_loop turns (record { running = true; aborted = aborted })).running ≡ not (told turns)
unfolding server_loop server_turn
server_loop-told [] a = refl
server_loop-told ((true, signalled) ∷ rest) a = stopped rest _
server_loop-told ((true, timed_out) ∷ rest) a = stopped rest _
server_loop-told ((true, disconnected) ∷ rest) a = stopped rest _
server_loop-told ((false, signalled) ∷ rest) a = stopped rest _
server_loop-told ((false, timed_out) ∷ rest) a = server_loop-told rest a
server_loop-told ((false, disconnected) ∷ rest) a = server_loop-told rest a
