-- ===== src/Prom/Exposition.antt =====
-- proxy/src/prom.rs: the loop of `spawn_prometheus_server`. The HTTP server and the encoder are the
-- crates': a turn is given what they answer.
use mathlib.Core.List.{append-nil, append_assoc}
use shredstream_proxy.Common.{
  ◌≡◌, refl, sym, ◌∙◌, ap, Bool, true, false, ◌||◌, not, Option, none, some, List, [], ◌∷◌, ◌++◌,
  Outcome, returns, panics, ◌>>=◌, Ensures, ensures, Ensures-mono, Ensures-of, Text, if◌then◌else◌,
}

-- What `recv_timeout` gives: an error, no request within the second, or a request, with the encoded
-- metrics if they encode and whether `respond` succeeds.
pub data RequestResult : Type 0 where
  receive_error idle : RequestResult
  request : (encoded : Option Text) (responds : Bool) → RequestResult

-- The bodies of the responses made with status 200, the newest last; how many could not be sent.
pub record Exposition : Type 0 where
  pub responses : List Text
  pub failed : List Text
  pub running : Bool

unfoldable pub answer : Text → (responds : Bool) → Exposition → Exposition
answer body true s = record s { responses = s.responses ++ body ∷ [] }
answer body false s = record s {
  responses = s.responses ++ body ∷ [];
  failed = s.failed ++ body ∷ [];
}

-- One turn: the shutdown channel first, then a request.
unfoldable pub exposition_turn : (shutdown : Bool) → RequestResult → Exposition → Outcome Exposition
unfolding answer
exposition_turn true r s = returns (record s { running = false })
exposition_turn false receive_error s = panics
exposition_turn false idle s = returns s
exposition_turn false (request none responds) s = panics
exposition_turn false (request (some body) responds) s = returns (answer body responds s)

unfoldable pub exposition_loop : List (Bool × RequestResult) → Exposition → Outcome Exposition
unfolding exposition_turn
exposition_loop [] s = returns s
exposition_loop ((shutdown, r) ∷ rest) s =
    let next = exposition_turn shutdown r s >>= exposition_loop rest in
    if s.running then next else returns s

-- Neither the server nor the encoder fails.
abbrev pub Works : RequestResult → Type 0
Works receive_error = ⊥
Works idle = Unit
Works (request none responds) = ⊥
Works (request (some body) responds) = Unit

abbrev pub WorksThroughout : List (Bool × RequestResult) → Type 0
WorksThroughout [] = Unit
WorksThroughout ((shutdown, r) ∷ rest) = Works r × WorksThroughout rest

-- The metrics of every request before the first turn that finds a shutdown.
abbrev pub bodies : List (Bool × RequestResult) → List Text
bodies [] = []
bodies ((true, r) ∷ rest) = []
bodies ((false, request (some body) responds) ∷ rest) = body ∷ bodies rest
bodies ((false, request none responds) ∷ rest) = bodies rest
bodies ((false, idle) ∷ rest) = bodies rest
bodies ((false, receive_error) ∷ rest) = bodies rest

abbrev pub shut_down : List (Bool × RequestResult) → Bool
shut_down [] = false
shut_down ((shutdown, r) ∷ rest) = shutdown || shut_down rest

pub record Answered (turns : List (Bool × RequestResult)) (s s' : Exposition) : Type 0 where
  pub answered : s'.responses ≡ s.responses ++ bodies turns
  pub stops : s'.running ≡ not (shut_down turns)

stopped :
    (turns : List (Bool × RequestResult)) (s : Exposition)
    → s.running ≡ false
    → exposition_loop turns s ≡ returns s
unfolding exposition_loop
stopped [] s r = refl
stopped ((shutdown, x) ∷ rest) s r =
    ap (λ b. if b then (exposition_turn shutdown x s >>= exposition_loop rest) else returns s) r

goes_on :
    {P : Exposition → Type 0} {next : Outcome Exposition} {running : Bool}
    (stop : Outcome Exposition)
    → running ≡ true
    → Ensures P next
    → Ensures P (if running then next else stop)
goes_on stop r e = rw r e

Answered-cons :
    (body : Text) (failed : List Text) (rest : List (Bool × RequestResult)) (s t : Exposition)
    → Answered rest (record s { responses = s.responses ++ body ∷ []; failed = failed }) t
    → (t.responses ≡ s.responses ++ body ∷ bodies rest) × (t.running ≡ not (shut_down rest))
Answered-cons body failed rest s t a =
    (a.answered ∙ append_assoc s.responses (body ∷ []) (bodies rest), a.stops)

-- If the HTTP server and the encoder do not fail, the loop does not panic; it answers each request
-- up to the shutdown with the metrics at its time, in order, also when a response cannot be sent,
-- and it runs exactly until a shutdown is found.
pub exposition_loop-Answered :
    (turns : List (Bool × RequestResult)) (s : Exposition)
    → WorksThroughout turns
    → s.running ≡ true
    → Ensures (Answered turns s) (exposition_loop turns s)
unfolding exposition_loop exposition_turn answer
exposition_loop-Answered [] s w r =
    ensures (record { answered = sym (append-nil s.responses); stops = r })
exposition_loop-Answered ((true, x) ∷ rest) s w r = goes_on (returns s) r (
    Ensures-of (stopped rest (record s { running = false }) refl)
      (record { answered = sym (append-nil s.responses); stops = refl }))
exposition_loop-Answered ((false, idle) ∷ rest) s w r = goes_on (returns s) r (
    Ensures-mono (exposition_loop-Answered rest s w.1 r)
      λ t a. record { answered = a.answered; stops = a.stops })
exposition_loop-Answered ((false, request (some body) true) ∷ rest) s w r = goes_on (returns s) r (
    Ensures-mono (exposition_loop-Answered rest _ w.1 r) λ t a.
      let p = Answered-cons body s.failed rest s t a in record { answered = p.0; stops = p.1 })
exposition_loop-Answered ((false, request (some body) false) ∷ rest) s w r = goes_on (returns s) r (
    Ensures-mono (exposition_loop-Answered rest _ w.1 r) λ t a.
      let p = Answered-cons body (s.failed ++ body ∷ []) rest s t a in
      record { answered = p.0; stops = p.1 })
exposition_loop-Answered ((false, receive_error) ∷ rest) s w r = absurd w.0
exposition_loop-Answered ((false, request none responds) ∷ rest) s w r = absurd w.0
