-- ===== src/Server.antt =====
-- proxy/src/server.rs: the task that passes the broadcast entries on to one client, and the server's
-- thread.
pub mod Contiguous
pub mod Carried
use shredstream_proxy.Common.{ℕ, Bool, true, false, List, [], ◌∷◌, if◌then◌else◌}

-- What `entry_receiver.recv()` answers: an entry, the number of entries that were dropped before the
-- next one, or that all senders are gone.
pub data RecvResult (Entry : Type 0) : Type 0 where
  received : Entry → RecvResult Entry
  lagged : (skipped : ℕ) → RecvResult Entry
  closed : RecvResult Entry

pub data TaskPhase : Type 0 where
  waiting ended : TaskPhase

-- What a client has been sent, and where the task stands.
pub record Subscription (Entry : Type 0) : Type 0 where
  pub sent : List Entry
  pub phase : TaskPhase

module _ {Entry : Type 0} where
  abbrev pub send_first : Entry → Subscription Entry → Subscription Entry
  send_first entry s = record s { sent = entry ∷ s.sent }

  -- The task against what `recv` answers each time, and whether `tx.send` then succeeds.
  unfoldable pub subscribe_entries : List (RecvResult Entry × Bool) → Subscription Entry
  subscribe_entries [] = record { sent = []; phase = waiting }
  subscribe_entries ((received entry, delivered) ∷ rest) =
      let s = subscribe_entries rest in
      if delivered then send_first entry s else record { sent = []; phase = ended }
  subscribe_entries ((lagged skipped, delivered) ∷ rest) = record { sent = []; phase = ended }
  subscribe_entries ((closed, delivered) ∷ rest) = record { sent = []; phase = ended }

-- What `shutdown_receiver.recv_timeout` answers.
pub data ShutdownResult : Type 0 where
  signalled timed_out disconnected : ShutdownResult

pub record ServerThread : Type 0 where
  pub running : Bool
  pub aborted : Bool

-- One turn of `start_server_thread`'s loop: the flag is read, then the channel.
unfoldable pub server_turn : (exit : Bool) → ShutdownResult → ServerThread → ServerThread
server_turn true r s = record s { running = false }
server_turn false signalled s = record { running = false; aborted = true }
server_turn false timed_out s = s
server_turn false disconnected s = s

unfoldable pub server_loop : List (Bool × ShutdownResult) → ServerThread → ServerThread
unfolding server_turn
server_loop [] s = s
server_loop ((exit, r) ∷ rest) s =
    let next = server_loop rest (server_turn exit r s) in if s.running then next else s
