-- ===== src/Program/Shutdown.antt =====
-- proxy/src/main.rs: `shutdown_notifier` and the panic hook, as the steps of the signal thread, of
-- the hooks and of the threads that receive. No `send` fails, as `main` keeps a receiver to its
-- end.
use shredstream_proxy.Common.{
  ℕ, ◌+◌, ◌-◌, ◌*◌, ◌≤◌, ◌<◌, ◌≡◌, refl, Bool, true, false, ◌⊎◌, inl, inr, below_or, arith,
}

-- The exit flag, the messages in the bounded channel, those that the signal thread has yet to send
-- for its last signal, the panic hooks that have yet to send theirs, and what was received.
pub record Notifier : Type 0 where
  pub exit : Bool
  pub queued : ℕ
  pub to_send : ℕ
  pub hooks : ℕ
  pub received : ℕ
  pub signals : ℕ
  pub panics : ℕ

abbrev pub capacity : ℕ
capacity = 256

abbrev pub before_start : Notifier
before_start = record {
  exit = false;
  queued = 0;
  to_send = 0;
  hooks = 0;
  received = 0;
  signals = 0;
  panics = 0;
}

unfoldable pub on_signal : Notifier → Notifier
on_signal n = record n { exit = true; to_send = 256; signals = n.signals + 1 }

unfoldable pub send_one : Notifier → Notifier
send_one n = record n { queued = n.queued + 1; to_send = n.to_send - 1 }

unfoldable pub receive_one : Notifier → Notifier
receive_one n = record n { queued = n.queued - 1; received = n.received + 1 }

unfoldable pub on_panic : Notifier → Notifier
on_panic n = record n { exit = true; hooks = n.hooks + 1; panics = n.panics + 1 }

unfoldable pub hook_sends : Notifier → Notifier
hook_sends n = record n { queued = n.queued + 1; hooks = n.hooks - 1 }

-- A signal is taken once the last one's messages are sent; a send waits for room, a receive for a
-- message.
pub data Step : Notifier → Notifier → Type 0 where
  signal : {n : Notifier} → n.to_send ≡ 0 → Step n (on_signal n)
  send : {n : Notifier} → 0 < n.to_send → n.queued < capacity → Step n (send_one n)
  receive : {n : Notifier} → 0 < n.queued → Step n (receive_one n)
  panic : {n : Notifier} → Step n (on_panic n)
  hook_send : {n : Notifier} → 0 < n.hooks → n.queued < capacity → Step n (hook_sends n)

pub data Reachable : Notifier → Type 0 where
  begins : Reachable before_start
  steps : {n m : Notifier} → Reachable n → Step n m → Reachable m

-- Every message is somewhere, and whoever is to stop sees the flag.
pub record Counted (n : Notifier) : Type 0 where
  pub total : n.queued + n.to_send + n.hooks + n.received ≡ 256 * n.signals + n.panics
  pub room : n.queued ≤ capacity
  pub told : (n.signals + n.panics ≡ 0) ⊎ (n.exit ≡ true)

Step-Counted : {n m : Notifier} → Step n m → Counted n → Counted m
unfolding on_signal send_one receive_one on_panic hook_sends
Step-Counted (signal e) c = record {
  total = omega (arith, c.total, e);
  room = c.room;
  told = inr refl;
}
Step-Counted (send a b) c = record {
  total = omega (arith, c.total, a, b);
  room = omega (arith, b);
  told = c.told;
}
Step-Counted (receive a) c = record {
  total = omega (arith, c.total, a);
  room = omega (arith, c.room);
  told = c.told;
}
Step-Counted panic c = record { total = omega (arith, c.total); room = c.room; told = inr refl }
Step-Counted (hook_send a b) c = record {
  total = omega (arith, c.total, a, b);
  room = omega (arith, b);
  told = c.told;
}

pub Reachable-Counted : {n : Notifier} → Reachable n → Counted n
Reachable-Counted begins = record { total = omega arith; room = omega arith; told = inl refl }
Reachable-Counted (steps r s) = Step-Counted s (Reachable-Counted r)

-- In every state that can be reached in which a signal has been taken, the exit flag is set; and as
-- long as fewer than 256 messages have been received, another can be received, now or after a step
-- of the signal thread or of a hook that nothing blocks: each of up to 256 threads that wait for
-- one message gets it.
pub Reachable-Served :
    {n : Notifier}
    → Reachable n
    → 1 ≤ n.signals
    → n.received < 256
    → (n.exit ≡ true) × ((Step n (receive_one n)) ⊎ (Step n (send_one n)) ⊎ (Step n (hook_sends n)))
Reachable-Served {n} r s l =
    let c = Reachable-Counted r in
    (
      elim c.told [ inl e ↦ absurd (omega (arith, e, s)) | inr e ↦ e ],
      elim (below_or 0 n.queued) [
        | inl q ↦ inl (receive q)
        | inr q ↦ inr (elim (below_or 0 n.to_send) [
          | inl t ↦ inl (send t (omega (arith, q)))
          | inr t ↦ inr (hook_send (omega (arith, c.total, q, t, s, l)) (omega (arith, q)))
        ])
      ],
    )
