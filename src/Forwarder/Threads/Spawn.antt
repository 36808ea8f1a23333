-- ===== src/Forwarder/Threads/Spawn.antt =====
-- The spawning in `start_forwarder_threads` (proxy/src/forwarder.rs), and the handles it returns.
use shredstream_proxy.Common.{
  ℕ, suc, ◌+◌, ◌<◌, ltb, lt→ltb, panics, ◌≡◌, refl, ap, Bool, true, false, Option, none, some, List,
  [], ◌∷◌, ◌++◌, Outcome, returns, ◌>>=◌, unwrap, Ensures, ensures, if◌then◌else◌,
}
use shredstream_proxy.Forwarder.Threads.{forwarder_threads}

-- The threads by their names, and the socket that a listener reads.
pub data Spawned (Socket : Type 0) : Type 0 where
  shred_reconstructor : Spawned Socket
  ss_listen : (thread_id : ℕ) (incoming_shred_socket : Socket) → Spawned Socket
  ss_pxy_tx : (thread_id : ℕ) → Spawned Socket

-- `num_threads`, with the machine's `available_parallelism`.
abbrev pub count_threads : Option ℕ → Option ℕ → Outcome ℕ
count_threads none available = unwrap available >>= λ n. returns (forwarder_threads none n)
count_threads (some n) available = returns (forwarder_threads (some n) 0)

-- `src_port + 1` on `u16`, which panics where the build checks for overflow and wraps where not.
abbrev pub next_port : (overflow_checks : Bool) → ℕ → Outcome ℕ
next_port overflow_checks src_port =
    if ltb src_port 65535
    then returns (src_port + 1)
    else if overflow_checks
    then panics
    else returns 0

next_port_lem :
    (overflow_checks : Bool) (src_port : ℕ)
    → src_port < 65535
    → next_port overflow_checks src_port ≡ returns (src_port + 1)
next_port_lem overflow_checks src_port h = rw (lt→ltb src_port 65535 h) refl

module _ {Socket : Type 0} where
  -- The `flat_map`: a listener and a sender for each socket.
  unfoldable pub spawn_pairs : ℕ → List Socket → List (Spawned Socket)
  spawn_pairs id [] = []
  spawn_pairs id (socket ∷ rest) = ss_listen id socket ∷ ss_pxy_tx id ∷ spawn_pairs (suc id) rest

  -- `maybe_multicast_socket.into_iter().flatten()`
  abbrev pub multicast_of : Option (List Socket) → List Socket
  multicast_of none = []
  multicast_of (some sockets) = sockets

  abbrev pub reconstructor_of : Bool → List (Spawned Socket)
  reconstructor_of should_reconstruct = if should_reconstruct then shred_reconstructor ∷ [] else []

  -- All threads spawned, and those whose handles are returned. `bind` is
  -- `multi_bind_in_range_with_config`, with an address, a range of ports and the number of sockets.
  unfoldable pub start_forwarder_threads :
      (bind : ℕ → ℕ × ℕ → ℕ → Option (List Socket))
      → (overflow_checks : Bool) → (src_addr src_port : ℕ)
      → (maybe_multicast_socket : Option (List Socket)) → (num_threads available : Option ℕ)
      → (should_reconstruct_shreds : Bool) → Outcome (List (Spawned Socket) × List (Spawned Socket))
  unfolding spawn_pairs
  start_forwarder_threads bind overflow_checks src_addr src_port multicast num_threads available
        should_reconstruct =
      do
        n ← count_threads num_threads available
        end_port ← next_port overflow_checks src_port
        sockets ← unwrap (bind src_addr (src_port, end_port) n)
        let handles = spawn_pairs 0 (sockets ++ multicast_of multicast) in
            returns (reconstructor_of should_reconstruct ++ handles, handles)

  -- The sockets that are read.
  abbrev pub listened : List (Spawned Socket) → List Socket
  listened [] = []
  listened (shred_reconstructor ∷ rest) = listened rest
  listened (ss_listen id socket ∷ rest) = socket ∷ listened rest
  listened (ss_pxy_tx id ∷ rest) = listened rest

  -- The thread ids of the listeners and of the senders, and how many reconstructors there are.
  abbrev pub listener_ids : List (Spawned Socket) → List ℕ
  listener_ids [] = []
  listener_ids (shred_reconstructor ∷ rest) = listener_ids rest
  listener_ids (ss_listen id socket ∷ rest) = id ∷ listener_ids rest
  listener_ids (ss_pxy_tx id ∷ rest) = listener_ids rest

  abbrev pub sender_ids : List (Spawned Socket) → List ℕ
  sender_ids [] = []
  sender_ids (shred_reconstructor ∷ rest) = sender_ids rest
  sender_ids (ss_listen id socket ∷ rest) = sender_ids rest
  sender_ids (ss_pxy_tx id ∷ rest) = id ∷ sender_ids rest

  abbrev pub reconstructors : List (Spawned Socket) → ℕ
  reconstructors [] = 0
  reconstructors (shred_reconstructor ∷ rest) = suc (reconstructors rest)
  reconstructors (ss_listen id socket ∷ rest) = reconstructors rest
  reconstructors (ss_pxy_tx id ∷ rest) = reconstructors rest

  -- The ids that one thread of each kind has per socket.
  abbrev pub ids_from : ℕ → List Socket → List ℕ
  ids_from id [] = []
  ids_from id (socket ∷ rest) = id ∷ ids_from (suc id) rest

  -- What runs: the sockets are read in order by the listeners, which are numbered from 0, one sender
  -- has each of these numbers, and there are so many reconstructors.
  pub record Runs (sockets : List Socket) (count : ℕ) (threads : List (Spawned Socket))
      : Type 0 where
    pub listened_lem : listened threads ≡ sockets
    pub listeners_lem : listener_ids threads ≡ ids_from 0 sockets
    pub senders_lem : sender_ids threads ≡ ids_from 0 sockets
    pub reconstructors_lem : reconstructors threads ≡ count

  -- The threads that are started have the reconstructor among them exactly if it is wanted; those
  -- whose handles are returned have not.
  pub record Listens (sockets : List Socket) (should_reconstruct : Bool)
      (started handles : List (Spawned Socket)) : Type 0 where
    pub starts : Runs sockets (if should_reconstruct then 1 else 0) started
    pub returned : Runs sockets 0 handles

  listened-spawn_pairs :
      (id : ℕ) (sockets : List Socket) → listened (spawn_pairs id sockets) ≡ sockets
  unfolding spawn_pairs
  listened-spawn_pairs id [] = refl
  listened-spawn_pairs id (s ∷ rest) = ap (λ x. s ∷ x) (listened-spawn_pairs (suc id) rest)

  listener_ids-spawn_pairs :
      (id : ℕ) (sockets : List Socket) → listener_ids (spawn_pairs id sockets) ≡ ids_from id sockets
  unfolding spawn_pairs
  listener_ids-spawn_pairs id [] = refl
  listener_ids-spawn_pairs id (s ∷ rest) = ap (λ x. id ∷ x) (listener_ids-spawn_pairs (suc id) rest)

  sender_ids-spawn_pairs :
      (id : ℕ) (sockets : List Socket) → sender_ids (spawn_pairs id sockets) ≡ ids_from id sockets
  unfolding spawn_pairs
  sender_ids-spawn_pairs id [] = refl
  sender_ids-spawn_pairs id (s ∷ rest) = ap (λ x. id ∷ x) (sender_ids-spawn_pairs (suc id) rest)

  reconstructors-spawn_pairs :
      (id : ℕ) (sockets : List Socket) → reconstructors (spawn_pairs id sockets) ≡ 0
  unfolding spawn_pairs
  reconstructors-spawn_pairs id [] = refl
  reconstructors-spawn_pairs id (s ∷ rest) = reconstructors-spawn_pairs (suc id) rest

  spawn_pairs-Runs : (sockets : List Socket) → Runs sockets 0 (spawn_pairs 0 sockets)
  spawn_pairs-Runs sockets = record {
    listened_lem = listened-spawn_pairs 0 sockets;
    listeners_lem = listener_ids-spawn_pairs 0 sockets;
    senders_lem = sender_ids-spawn_pairs 0 sockets;
    reconstructors_lem = reconstructors-spawn_pairs 0 sockets;
  }

  started-Runs :
      (should_reconstruct : Bool) (sockets : List Socket) (threads : List (Spawned Socket))
      → Runs sockets 0 threads
      → Runs sockets
          (if should_reconstruct then 1 else 0)
          (reconstructor_of should_reconstruct ++ threads)
  started-Runs true sockets threads r = record {
    listened_lem = r.listened_lem;
    listeners_lem = r.listeners_lem;
    senders_lem = r.senders_lem;
    reconstructors_lem = ap suc r.reconstructors_lem;
  }
  started-Runs false sockets threads r = r

  -- Where the number of threads is known, the port is not the last one, and that many sockets can
  -- be bound from it up to but not including the next one, the start returns. All bound sockets and
  -- multicast sockets are then read in order by the listeners, which are numbered from 0, one sender
  -- has each of these numbers, and one reconstructor is started exactly if shreds are to be
  -- reconstructed; the handles that are returned are of such listeners and senders, and of no
  -- reconstructor.
  pub start_forwarder_threads-Listens :
      (bind : ℕ → ℕ × ℕ → ℕ → Option (List Socket)) (overflow_checks : Bool) (src_addr src_port : ℕ)
      (multicast : Option (List Socket)) (num_threads available : Option ℕ)
      (should_reconstruct : Bool) (n : ℕ) (sockets : List Socket)
      → count_threads num_threads available ≡ returns n
      → src_port < 65535
      → bind src_addr (src_port, src_port + 1) n ≡ some sockets
      → Ensures
          (λ r. Listens (sockets ++ multicast_of multicast) should_reconstruct r.0 r.1)
          (start_forwarder_threads bind overflow_checks src_addr src_port multicast num_threads
            available should_reconstruct)
  unfolding start_forwarder_threads
  start_forwarder_threads-Listens bind overflow_checks src_addr src_port multicast num_threads
        available should_reconstruct n sockets counted below bound =
      rw (counted, next_port_lem overflow_checks src_port below, bound)
        (ensures (record {
          starts = started-Runs should_reconstruct _ _ (spawn_pairs-Runs _);
          returned = spawn_pairs-Runs _;
        }))
