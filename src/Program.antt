-- ===== src/Program.antt =====
-- proxy/src/main.rs: the threads that `main` starts.
pub mod Started
pub mod Shutdown
use shredstream_proxy.Common.{
  ℕ, Bool, true, false, ◌&&◌, ◌||◌, Option, none, some, List, [], ◌∷◌, ◌++◌, map, Outcome, returns,
  panics, ◌>>=◌, unwrap, Result, ok, err, and_then, ok_or, Text, ltb, if◌then◌else◌, length,
}
use shredstream_proxy.Arguments.{
  CommonArgs, ShredstreamArgs, SubscribeOnlyArgs, ProxySubcommands, shredstream, forward_only,
  subscribe_only, StartError, io_error, is_some, is_none, validate,
}
use shredstream_proxy.Forwarder.{SocketAddr}
use shredstream_proxy.Forwarder.Threads.Spawn.{start_forwarder_threads}
use shredstream_proxy.Multicast.{IpAddr}
use shredstream_proxy.Multicast.Sockets.{UdpSocket}

-- What `main` takes from outside: the keypair file, the address that `ifconfig.me` answers or its
-- error, the sockets that `create_multicast_socket_on_device` returns,
-- `multi_bind_in_range_with_config` with an address, a range of ports and the number of sockets, how
-- many threads the machine runs at a time, whether the build checks for overflow, and whether the
-- host's name can be read and the signal handlers and the runtime can be set up. A thread that is
-- spawned is taken to start.
pub record Platform : Type 1 where
  pub Keypair : Type 0
  pub read_keypair_file : Text → Option Keypair
  pub ifconfig : Option Text
  pub parse_ip : Text → Option ℕ
  pub multicast_sockets : (device : Text) (port : ℕ) → Option IpAddr → Option (List UdpSocket)
  pub bind : ℕ → ℕ × ℕ → ℕ → Option (List UdpSocket)
  pub available_parallelism : Option ℕ
  pub overflow_checks : Bool
  pub hostname : Option (Option Text)
  pub signal_handlers : Bool
  pub runtime : Bool

-- What a heartbeat thread is given.
pub record HeartbeatArgs (P : Platform) : Type 0 where
  pub block_engine_url : Text
  pub auth_url : Text
  pub auth_keypair : P.Keypair
  pub desired_regions : List Text
  pub recv_socket : SocketAddr

-- The threads, with the arguments that decide what they do.
pub data Thread (P : Platform) : Type 0 where
  heartbeat : HeartbeatArgs P → Thread P
  subscribe_heartbeat : HeartbeatArgs P → Thread P
  forwarders :
      (src : SocketAddr) (multicast : Option (List UdpSocket)) (num_threads : Option ℕ)
      (should_reconstruct_shreds debug_trace_shred use_discovery_service : Bool)
      → Thread P
  report_metrics : Thread P
  accessory : (metrics_report_interval_ms : ℕ) → Thread P
  destination_refresh :
      (url : Text) (port : ℕ) (dest_ip_ports : List (SocketAddr × Text)) → Thread P
  server : SocketAddr → Thread P
  prometheus : SocketAddr → Thread P

abbrev pub unwrap_or {ℓ} : {A : Type ℓ} → Option A → A → A
unwrap_or none d = d
unwrap_or (some a) d = a

module _ (P : Platform) where
  -- `get_public_ip`: no answer is its error, an answer that is no address a panic.
  unfoldable pub get_public_ip : Outcome (Option ℕ)
  get_public_ip = elim P.ifconfig [
    | none ↦ returns none
    | some response ↦ do ip ← unwrap (P.parse_ip response); returns (some ip)
  ]

  -- `public_ip.unwrap_or_else(|| get_public_ip().unwrap())`.
  unfoldable pub public_ip_or : Option ℕ → Outcome ℕ
  unfolding get_public_ip
  public_ip_or (some ip) = returns ip
  public_ip_or none = get_public_ip >>= unwrap

  unfoldable pub start_heartbeat : ShredstreamArgs → Outcome (Thread P)
  unfolding public_ip_or
  start_heartbeat args = do
    auth_keypair ← unwrap (P.read_keypair_file args.auth_keypair)
    ip ← public_ip_or args.common_args.public_ip
    returns (
        heartbeat (record {
          block_engine_url = args.block_engine_url;
          auth_url = unwrap_or args.auth_url args.block_engine_url;
          auth_keypair = auth_keypair;
          desired_regions = args.desired_regions;
          recv_socket = (ip, args.common_args.src_bind_port);
        }))

  -- The slice that the warning on too many regions prints.
  unfoldable pub warned_regions : List Text → Outcome (List Text)
  warned_regions (a ∷ b ∷ rest) = returns (if ltb 2 (length (a ∷ b ∷ rest)) then a ∷ b ∷ [] else [])
  warned_regions regions = if ltb 2 (length regions) then panics else returns []

  unfoldable pub use_discovery_service : CommonArgs → Bool
  use_discovery_service args =
      is_some args.endpoint_discovery_url && is_some args.discovered_endpoints_port

  unfoldable pub refresh_thread : CommonArgs → Outcome (List (Thread P))
  unfolding use_discovery_service
  refresh_thread args =
      let started = unwrap args.endpoint_discovery_url >>= λ url.
      unwrap args.discovered_endpoints_port >>= λ port.
      returns (destination_refresh url port args.dest_ip_ports ∷ []) in
      if use_discovery_service args then started else returns []

  abbrev pub optional {ℓ} : {A : Type ℓ} → (A → Thread P) → Option A → List (Thread P)
  optional f none = []
  optional f (some a) = f a ∷ []

  abbrev pub heartbeat_thread : ProxySubcommands → Outcome (List (Thread P))
  heartbeat_thread (shredstream args) = do
    warned ← warned_regions args.desired_regions
    t ← start_heartbeat args
    returns (t ∷ [])
  heartbeat_thread (forward_only args) = returns []
  heartbeat_thread (subscribe_only args) = returns []

  -- The call of `start_forwarder_threads`, which panics on the main thread where the sockets cannot
  -- be bound.
  unfoldable pub start_forwarders : CommonArgs → Outcome (Thread P)
  unfolding use_discovery_service start_forwarder_threads
  start_forwarders args =
      let multicast =
        P.multicast_sockets args.multicast_device args.multicast_subscribe_port
          args.multicast_bind_ip in
      start_forwarder_threads P.bind P.overflow_checks args.src_bind_addr args.src_bind_port
        multicast args.num_threads P.available_parallelism (is_some args.grpc_service_port)
      >>= λ spawned. returns (
          forwarders (args.src_bind_addr, args.src_bind_port) multicast args.num_threads
            (is_some args.grpc_service_port) args.debug_trace_shred (use_discovery_service args))

  -- The threads in the order in which they are started.
  unfoldable pub start_threads : ProxySubcommands → CommonArgs → Outcome (List (Thread P))
  unfolding warned_regions start_heartbeat refresh_thread start_forwarders
  start_threads command args = do
    first ← heartbeat_thread command
    forwarding ← start_forwarders args
    refresh ← refresh_thread args
    returns (
        first
        ++ (forwarding ∷ report_metrics ∷ accessory args.metrics_report_interval_ms ∷ [])
        ++ refresh
        ++ optional (λ port. server (0, port)) args.grpc_service_port
        ++ optional prometheus args.prometheus_bind_addr)

  -- Setting up: the host's name, then the checks, then the signal handlers, then the runtime.
  unfoldable pub set_up : Result StartError (Unit {0}) → Outcome (Result StartError (Unit {0}))
  set_up checks = elim P.hostname [
    | none ↦ returns (err io_error)
    | some name ↦ unwrap name >>= λ n. elim checks [
      | err e ↦ returns (err e)
      | ok u ↦
          if P.signal_handlers then returns (if P.runtime then ok tt else err io_error) else panics
    ]
  ]

  abbrev pub if_ok :
      Outcome (List (Thread P))
      → Result StartError (Unit {0})
      → Outcome (Result StartError (List (Thread P)))
  if_ok start (err e) = returns (err e)
  if_ok start (ok u) = start >>= λ threads. returns (ok threads)

  unfoldable pub run_subscribe_only_mode :
      SubscribeOnlyArgs → Outcome (Result StartError (List (Thread P)))
  unfolding set_up warned_regions public_ip_or
  run_subscribe_only_mode args =
      set_up (ok tt)
      >>= if_ok (
          warned_regions args.desired_regions >>= λ warned.
          unwrap (P.read_keypair_file args.auth_keypair) >>= λ auth_keypair.
          public_ip_or args.public_ip >>= λ ip. returns (
            subscribe_heartbeat (record {
              block_engine_url = args.block_engine_url;
              auth_url = unwrap_or args.auth_url args.block_engine_url;
              auth_keypair = auth_keypair;
              desired_regions = args.desired_regions;
              recv_socket = (ip, args.dest_port);
            })
            ∷ []))

  -- `main` up to the joining of the threads: its error, or the threads.
  unfoldable pub main : ProxySubcommands → Outcome (Result StartError (List (Thread P)))
  unfolding set_up validate start_threads run_subscribe_only_mode
  main (shredstream args) =
      set_up (validate args.common_args)
      >>= if_ok (start_threads (shredstream args) args.common_args)
  main (forward_only args) =
      set_up (validate args) >>= if_ok (start_threads (forward_only args) args)
  main (subscribe_only args) = run_subscribe_only_mode args

  -- The joining: each thread's result in turn, `true` for one that panicked.
  unfoldable pub join_all : List Bool → Outcome (Unit {0})
  join_all [] = returns tt
  join_all (panicked ∷ rest) = if panicked then panics else join_all rest
