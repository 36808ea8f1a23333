-- ===== src/Program/Started.antt =====
-- proxy/src/main.rs: the threads that `main` starts, or the error that it returns.
use shredstream_proxy.Common.{
  ℕ, ◌+◌, ◌<◌, ◌≡◌, refl, Ensures-returns, Bool, true, false, ◌||◌, Option, none, some, ◌⊎◌, inl,
  inr, List, [], ◌∷◌, ◌++◌, returns, ◌>>=◌, Ensures, ensures, Ensures-bind, Result, ok, err,
  Result-cases, Text, arith,
}
use shredstream_proxy.Arguments.{
  CommonArgs, ShredstreamArgs, ProxySubcommands, shredstream, forward_only, subscribe_only,
  StartError, is_some, validate,
}
use shredstream_proxy.Forwarder.Threads.Spawn.{count_threads, start_forwarder_threads-Listens}
use shredstream_proxy.Multicast.Sockets.{UdpSocket}
use shredstream_proxy.Program.{
  Platform, Thread, heartbeat, subscribe_heartbeat, forwarders, report_metrics, accessory,
  destination_refresh, server, prometheus, unwrap_or, get_public_ip, public_ip_or, start_heartbeat,
  start_forwarders, warned_regions, use_discovery_service, refresh_thread, start_threads, set_up,
  run_subscribe_only_mode, main, HeartbeatArgs, optional, if_ok, heartbeat_thread,
}
use shredstream_proxy.Arguments.Validation.{
  Validated, discovers, fixed, url_without_port, port_without_url, nowhere, validate-Validated,
}

module _ (P : Platform) where
  -- The platform lets the process start.
  pub record IsUsable : Type 0 where
    pub name : Text
    pub named : P.hostname ≡ some (some name)
    pub handles : P.signal_handlers ≡ true
    pub runs : P.runtime ≡ true

  -- The public address is given, or `ifconfig.me` answers with one.
  pub data IpKnown : Option ℕ → Type 0 where
    given : (ip : ℕ) → IpKnown (some ip)
    fetched :
        (response : Text) (ip : ℕ)
        → P.ifconfig ≡ some response
        → P.parse_ip response ≡ some ip
        → IpKnown none

  -- What a heartbeat needs: a keypair file that reads, and the public address.
  pub record CanBeat (keypair_file : Text) (public_ip : Option ℕ) : Type 0 where
    pub keypair : P.Keypair
    pub reads : P.read_keypair_file keypair_file ≡ some keypair
    pub known : IpKnown public_ip

  -- What the forwarder threads need: a known number of threads, a port that is not the last one, and
  -- so many sockets that can be bound at it.
  pub record CanBind (args : CommonArgs) : Type 0 where
    pub count : ℕ
    pub counted : count_threads args.num_threads P.available_parallelism ≡ returns count
    pub below : args.src_bind_port < 65535
    pub sockets : List UdpSocket
    pub binds :
        P.bind args.src_bind_addr (args.src_bind_port, args.src_bind_port + 1) count ≡ some sockets

  abbrev pub NeedsOf : ProxySubcommands → Type 0
  NeedsOf (shredstream args) =
      CanBeat args.auth_keypair args.common_args.public_ip × CanBind args.common_args
  NeedsOf (forward_only args) = CanBind args
  NeedsOf (subscribe_only args) = CanBeat args.auth_keypair args.public_ip

  -- Tests on a thread, and whether some thread of a list passes.
  abbrev pub beats : Thread P → Bool
  beats (heartbeat args) = true
  beats (subscribe_heartbeat args) = true
  beats _ = false

  abbrev pub serves : Thread P → Bool
  serves (server addr) = true
  serves _ = false

  abbrev pub refreshes : Thread P → Bool
  refreshes (destination_refresh url port dests) = true
  refreshes _ = false

  abbrev pub reconstructs : Thread P → Bool
  reconstructs (forwarders src multicast n should_reconstruct trace discovery) = should_reconstruct
  reconstructs _ = false

  abbrev pub polls : Thread P → Bool
  polls (forwarders src multicast n should_reconstruct trace discovery) = discovery
  polls _ = false

  abbrev pub reports : Thread P → Bool
  reports (prometheus addr) = true
  reports _ = false

  abbrev pub some_thread : (Thread P → Bool) → List (Thread P) → Bool
  some_thread test [] = false
  some_thread test (t ∷ ts) = test t || some_thread test ts

  -- The threads of a mode that forwards: entries are reconstructed exactly if they are served, the
  -- forwarders reload their destinations exactly if a thread refreshes them.
  pub record Composed (beating : Bool) (args : CommonArgs) (threads : List (Thread P))
      : Type 0 where
    pub beat : some_thread beats threads ≡ beating
    pub served : some_thread serves threads ≡ is_some args.grpc_service_port
    pub reconstructed : some_thread reconstructs threads ≡ is_some args.grpc_service_port
    pub refreshed : some_thread refreshes threads ≡ is_some args.endpoint_discovery_url
    pub polled : some_thread polls threads ≡ is_some args.endpoint_discovery_url
    pub reported : some_thread reports threads ≡ is_some args.prometheus_bind_addr

  assemble : Option (HeartbeatArgs P) → CommonArgs → Option (Text × ℕ) → List (Thread P)
  assemble first args d =
      optional P heartbeat first
      ++ (forwarders (args.src_bind_addr, args.src_bind_port)
            (P.multicast_sockets args.multicast_device args.multicast_subscribe_port
              args.multicast_bind_ip)
            args.num_threads (is_some args.grpc_service_port) args.debug_trace_shred (is_some d)
          ∷ report_metrics
          ∷ accessory args.metrics_report_interval_ms
          ∷ [])
      ++ optional P (λ (x : Text × ℕ). destination_refresh x.0 x.1 args.dest_ip_ports) d
      ++ optional P (λ port. server (0, port)) args.grpc_service_port
      ++ optional P prometheus args.prometheus_bind_addr

  assemble-Composed :
      (first : Option (HeartbeatArgs P)) (args : CommonArgs) (d : Option (Text × ℕ))
      → is_some d ≡ is_some args.endpoint_discovery_url
      → Composed (is_some first) args (assemble first args d)
  unfolding assemble
  assemble-Composed first args d e = record {
    beat = ground arith;
    served = ground arith;
    reconstructed = ground arith;
    refreshed = ground arith;
    polled = ground arith;
    reported = ground arith;
  }

  -- Once the checks have passed, both arguments of the refresh thread are there, or neither.
  refresh_thread-Validated :
      (args : CommonArgs) {r : Result StartError (Unit {0})}
      → Validated args r
      → r ≡ ok tt
      → (d : Option (Text × ℕ)) × (refresh_thread P args
          ≡ returns
              (optional P (λ (x : Text × ℕ). destination_refresh x.0 x.1 args.dest_ip_ports) d))
        × (use_discovery_service P args ≡ is_some d)
        × (is_some d ≡ is_some args.endpoint_discovery_url)
  unfolding refresh_thread use_discovery_service
  refresh_thread-Validated args (discovers url port u p) e =
      (some (url, port), rw (u, p) refl, rw (u, p) refl, rw u refl)
  refresh_thread-Validated args (fixed dest dests u p d) e = (none, rw u refl, rw u refl, rw u refl)
  refresh_thread-Validated args (url_without_port url u p) e = cc
  refresh_thread-Validated args (port_without_url port u p) e = cc
  refresh_thread-Validated args (nowhere u p d) e = cc

  start_forwarders-CanBind :
      (args : CommonArgs)
      → CanBind args
      → start_forwarders P args
        ≡ returns (
            forwarders
              (args.src_bind_addr, args.src_bind_port)
              (P.multicast_sockets args.multicast_device args.multicast_subscribe_port
                args.multicast_bind_ip)
              args.num_threads
              (is_some args.grpc_service_port)
              args.debug_trace_shred
              (use_discovery_service P args))
  unfolding start_forwarders
  start_forwarders-CanBind args b =
      let (spawned, started, listens) = Ensures-returns (
        start_forwarder_threads-Listens P.bind P.overflow_checks args.src_bind_addr
          args.src_bind_port
          (P.multicast_sockets args.multicast_device args.multicast_subscribe_port
            args.multicast_bind_ip)
          args.num_threads P.available_parallelism (is_some args.grpc_service_port) b.count
          b.sockets b.counted b.below b.binds) in
      rw started refl

  start_threads-Composed :
      (command : ProxySubcommands) (args : CommonArgs) (first : Option (HeartbeatArgs P))
      → CanBind args
      → heartbeat_thread P command ≡ returns (optional P heartbeat first)
      → validate args ≡ ok tt
      → Ensures (Composed (is_some first) args) (start_threads P command args)
  unfolding start_threads assemble
  start_threads-Composed command args first b e v =
      let (d, r, u, s) = refresh_thread-Validated args (validate-Validated args) v in
      rw (e, start_forwarders-CanBind args b, r, u) (ensures (assemble-Composed first args d s))

  warned_regions-returns :
      (regions : List Text) → (w : List Text) × (warned_regions P regions ≡ returns w)
  unfolding warned_regions
  warned_regions-returns [] = ([], refl)
  warned_regions-returns (a ∷ []) = ([], refl)
  warned_regions-returns (a ∷ b ∷ rest) = (_, refl)

  public_ip_or-Known :
      (public_ip : Option ℕ)
      → IpKnown public_ip
      → (ip : ℕ) × (public_ip_or P public_ip ≡ returns ip)
  unfolding public_ip_or get_public_ip
  public_ip_or-Known public_ip (given ip) = (ip, refl)
  public_ip_or-Known public_ip (fetched response ip e f) = (ip, rw (e, f) refl)

  heartbeat_thread-CanBeat :
      (args : ShredstreamArgs)
      → CanBeat args.auth_keypair args.common_args.public_ip
      → (h : HeartbeatArgs P) × (heartbeat_thread P (shredstream args) ≡ returns (heartbeat h ∷ []))
  unfolding start_heartbeat
  heartbeat_thread-CanBeat args b =
      let (w, e) = warned_regions-returns args.desired_regions in
      let (ip, f) = public_ip_or-Known _ b.known in
      (
        record {
          block_engine_url = args.block_engine_url;
          auth_url = unwrap_or args.auth_url args.block_engine_url;
          auth_keypair = b.keypair;
          desired_regions = args.desired_regions;
          recv_socket = (ip, args.common_args.src_bind_port);
        },
        rw (e, b.reads, f) refl,
      )

  -- What `main` gives in a mode that forwards: the error of the checks, or the composed threads.
  abbrev pub Forwards : Bool → CommonArgs → Result StartError (List (Thread P)) → Type 0
  Forwards beating args r =
      ((threads : List (Thread P)) × (validate args ≡ ok tt)
        × (r ≡ ok threads)
        × Composed beating args threads)
      ⊎ ((e : StartError) × (validate args ≡ err e) × (r ≡ err e))

  abbrev pub Expected : ProxySubcommands → Result StartError (List (Thread P)) → Type 0
  Expected (shredstream args) r = Forwards true args.common_args r
  Expected (forward_only args) r = Forwards false args r
  Expected (subscribe_only args) r =
      (h : HeartbeatArgs P) × (r ≡ ok (subscribe_heartbeat h ∷ []))
      × (h.recv_socket.1 ≡ args.dest_port)
      × (h.auth_url ≡ unwrap_or args.auth_url args.block_engine_url)

  set_up-IsUsable :
      (checks : Result StartError (Unit {0})) → IsUsable → set_up P checks ≡ returns checks
  unfolding set_up
  set_up-IsUsable (ok u) h = rw (h.named, h.handles, h.runs) refl
  set_up-IsUsable (err e) h = rw h.named refl

  forwards :
      (command : ProxySubcommands) (args : CommonArgs) (first : Option (HeartbeatArgs P))
      → IsUsable
      → CanBind args
      → heartbeat_thread P command ≡ returns (optional P heartbeat first)
      → Ensures
          (Forwards (is_some first) args)
          (set_up P (validate args) >>= if_ok P (start_threads P command args))
  forwards command args first h b e =
      rw (set_up-IsUsable (validate args) h) (elim (Result-cases (validate args)) [
        | inr (x, f) ↦ rw f (ensures (inr (x, f, refl)))
        | inl (u, f) ↦ rw f (
            Ensures-bind _ (start_threads-Composed command args first b e f)
              λ threads c. ensures (inl (threads, f, refl, c)))
      ])

  -- On a platform that lets a process and its threads start, with a keypair file that reads and a
  -- public address for the modes that send heartbeats, and with a known number of threads, a port
  -- that is not the last one and sockets that can be bound at it for those that forward, `main` never
  -- panics before it joins the threads. In
  -- a mode that forwards it returns the error of the checks, or starts threads that fit together:
  -- entries are reconstructed exactly if a thread serves them, the forwarders reload their
  -- destinations exactly if a thread refreshes them; else it starts one heartbeat for the given
  -- port.
  pub main-Expected :
      IsUsable
      → (command : ProxySubcommands) → NeedsOf command
      → Ensures (Expected command) (main P command)
  unfolding main run_subscribe_only_mode
  main-Expected h (shredstream args) b =
      let (t, e) = heartbeat_thread-CanBeat args b.0 in
      forwards (shredstream args) args.common_args (some t) h b.1 e
  main-Expected h (forward_only args) b = forwards (forward_only args) args none h b refl
  main-Expected h (subscribe_only args) b =
      let (w, e) = warned_regions-returns args.desired_regions in
      let (ip, f) = public_ip_or-Known _ b.known in
      rw (set_up-IsUsable (ok tt) h, e, b.reads, f) (ensures (_, refl, refl, refl))
