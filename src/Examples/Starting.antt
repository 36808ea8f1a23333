-- ===== src/Examples/Starting.antt =====
-- The theorems on the program's start and its end at concrete arguments.
use shredstream_proxy.Common.{ℕ, ◌≡◌, refl, true, false, ◌⊎◌, some, none, [], ◌∷◌, Ensures, arith}
use shredstream_proxy.Arguments.{CommonArgs, ShredstreamArgs, shredstream, validate}
use shredstream_proxy.Program.{Platform, main}
use shredstream_proxy.Arguments.Validation.{Validated, validate-Validated}
use shredstream_proxy.Program.Started.{Expected, given, main-Expected}
use shredstream_proxy.Program.Shutdown.{
  before_start, on_signal, receive_one, send_one, hook_sends, Step, signal, Reachable, begins,
  steps, Reachable-Served,
}

abbrev toy_args : CommonArgs
toy_args = record {
  src_bind_addr = 0;
  src_bind_port = 20000;
  multicast_bind_ip = none;
  multicast_device = [];
  multicast_subscribe_port = 20001;
  dest_ip_ports = [];
  endpoint_discovery_url = some (104 ∷ []);
  discovered_endpoints_port = some 8001;
  metrics_report_interval_ms = 15000;
  debug_trace_shred = false;
  grpc_service_port = some 9000;
  public_ip = some 3;
  num_threads = none;
  coalesce_ms = 0;
  prometheus_bind_addr = none;
}

abbrev toy_shredstream : ShredstreamArgs
toy_shredstream = record {
  block_engine_url = 104 ∷ [];
  auth_url = none;
  auth_keypair = [];
  desired_regions = (97 ∷ []) ∷ (98 ∷ []) ∷ (99 ∷ []) ∷ [];
  common_args = toy_args;
}

abbrev toy_platform : Platform
toy_platform = record {
  Keypair = ℕ;
  read_keypair_file = λ path. some 1;
  ifconfig = none;
  parse_ip = λ text. none;
  multicast_sockets = λ device port ip. none;
  bind = λ addr range n. some [];
  available_parallelism = some 8;
  overflow_checks = true;
  hostname = some (some []);
  signal_handlers = true;
  runtime = true;
}

validate-Validated_example : Validated toy_args (validate toy_args)
validate-Validated_example = validate-Validated toy_args

main-Expected_example :
    Ensures
      (Expected toy_platform (shredstream toy_shredstream))
      (main toy_platform (shredstream toy_shredstream))
unfolding shredstream_proxy.Forwarder.Threads.forwarder_threads
main-Expected_example =
    main-Expected toy_platform (record { name = []; named = refl; handles = refl; runs = refl })
      (shredstream toy_shredstream)
      (
        record { keypair = 1; reads = refl; known = given 3 },
        record { count = 4; counted = refl; below = omega arith; sockets = []; binds = refl },
      )

toy_signalled : Reachable (on_signal before_start)
toy_signalled = steps begins (signal refl)

Reachable-Served_example :
    ((on_signal before_start).exit ≡ true)
    × ((Step (on_signal before_start) (receive_one (on_signal before_start)))
        ⊎ (Step (on_signal before_start) (send_one (on_signal before_start)))
        ⊎ (Step (on_signal before_start) (hook_sends (on_signal before_start))))
unfolding on_signal
Reachable-Served_example = Reachable-Served toy_signalled (omega arith) (omega arith)
