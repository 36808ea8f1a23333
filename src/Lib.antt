-- ===== src/Lib.antt =====
-- A verification library for the shredstream proxy, which receives Solana shreds over UDP, forwards
-- them to a list of destinations, and reconstructs entries from them for gRPC subscribers.
--
-- The parts, and how they interact. A forwarder thread receives batches of packets; the batch handler
-- counts them, hands a copy to the reconstructor's channel, drops duplicates, and sends the rest to each
-- destination. The reconstructor thread calls `reconstruct_shreds` on each batch, which keeps a map from
-- slots to FEC sets and a tracker, and broadcasts the entries that it returns. The refresh thread renews
-- the destinations, the accessory thread resets the deduper and reports the counters, and a heartbeat
-- thread keeps the connection to the block engine, with a token that a refresh task renews. The server
-- passes the broadcast entries on to its subscribers, one task for each, and the prometheus server answers
-- scrapes. `main` checks the arguments, finds the multicast groups of a device, and starts the threads.
--
-- Which file models which code:
--   Common        helpers: panics as values (Outcomes), vectors (Lists), hash maps (Maps), sorting of the
--                 queue (Sorting, Dedup), Boolean tests (Tests), Subsequences
--   Ledger        the Solana crates' shred types, as an interface
--   Comparable    proxy/src/deshred.rs: `ComparableShred`
--   Tracker       proxy/src/deshred.rs: `ShredsStateTracker`, `update_state_tracker`
--   Segments      proxy/src/deshred.rs: `get_indexes`; Segments/Spec describes a segment on its own
--   FecInfo       proxy/src/deshred.rs: `get_data_shred_info`; Unordered takes it as a function of a set
--   Reconstruct   proxy/src/deshred.rs: `reconstruct_shreds`, whose four loops are Ingest, Recover, Deshred
--                 and Cleanup, composed in Whole; Remaining is `debug_remaining_shreds`;
--                 Held files have what is kept of all shreds that are held
--   Metrics       proxy/src/forwarder.rs: `ShredMetrics`
--   Prom          proxy/src/prom.rs: the calls, recorded as events; Registry is `register_metrics` and the
--                 metrics, Exposition the server's loop
--   Forwarder     proxy/src/forwarder.rs: Handle is `recv_from_channel_and_send_multiple_dest`, Destinations is
--                 `fetch_unioned_destinations` and its thread, Threads has the other loops
--                 and the spawning of their threads, Threads/Accessory the accessory thread;
--                 Pipeline runs the forwarders and the reconstructor on their channel
--   Heartbeat     proxy/src/heartbeat.rs: the turns of the two heartbeat loops
--   Auth          proxy/src/token_authenticator.rs: Refresh is `ClientInterceptor::new` and the thread that it
--                 spawns, Interceptor the use of the token, Channel `create_grpc_channel` and
--                 `get_grpc_client` (proxy/src/heartbeat.rs); Answers, Complete, Lasting and Kept have lemmas
--   Server        proxy/src/server.rs: the task of a subscriber and the loop of the server's thread; Carried
--                 puts it together with the pipeline
--   Multicast     proxy/src/multicast_config.rs: the parsers of texts; Routes reads the rows of `ip --json`,
--                 Sockets is `create_multicast_socket_on_device`; Decimal, Leads and Groups have
--                 lemmas
--   Arguments     proxy/src/main.rs: the arguments, their checks, `resolve_hostname_port`
--   Program       proxy/src/main.rs: `main` up to the joining of its threads, `run_subscribe_only_mode`,
--                 `start_heartbeat`; Shutdown is `shutdown_notifier` and the panic hook
--   Examples      an instance of the interfaces, the theorems at concrete inputs, and tests
--
-- How state and operations correspond. A struct or the variables of a loop are a record; `&mut` arguments
-- are passed and returned. Code that can panic (an index, a slice, `unwrap`) has results in `Outcome`, and
-- `Ensures P` says that it returns and that P holds of the result. A hash map is an association list, and a
-- hash set a list to which an element is added where it holds no equal one. Counters are values of `u64`
-- and wrap; shred indices and slots are natural numbers, and `saturating_sub` is their subtraction. A loop
-- over channels is a function of what the channels deliver, with the value of the exit flag at each turn,
-- and for a forwarder and the accessory thread also with what the other threads did to the shared state
-- since the last turn, a turn being one step; the pipeline is a function of a sequence of turns of its
-- threads; the heartbeat threads' runs and the states of the shutdown notifier are indexed data types. A fallible function has results in `Result`, a text is the list of its bytes, and an IP address
-- is a number, with its family where that counts. A time of the token refresh counts nanoseconds from the
-- earliest time that `SystemTime` holds.
--
-- Bounds and fuel. `find_end` counts the rounds that are left, `length - index` at the start, as many as
-- the vector has places; all other loops are structural.
--
-- Taken as parameters: parsing, recovery and deserialisation (`Codec`, with the sanitisation that
-- `CodecLaws` states), the derived equalities of headers (`EqLaws`), the deduper, the sockets and the
-- clock (`Wire`, `Env`), HTTP, JSON and name resolution (`Discovery`), tonic and prost_types (`Rpc`,
-- `Transport`), the auth service (`AuthService`), the program `ip`, its JSON and the parser of IPv6
-- addresses (`Multicast.Routes.Host`), the answers of the multicast sockets (`Net`), what the start of
-- the process meets (`Platform`), and the prometheus crate (`Prometheus`, with `PrometheusLaws`). The
-- broadcast channel of tokio is described by `Receives`.
--
-- Not modelled: sockets, threads' creation and logging; the parsing of the command line by clap;
-- the metrics' float values and help texts; the serving of gRPC, which is tonic's; the
-- formatting of the reports of FEC sets.
pub mod Common
pub mod Ledger
pub mod Comparable
pub mod Tracker
pub mod Segments
pub mod FecInfo
pub mod Metrics
pub mod Reconstruct
pub mod Prom
pub mod Forwarder
pub mod Heartbeat
pub mod Auth
pub mod Server
pub mod Multicast
pub mod Arguments
pub mod Program
pub mod Examples
