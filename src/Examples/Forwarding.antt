-- ===== src/Examples/Forwarding.antt =====
-- The theorems on the forwarder at a concrete input.
use shredstream_proxy.Common.{
  Option, arith, inl, inr, Bool, ℕ, ◌≡◌, ◌%◌, ◌^◌, ◌+◌, refl, true, false, none, some, List, [],
  ◌∷◌, map, Ensures, contains,
}
use shredstream_proxy.Examples.Toy.{no_metrics, toy_batch, toy_wire, toy_env}
use shredstream_proxy.Forwarder.{Forwarder, SocketAddr}
use shredstream_proxy.Forwarder.Handle.{recv_from_channel_and_send_multiple_dest}
use shredstream_proxy.Forwarder.Handle.{store_stats}
use shredstream_proxy.Forwarder.Handle.Sources.{counts_at, count_from, store_stats_lem}
use shredstream_proxy.Forwarder.Handle.Delivery.{Forwards, recv-Forwards}
use shredstream_proxy.Forwarder.Handle.Counters.{
  Counts, CountsDuplicates, recv-Counts, recv-CountsDuplicates,
}
use shredstream_proxy.Forwarder.Destinations.{Discovery, Refresh, refresh_loop}
use shredstream_proxy.Forwarder.Destinations.Refreshed
use shredstream_proxy.Forwarder.Destinations.Refreshed.{
  fetch, report, stop, event, Destinations, refresh_loop-Destinations,
}
use shredstream_proxy.Forwarder.Threads.{forwarder_threads, packets, refresh_subscribers}
use shredstream_proxy.Forwarder.Threads.Loop.{
  Meanwhile, Turn, start_forwarder, forwarder_loop, Sends, forwarder_loop-Sends,
}
use shredstream_proxy.Forwarder.Threads.Spawn.{
  Listens, start_forwarder_threads, start_forwarder_threads-Listens,
}

abbrev toy_forwarder : Forwarder toy_wire
toy_forwarder = record {
  deduper = 0;
  metrics = no_metrics;
  prom = [];
  reconstruct_queue = [];
  outbox = [];
  traces = [];
}

abbrev toy_dests : List SocketAddr
toy_dests = (1, 20001) ∷ (2, 20001) ∷ []

recv-Forwards_example :
    Ensures
      (λ r. Forwards toy_wire true toy_dests toy_batch toy_forwarder r.0 × (r.1 ≡ true))
      (recv_from_channel_and_send_multiple_dest toy_wire toy_env true true toy_dests
        (some toy_batch)
        toy_forwarder)
recv-Forwards_example =
    recv-Forwards toy_wire toy_env true true toy_dests toy_batch toy_forwarder (λ e t h. cc)

store_stats_lem_example :
    let c = counts_at 2 no_metrics.packets_received in
    let c' = counts_at 2 (store_stats toy_wire toy_batch toy_forwarder).metrics.packets_received in
    (c'.0 % 2 ^ 64 ≡ (c.0 + count_from toy_wire 2 true toy_batch) % 2 ^ 64)
    × (c'.1 % 2 ^ 64 ≡ (c.1 + count_from toy_wire 2 false toy_batch) % 2 ^ 64)
store_stats_lem_example = store_stats_lem toy_wire 2 toy_batch toy_forwarder

recv-Counts_example :
    Ensures
      (λ r. Counts toy_wire toy_dests toy_batch toy_forwarder r.0)
      (recv_from_channel_and_send_multiple_dest toy_wire toy_env true true toy_dests
        (some toy_batch)
        toy_forwarder)
recv-Counts_example =
    recv-Counts toy_wire toy_env true true toy_dests toy_batch toy_forwarder (λ e t h. cc)

recv-CountsDuplicates_example :
    Ensures
      (λ r. CountsDuplicates toy_wire toy_dests toy_batch toy_forwarder r.0)
      (recv_from_channel_and_send_multiple_dest toy_wire toy_env true true toy_dests
        (some toy_batch)
        toy_forwarder)
recv-CountsDuplicates_example =
    recv-CountsDuplicates toy_wire toy_env true true toy_dests toy_batch toy_forwarder (λ e t h. cc)
      (λ d p. refl)

-- Another thread resets the deduper between the turns.
abbrev toy_meanwhile : Meanwhile toy_wire
toy_meanwhile = record { deduper = 0; metrics = no_metrics; prom = []; reconstruct_queue = [] }

abbrev toy_turns : List (Turn toy_wire)
toy_turns =
    (false, toy_meanwhile, packets toy_env 10 (some toy_batch))
    ∷ (false, toy_meanwhile, refresh_subscribers ((3, 20001) ∷ []))
    ∷ (false, toy_meanwhile, packets toy_env 10 (some toy_batch))
    ∷ (true, toy_meanwhile, packets toy_env 10 (some toy_batch))
    ∷ []

forwarder_loop-Sends_example :
    Ensures
      (Sends toy_wire toy_dests toy_turns (start_forwarder toy_wire toy_dests toy_forwarder))
      (forwarder_loop toy_wire true true toy_turns
        (start_forwarder toy_wire toy_dests toy_forwarder))
forwarder_loop-Sends_example =
    forwarder_loop-Sends toy_wire true true toy_turns
      (start_forwarder toy_wire toy_dests toy_forwarder) (λ e t h. cc) refl

-- The port is free, and sockets are numbered.
abbrev toy_bind : ℕ → ℕ × ℕ → ℕ → Option (List ℕ)
toy_bind addr range n = some (7 ∷ 8 ∷ [])

start_forwarder_threads-Listens_example :
    Ensures
      (λ r. Listens {Socket = ℕ} (7 ∷ 8 ∷ 9 ∷ []) true r.0 r.1)
      (start_forwarder_threads toy_bind true 0 20000 (some (9 ∷ [])) none (some 2) true)
unfolding forwarder_threads
start_forwarder_threads-Listens_example =
    start_forwarder_threads-Listens toy_bind true 0 20000 (some (9 ∷ [])) none (some 2) true 2
      (7 ∷ 8 ∷ []) refl (omega arith) refl

-- Discovery answers with an address, with nothing, and again.
abbrev toy_discovery : Discovery
toy_discovery = record {
  Body = ℕ;
  Host = ℕ;
  get = none;
  from_slice = λ b. some (b ∷ []);
  resolve = λ h. none;
}

abbrev toy_static : List (SocketAddr × ℕ)
toy_static = ((1, 20001), 1) ∷ ((2, 20001), 2) ∷ []

abbrev toy_fetches : List (Bool × Refreshed.Turn toy_discovery 20001 toy_static)
toy_fetches =
    (false, fetch (record { get = some 9; resolve = λ h. some (h, 20001) }))
    ∷ (false, report)
    ∷ (false, fetch (record { get = none; resolve = λ h. some (h, 20001) }))
    ∷ (true, stop)
    ∷ []

abbrev toy_refresh : Refresh
toy_refresh = record { socket_count = 2; unioned_dest_sockets = toy_dests; running = true }

refresh_loop-Destinations_example :
    let r' = refresh_loop toy_refresh (map (event toy_discovery 20001 toy_static) toy_fetches) in
    Destinations toy_discovery 20001 toy_static toy_refresh r'
    × (contains (2, 20001) r'.unioned_dest_sockets ≡ true)
refresh_loop-Destinations_example =
    refresh_loop-Destinations toy_discovery 20001 toy_static (2, 20001) toy_fetches toy_refresh
      (inr (inl refl), (tt, (inr (inl refl), (tt, tt)))) refl refl
