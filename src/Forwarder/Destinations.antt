-- ===== src/Forwarder/Destinations.antt =====
-- proxy/src/forwarder.rs: `fetch_unioned_destinations` and `start_destination_refresh_thread`.
pub mod Union
pub mod Refreshed
use shredstream_proxy.Common.{
  ℕ, Bool, true, false, not, Option, none, some, List, [], ◌∷◌, ◌++◌, map, length, if◌then◌else◌,
  contains,
}
use shredstream_proxy.Forwarder.{SocketAddr}

-- What discovery reads: the HTTP body, the JSON list of addresses, and host name resolution.
pub record Discovery : Type 1 where
  pub Body : Type 0
  pub Host : Type 0
  -- `reqwest::blocking::get(url)?.bytes()?`; `none` is an error
  pub get : Option Body
  -- `serde_json::from_slice::<Vec<IpAddr>>`
  pub from_slice : Body → Option (List ℕ)
  -- `resolve_hostname_port(..).ok()?.0`
  pub resolve : Host → Option SocketAddr

pub data FetchError : Type 0 where
  reqwest_error serde_json_error : FetchError

pub data Fetched : Type 0 where
  ok : List SocketAddr → Fetched
  err : FetchError → Fetched

-- `Itertools::unique`, with the elements seen so far.
unfoldable pub unique_from : List SocketAddr → List SocketAddr → List SocketAddr
unique_from seen [] = []
unique_from seen (x ∷ xs) =
    let skipped = unique_from seen xs in
    let kept = x ∷ unique_from (x ∷ seen) xs in if contains x seen then skipped else kept

-- `filter_map` over the static destinations, which are resolved again.
unfoldable pub resolve_all {ℓ} :
    {H : Type ℓ} → (H → Option SocketAddr) → List (SocketAddr × H) → List SocketAddr
resolve_all resolve [] = []
resolve_all resolve ((addr, host) ∷ rest) = elim (resolve host) [
  | none ↦ resolve_all resolve rest
  | some a ↦ a ∷ resolve_all resolve rest
]

-- The discovered addresses at the given port, and then the static ones, each once.
unfoldable pub union_destinations : ℕ → List ℕ → List SocketAddr → List SocketAddr
unfolding unique_from
union_destinations port ips static = unique_from [] (map (λ ip. (ip, port)) ips ++ static)

module _ (D : Discovery) where
  pub fetch_parsed : ℕ → List (SocketAddr × D.Host) → Option (List ℕ) → Fetched
  unfolding union_destinations resolve_all
  fetch_parsed port static none = err serde_json_error
  fetch_parsed port static (some ips) =
      ok (union_destinations port ips (resolve_all D.resolve static))

  pub fetch_body : ℕ → List (SocketAddr × D.Host) → Option D.Body → Fetched
  unfolding fetch_parsed
  fetch_body port static none = err reqwest_error
  fetch_body port static (some b) = fetch_parsed port static (D.from_slice b)

  unfoldable pub fetch_unioned_destinations : ℕ → List (SocketAddr × D.Host) → Fetched
  unfolding fetch_body
  fetch_unioned_destinations discovered_endpoints_port static_dest_sockets =
      fetch_body discovered_endpoints_port static_dest_sockets D.get

-- The refresh thread: its local count, and the destinations that it shares with the forwarders.
pub record Refresh : Type 0 where
  pub socket_count : ℕ
  pub unioned_dest_sockets : List SocketAddr
  pub running : Bool

-- What its `select!` receives; a fetch comes with its result.
pub data RefreshEvent : Type 0 where
  fetch_socket_tick : Fetched → RefreshEvent
  metrics_tick : RefreshEvent
  shutdown : RefreshEvent

pub refresh_fetched : Refresh → Fetched → Refresh
refresh_fetched r (err e) = r
refresh_fetched r (ok sockets) = record r {
  socket_count = length sockets;
  unioned_dest_sockets = sockets;
}

unfoldable pub refresh_step : Refresh → RefreshEvent → Refresh
unfolding refresh_fetched
refresh_step r (fetch_socket_tick f) = refresh_fetched r f
refresh_step r metrics_tick = r
refresh_step r shutdown = record r { running = false }

-- The `while` loop over the events it receives; the exit flag is read before each.
unfoldable pub refresh_loop : Refresh → List (Bool × RefreshEvent) → Refresh
unfolding refresh_step
refresh_loop r [] = r
refresh_loop r ((exit, e) ∷ rest) =
    let stopped = record r { running = false } in
    let next = refresh_loop (refresh_step r e) rest in
    if not r.running then r else if exit then stopped else next
