-- ===== src/Forwarder/Destinations/Refreshed.antt =====
-- The destinations over a run of the refresh thread (proxy/src/forwarder.rs,
-- `start_destination_refresh_thread`), each fetch with its own answers.
use shredstream_proxy.Common.{
  ℕ, ◌≡◌, refl, sym, subst, ◌∙◌, ◌⊎◌, inl, inr, Bool, true, false, not, Option, some, List, [], ◌∷◌,
  map, length, if◌then◌else◌, Option-cases, contains, All, Any, arith,
}
use shredstream_proxy.Forwarder.{SocketAddr}
use shredstream_proxy.Forwarder.Destinations.{
  Discovery, ok, resolve_all, union_destinations, fetch_parsed, fetch_body,
  fetch_unioned_destinations, Refresh, RefreshEvent, fetch_socket_tick, metrics_tick, shutdown,
  refresh_fetched, refresh_step, refresh_loop,
}
use shredstream_proxy.Forwarder.Destinations.Union.{IsUnique, union_destinations_lem}

module _ (D : Discovery) (port : ℕ) (static : List (SocketAddr × D.Host)) where
  -- What the discovery service and the name resolution answer at one fetch.
  pub record Answers : Type 0 where
    pub get : Option D.Body
    pub resolve : D.Host → Option SocketAddr

  pub data Turn : Type 0 where
    fetch : Answers → Turn
    report : Turn
    stop : Turn

  abbrev pub event_of : Turn → RefreshEvent
  event_of (fetch a) =
      fetch_socket_tick
        (fetch_unioned_destinations (record D { get = a.get; resolve = a.resolve }) port static)
  event_of report = metrics_tick
  event_of stop = shutdown

  abbrev pub event : Bool × Turn → Bool × RefreshEvent
  event t = (t.0, event_of t.1)

  -- A static destination that resolves to the address at each fetch.
  abbrev pub Resolves : SocketAddr → Bool × Turn → Type 0
  Resolves addr (exit, fetch a) = Any (λ x. a.resolve x.1 ≡ some addr) static
  Resolves addr (exit, report) = Unit
  Resolves addr (exit, stop) = Unit

  -- What the thread shares at the end of a run from `r`.
  pub record Destinations (r r' : Refresh) : Type 0 where
    pub counted : r'.socket_count ≡ length r'.unioned_dest_sockets
    pub unique :
        (r'.unioned_dest_sockets ≡ r.unioned_dest_sockets) ⊎ IsUnique r'.unioned_dest_sockets

  resolve_all-contains :
      (resolve : D.Host → Option SocketAddr) (xs : List (SocketAddr × D.Host)) (addr : SocketAddr)
      → Any (λ x. resolve x.1 ≡ some addr) xs
      → contains addr (resolve_all resolve xs) ≡ true
  unfolding resolve_all
  resolve_all-contains resolve [] addr h = absurd h
  resolve_all-contains resolve ((a, host) ∷ xs) addr (inl e) = ground (arith, e)
  resolve_all-contains resolve ((a, host) ∷ xs) addr (inr h) =
      let rest = resolve_all-contains resolve xs addr h in
      elim (Option-cases (resolve host)) [
        | inl e ↦ ground (arith, e, rest)
        | inr (b, e) ↦ ground (arith, e, rest)
      ]

  -- The state after one turn, against the one before.
  abbrev Kept : SocketAddr → Refresh → Refresh → Type 0
  Kept addr r r' = Destinations r r' × (contains addr r'.unioned_dest_sockets ≡ true)

  stored-Kept :
      (addr : SocketAddr) (r : Refresh) (ips : List ℕ) (resolve : D.Host → Option SocketAddr)
      → Any (λ x. resolve x.1 ≡ some addr) static
      → Kept addr r
          (refresh_fetched r (ok (union_destinations port ips (resolve_all resolve static))))
  unfolding refresh_fetched
  stored-Kept addr r ips resolve h =
      let all = union_destinations_lem port ips (resolve_all resolve static) in
      (
        record { counted = refl; unique = inr all.0 },
        ground (arith, all.1 addr, resolve_all-contains resolve static addr h),
      )

  same-Kept :
      (addr : SocketAddr) (r : Refresh) (running : Bool)
      → r.socket_count ≡ length r.unioned_dest_sockets
      → contains addr r.unioned_dest_sockets ≡ true
      → Kept addr r (record r { running = running })
  same-Kept addr r running c h = (record { counted = c; unique = inl refl }, h)

  fetched-Kept :
      (addr : SocketAddr) (r : Refresh) (a : Answers)
      → r.socket_count ≡ length r.unioned_dest_sockets
      → contains addr r.unioned_dest_sockets ≡ true
      → Any (λ x. a.resolve x.1 ≡ some addr) static
      → Kept addr r (refresh_step r (event_of (fetch a)))
  unfolding refresh_step refresh_fetched fetch_unioned_destinations fetch_body fetch_parsed
  fetched-Kept addr r a c k h = elim (Option-cases a.get) [
    | inl e ↦ rw e (same-Kept addr r r.running c k)
    | inr (body, e) ↦ rw e (elim (Option-cases (D.from_slice body)) [
      | inl f ↦ rw f (same-Kept addr r r.running c k)
      | inr (ips, f) ↦ rw f (stored-Kept addr r ips a.resolve h)
    ])
  ]

  turn-Kept :
      (addr : SocketAddr) (r : Refresh) (exit : Bool) (t : Turn)
      → Resolves addr (exit, t)
      → r.socket_count ≡ length r.unioned_dest_sockets
      → contains addr r.unioned_dest_sockets ≡ true
      → Kept addr r (refresh_step r (event_of t))
  unfolding refresh_step
  turn-Kept addr r exit (fetch a) h c k = fetched-Kept addr r a c k h
  turn-Kept addr r exit report h c k = same-Kept addr r r.running c k
  turn-Kept addr r exit stop h c k = same-Kept addr r false c k

  Kept-trans : (addr : SocketAddr) (r s t : Refresh) → Kept addr r s → Kept addr s t → Kept addr r t
  Kept-trans addr r s t p q = (
    record {
      counted = q.0.counted;
      unique = elim q.0.unique [
        | inl same ↦ elim p.0.unique [
          | inl same' ↦ inl (same ∙ same')
          | inr u ↦ inr (subst IsUnique (sym same) u)
        ]
        | inr u ↦ inr u
      ];
    },
    q.1,
  )

  -- Over any run of the refresh thread, whatever the discovery service answers: the count reported
  -- is that of the shared destinations; these are the ones of the start or hold no address twice;
  -- and an address among those of the start, to which a static destination resolves at each fetch,
  -- is among them.
  pub refresh_loop-Destinations :
      (addr : SocketAddr) (turns : List (Bool × Turn)) (r : Refresh)
      → All (Resolves addr) turns
      → r.socket_count ≡ length r.unioned_dest_sockets
      → contains addr r.unioned_dest_sockets ≡ true
      → Destinations r (refresh_loop r (map event turns))
        × (contains addr (refresh_loop r (map event turns)).unioned_dest_sockets ≡ true)
  unfolding refresh_loop
  refresh_loop-Destinations addr [] r h c k = same-Kept addr r r.running c k
  refresh_loop-Destinations addr ((exit, t) ∷ rest) r h c k =
      let s = refresh_step r (event_of t) in
      let p = turn-Kept addr r exit t h.0 c k in
      let next = refresh_loop-Destinations addr rest s h.1 p.0.counted p.1 in
      choose (λ r'. Kept addr r r') r.running exit (same-Kept addr r r.running c k)
        (same-Kept addr r false c k) (Kept-trans addr r s _ p next)
    where
      choose :
          (P : Refresh → Type 0) {idle stopped next : Refresh} (running exit : Bool)
          → P idle
          → P stopped
          → P next
          → P (if not running then idle else if exit then stopped else next)
      choose P true true i s n = s
      choose P true false i s n = n
      choose P false exit i s n = i
