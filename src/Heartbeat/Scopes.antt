-- ===== src/Heartbeat/Scopes.antt =====
-- The exit flags of connections in the heartbeat threads (proxy/src/heartbeat.rs).
use shredstream_proxy.Common.{
  ℕ, ◌≤◌, ◌≡◌, refl, sym, subst, inl, inr, Bool, true, false, List, [], ◌∷◌, returns, All, add_u64,
  ltb, ◌==◌, Bool-cases, arith,
}
use shredstream_proxy.Heartbeat.{
  Phase, outer, inner, finished, HeartbeatEvent, heartbeat_tick, metrics_tick, shutdown, accepted,
  invalid_argument, other_status, HeartbeatLoop, open_scope, drop_scope, leave, connect_turn,
  metrics_turn, select_turn, SubscribeOnly, SubscribeEvent, subscribe_tick, subscribe_shutdown,
  leave_subscribed, subscribe_connect_turn, fail_turn, subscribe_turn,
}
use shredstream_proxy.Heartbeat.Runs.{Turn, HeartbeatRun, SubscribeRun, Run-keeps, value}

-- Every flag is set but that of the connection in use.
abbrev pub IsScoped : Phase → List Bool → Type 0
IsScoped inner [] = ⊥
IsScoped inner (flag ∷ flags) = (flag ≡ false) × All (λ f. f ≡ true) flags
IsScoped outer flags = All (λ f. f ≡ true) flags
IsScoped finished flags = All (λ f. f ≡ true) flags

drop_scope-IsScoped : (flags : List Bool) → IsScoped inner flags → IsScoped outer (drop_scope flags)
unfolding drop_scope
drop_scope-IsScoped [] p = absurd p
drop_scope-IsScoped (flag ∷ flags) p = (refl, p.1)

abbrev pub LoopScoped : HeartbeatLoop → Type 0
LoopScoped h = IsScoped h.phase h.flags

leave-LoopScoped : (h : HeartbeatLoop) → IsScoped inner h.flags → LoopScoped (leave h)
unfolding leave
leave-LoopScoped h p = drop_scope-IsScoped h.flags p

connect_turn-LoopScoped :
    (exit connects : Bool) (h : HeartbeatLoop)
    → h.phase ≡ outer
    → LoopScoped h
    → LoopScoped (connect_turn exit connects h)
unfolding connect_turn leave open_scope drop_scope
connect_turn-LoopScoped true connects h e p = subst (λ x. IsScoped x h.flags) e p
connect_turn-LoopScoped false true h e p = (refl, subst (λ x. IsScoped x h.flags) e p)
connect_turn-LoopScoped false false h e p = (refl, subst (λ x. IsScoped x h.flags) e p)

metrics_turn-LoopScoped :
    (n : ℕ) (h : HeartbeatLoop) → h.phase ≡ inner → LoopScoped h → LoopScoped (metrics_turn n h)
unfolding metrics_turn
metrics_turn-LoopScoped n h e p = elim (Bool-cases (n == h.last_cumulative_received_shred_count)) [
  | inl stale ↦ rw stale (leave-LoopScoped h (subst (λ x. IsScoped x h.flags) e p))
  | inr live ↦ rw live p
]

select_turn-LoopScoped :
    (exit : Bool) (e : HeartbeatEvent) (h t : HeartbeatLoop)
    → h.phase ≡ inner
    → LoopScoped h
    → select_turn exit e h ≡ returns t
    → LoopScoped t
unfolding select_turn
select_turn-LoopScoped true e h t q p r =
    subst LoopScoped (value r) (leave-LoopScoped h (subst (λ x. IsScoped x h.flags) q p))
select_turn-LoopScoped false (heartbeat_tick (accepted ttl)) h t q p r =
    subst LoopScoped (value r) p
select_turn-LoopScoped false (heartbeat_tick invalid_argument) h t q p r = cc
select_turn-LoopScoped false (heartbeat_tick other_status) h t q p r = subst LoopScoped (value r) p
select_turn-LoopScoped false (metrics_tick n) h t q p r =
    subst LoopScoped (value r) (metrics_turn-LoopScoped n h q p)
select_turn-LoopScoped false shutdown h t q p r =
    subst LoopScoped (value r) (leave-LoopScoped h (subst (λ x. IsScoped x h.flags) q p))

-- Over any run of the heartbeat thread, if at its start then also at its end, the exit flags of all
-- connections are set but that of the one in use, which is unset; where none is in use, all are set.
pub HeartbeatRun-LoopScoped :
    {h t : HeartbeatLoop} {turns : List (Turn HeartbeatEvent)}
    → HeartbeatRun h turns t
    → LoopScoped h
    → LoopScoped t
HeartbeatRun-LoopScoped r p =
    Run-keeps (λ h. h.phase) connect_turn select_turn LoopScoped connect_turn-LoopScoped
      select_turn-LoopScoped r p

-- The subscribe-only thread: its flags, and no connection with six failures.
abbrev pub IsPatient : SubscribeOnly → Type 0
IsPatient s = IsScoped s.phase s.flags × (s.failed_heartbeat_count ≤ 5)

leave_subscribed-IsPatient :
    (s : SubscribeOnly) → IsScoped inner s.flags → IsPatient (leave_subscribed s)
unfolding leave_subscribed
leave_subscribed-IsPatient s p = (drop_scope-IsScoped s.flags p, omega arith)

subscribe_connect_turn-IsPatient :
    (exit connects : Bool) (s : SubscribeOnly)
    → s.phase ≡ outer
    → IsPatient s
    → IsPatient (subscribe_connect_turn exit connects s)
unfolding subscribe_connect_turn open_scope drop_scope
subscribe_connect_turn-IsPatient true connects s e p = (subst (λ x. IsScoped x s.flags) e p.0, p.1)
subscribe_connect_turn-IsPatient false true s e p =
    ((refl, subst (λ x. IsScoped x s.flags) e p.0), omega arith)
subscribe_connect_turn-IsPatient false false s e p = (
  subst (λ x. IsScoped x (true ∷ s.flags)) (sym e) (refl, subst (λ x. IsScoped x s.flags) e p.0),
  p.1,
)

fail_turn-IsPatient :
    (s : SubscribeOnly) → IsScoped inner s.flags → IsPatient s → IsPatient (fail_turn s)
unfolding fail_turn
fail_turn-IsPatient s q p = elim (Bool-cases (ltb 5 (add_u64 s.failed_heartbeat_count 1))) [
  | inl many ↦ rw many (
      leave_subscribed-IsPatient
        (record s { failed_heartbeat_count = add_u64 s.failed_heartbeat_count 1 }) q)
  | inr few ↦ rw few (p.0, ground arith)
]

subscribe_turn-IsPatient :
    (exit : Bool) (e : SubscribeEvent) (s t : SubscribeOnly)
    → s.phase ≡ inner
    → IsPatient s
    → subscribe_turn exit e s ≡ returns t
    → IsPatient t
unfolding subscribe_turn
subscribe_turn-IsPatient true e s t q p r =
    subst IsPatient (value r) (leave_subscribed-IsPatient s (subst (λ x. IsScoped x s.flags) q p.0))
subscribe_turn-IsPatient false (subscribe_tick (accepted ttl)) s t q p r =
    subst IsPatient (value r) p
subscribe_turn-IsPatient false (subscribe_tick invalid_argument) s t q p r = cc
subscribe_turn-IsPatient false (subscribe_tick other_status) s t q p r =
    subst IsPatient (value r) (fail_turn-IsPatient s (subst (λ x. IsScoped x s.flags) q p.0) p)
subscribe_turn-IsPatient false subscribe_shutdown s t q p r =
    subst IsPatient (value r) (leave_subscribed-IsPatient s (subst (λ x. IsScoped x s.flags) q p.0))

-- Over any run of the subscribe-only thread, if at its start then also at its end, at most five
-- heartbeats of a connection in use have failed, and the exit flags of all connections are set but
-- that of the one in use, which is unset.
pub SubscribeRun-IsPatient :
    {s t : SubscribeOnly} {turns : List (Turn SubscribeEvent)}
    → SubscribeRun s turns t
    → IsPatient s
    → IsPatient t
SubscribeRun-IsPatient r p =
    Run-keeps (λ s. s.phase) subscribe_connect_turn subscribe_turn IsPatient
      subscribe_connect_turn-IsPatient subscribe_turn-IsPatient r p
