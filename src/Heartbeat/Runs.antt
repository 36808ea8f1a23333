-- ===== src/Heartbeat/Runs.antt =====
-- The heartbeat threads (proxy/src/heartbeat.rs) as runs of turns.
use shredstream_proxy.Common.{ℕ, ◌+◌, ◌%◌, ◌^◌, ◌≡◌, Bool, List, [], ◌∷◌, Outcome, returns, arith}
use shredstream_proxy.Heartbeat.{
  Phase, outer, inner, HeartbeatEvent, HeartbeatLoop, connect_turn, select_turn, SubscribeOnly,
  SubscribeEvent, subscribe_connect_turn, subscribe_turn,
}

-- A turn of either loop, with the value of `exit` that it reads.
pub data Turn (E : Type 0) : Type 0 where
  connecting : (exit connects : Bool) → Turn E
  selecting : (exit : Bool) → E → Turn E

-- The runs of a thread: each turn is one of the loop that the thread is in.
pub data Run {S E : Type 0} (phase : S → Phase) (connect : Bool → Bool → S → S)
    (select : Bool → E → S → Outcome S) : S → List (Turn E) → S → Type 0 where
  stop : {s : S} → Run phase connect select s [] s
  connect_then :
      {s t : S} {turns : List (Turn E)} (exit connects : Bool)
      → phase s ≡ outer
      → Run phase connect select (connect exit connects s) turns t
      → Run phase connect select s (connecting exit connects ∷ turns) t
  select_then :
      {s t u : S} {turns : List (Turn E)} (exit : Bool) (e : E)
      → phase s ≡ inner
      → select exit e s ≡ returns t
      → Run phase connect select t turns u
      → Run phase connect select s (selecting exit e ∷ turns) u

abbrev pub HeartbeatRun : HeartbeatLoop → List (Turn HeartbeatEvent) → HeartbeatLoop → Type 0
HeartbeatRun = Run (λ h. h.phase) connect_turn select_turn

abbrev pub SubscribeRun : SubscribeOnly → List (Turn SubscribeEvent) → SubscribeOnly → Type 0
SubscribeRun = Run (λ s. s.phase) subscribe_connect_turn subscribe_turn

abbrev pub total : {E : Type 0} → (Turn E → ℕ) → List (Turn E) → ℕ
total f [] = 0
total f (t ∷ rest) = f t + total f rest

pub value : {A : Type 0} {a b : A} → ◌≡◌ {A = Outcome A} (returns a) (returns b) → a ≡ b
value h = cc

-- What a run of either thread keeps, if its turns do.
module _ {S E : Type 0} (phase : S → Phase) (connect : Bool → Bool → S → S)
    (select : Bool → E → S → Outcome S) where
  pub Run-keeps :
      (P : S → Type 0)
      → ((exit connects : Bool) (s : S) → phase s ≡ outer → P s → P (connect exit connects s))
      → ((exit : Bool) (e : E) (s t : S)
          → phase s ≡ inner
          → P s
          → select exit e s ≡ returns t
          → P t)
      → {s t : S} {turns : List (Turn E)} → Run phase connect select s turns t
      → P s
      → P t
  Run-keeps P c k stop p = p
  Run-keeps P c k (connect_then {s = x} exit connects e r) p =
      Run-keeps P c k r (c exit connects x e p)
  Run-keeps P c k (select_then {s = x} {t = y} exit e q h r) p =
      Run-keeps P c k r (k exit e x y q p h)

  -- A count that grows by `f` with each turn, modulo 2 ^ 64.
  pub Run-total :
      (count : S → ℕ) (f : Turn E → ℕ)
      → ((exit connects : Bool) (s : S)
          → phase s ≡ outer
          → count (connect exit connects s) % 2 ^ 64
            ≡ (count s + f (connecting exit connects)) % 2 ^ 64)
      → ((exit : Bool) (e : E) (s t : S)
          → phase s ≡ inner
          → select exit e s ≡ returns t
          → count t % 2 ^ 64 ≡ (count s + f (selecting exit e)) % 2 ^ 64)
      → {s t : S} {turns : List (Turn E)} → Run phase connect select s turns t
      → count t % 2 ^ 64 ≡ (count s + total f turns) % 2 ^ 64
  Run-total count f c k stop = omega arith
  Run-total count f c k (connect_then {s = x} exit connects e r) =
      omega (arith, c exit connects x e, Run-total count f c k r)
  Run-total count f c k (select_then {s = x} {t = y} exit e q h r) =
      omega (arith, k exit e x y q h, Run-total count f c k r)
