-- ===== src/Forwarder/Threads/Accessory/Reported.antt =====
-- What the accessory thread (proxy/src/forwarder.rs) reports of the counters of the connection.
use shredstream_proxy.Common.{
  ◌∙◌, ap, sym, subst, Bool-cases, inl, inr, ℕ, ◌+◌, ◌%◌, ◌^◌, ◌≡◌, refl, Bool, true, false, List,
  [], ◌∷◌, if◌then◌else◌, arith,
}
use shredstream_proxy.Metrics.{ShredMetrics, report}
use shredstream_proxy.Metrics.Reports.{
  Counter, received_count, success_count, fail_count, duplicate_count, current, cumulative,
  reported, reported-append, report-Reports, reset_lem,
}
use shredstream_proxy.Forwarder.Threads.Accessory.{
  Accessory, Counted, add_counted, AccessoryEvent, deduper_reset_tick, shutdown_signal,
  metrics_tick, Turn, interfere, accessory_step, accessory_loop,
}

abbrev pub counted_of : Counter → Counted → ℕ
counted_of received_count c = c.received
counted_of success_count c = c.success_forward
counted_of fail_count c = c.fail_forward
counted_of duplicate_count c = c.duplicate

-- What was counted between a `report` and its `reset`.
abbrev pub between : Counter → AccessoryEvent → ℕ
between c deduper_reset_tick = 0
between c shutdown_signal = 0
between c (metrics_tick b) = counted_of c b

abbrev pub stops : AccessoryEvent → Bool
stops deduper_reset_tick = false
stops shutdown_signal = true
stops (metrics_tick b) = false

-- All that is counted in the turns that a running thread takes, and what of it is counted between a
-- `report` and its `reset`; and whether the thread is still running then.
module _ {Deduper : Type 0} where
  abbrev pub counts : Counter → List (Turn Deduper) → ℕ
  counts c [] = 0
  counts c (t ∷ rest) =
      if t.exit
      then 0
      else counted_of c t.counted + between c t.event + (if stops t.event then 0 else counts c rest)

  abbrev pub unreported : Counter → List (Turn Deduper) → ℕ
  unreported c [] = 0
  unreported c (t ∷ rest) =
      if t.exit then 0 else between c t.event + (if stops t.event then 0 else unreported c rest)

  abbrev pub goes_on : List (Turn Deduper) → Bool
  goes_on [] = true
  goes_on (t ∷ rest) = if t.exit then false else if stops t.event then false else goes_on rest

counted-current :
    (c : Counter) (o : Counted) (m : ShredMetrics)
    → (current c (add_counted o m) ≡ (current c m + counted_of c o) % 2 ^ 64)
      × (cumulative c (add_counted o m) ≡ cumulative c m)
unfolding add_counted
counted-current received_count o m = (refl, refl)
counted-current success_count o m = (refl, refl)
counted-current fail_count o m = (refl, refl)
counted-current duplicate_count o m = (refl, refl)

-- The body of a loop that runs.
branch :
    {S : Type 0} (P : S → Type 0) {body : S} (idle : S) (running : Bool)
    → running ≡ true
    → P body
    → P (if running then body else idle)
branch P idle true on p = p
branch P idle false on p = cc

module _ {Deduper : Type 0} (maybe_reset : Deduper → Deduper) where
  -- From `a` to `a'`: what was counted is in the counters, and what of it is in a cumulative counter
  -- was reported, but for the part that is given.
  pub record Accounts (c : Counter) (counted missed : ℕ) (a a' : Accessory Deduper) : Type 0 where
    pub conserved :
        (cumulative c a'.metrics + current c a'.metrics) % 2 ^ 64
        ≡ (cumulative c a.metrics + current c a.metrics + counted) % 2 ^ 64
    pub reported_lem :
        (reported c a'.datapoints + missed + cumulative c a.metrics) % 2 ^ 64
        ≡ (reported c a.datapoints + cumulative c a'.metrics) % 2 ^ 64

  -- The same of a whole run, and whether the thread is still running then.
  abbrev Ends : Counter → List (Turn Deduper) → Accessory Deduper → Accessory Deduper → Type 0
  Ends c turns a a' =
      Accounts c (counts c turns) (unreported c turns) a a' × (a'.running ≡ goes_on turns)

  Accounts-trans :
      (c : Counter) (n n' l l' : ℕ) (a b d : Accessory Deduper)
      → Accounts c n l a b
      → Accounts c n' l' b d
      → Accounts c (n + n') (l + l') a d
  Accounts-trans c n n' l l' a b d p q = record {
    conserved = omega (arith, p.conserved, q.conserved);
    reported_lem = omega (arith, p.reported_lem, q.reported_lem);
  }

  interfere-Accounts :
      (c : Counter) (t : Turn Deduper) (a : Accessory Deduper)
      → Accounts c (counted_of c t.counted) 0 a (interfere t a)
  interfere-Accounts c t a =
      let (counted, kept) = counted-current c t.counted a.metrics in
      record { conserved = omega (arith, counted, kept); reported_lem = omega (arith, kept) }

  accessory_step-Accounts :
      (c : Counter) (e : AccessoryEvent) (a : Accessory Deduper)
      → Accounts c (between c e) (between c e) a (accessory_step maybe_reset a e)
  unfolding accessory_step
  accessory_step-Accounts c deduper_reset_tick a = record {
    conserved = omega arith;
    reported_lem = omega arith;
  }
  accessory_step-Accounts c shutdown_signal a = record {
    conserved = omega arith;
    reported_lem = omega arith;
  }
  accessory_step-Accounts c (metrics_tick b) a =
      let m = (report a.metrics).0 in
      let r = report-Reports c a.metrics in
      let (added, same) = counted-current c b m in
      let (none_left, moved) = reset_lem c (add_counted b m) in
      let sent = reported-append c a.datapoints (report a.metrics).1 in
      record {
        conserved = omega (arith, r.same_current, r.same_cumulative, added, same, none_left, moved);
        reported_lem =
            omega (arith, r.same_current, r.same_cumulative, r.sent, added, same, moved, sent);
      }

  step-running :
      (e : AccessoryEvent) (a : Accessory Deduper)
      → (accessory_step maybe_reset a e).running ≡ (if stops e then false else a.running)
  unfolding accessory_step
  step-running deduper_reset_tick a = refl
  step-running shutdown_signal a = refl
  step-running (metrics_tick b) a = refl

  loop-stopped :
      (turns : List (Turn Deduper)) (a : Accessory Deduper)
      → a.running ≡ false
      → accessory_loop maybe_reset turns a ≡ a
  unfolding accessory_loop
  loop-stopped [] a off = refl
  loop-stopped (t ∷ rest) a off = rw off refl

  -- Over any run of a running accessory thread, whatever the other threads count between its turns
  -- and between a `report` and its `reset`: a counter and its cumulative one together grow by
  -- exactly what was counted, modulo 2^64; the reports say of a counter all that its cumulative one
  -- has grown by, but for what was counted between a `report` and its `reset`, which is in no
  -- report; and the thread runs until the first exit flag or shutdown.
  pub accessory_loop-Accounts :
      (c : Counter) (turns : List (Turn Deduper)) (a : Accessory Deduper)
      → a.running ≡ true
      → let a' = accessory_loop maybe_reset turns a in
        Accounts c (counts c turns) (unreported c turns) a a' × (a'.running ≡ goes_on turns)
  unfolding accessory_loop
  accessory_loop-Accounts c [] a on =
      (record { conserved = omega arith; reported_lem = omega arith }, on)
  accessory_loop-Accounts c (t ∷ rest) a on =
      let b = interfere t a in
      let a' = accessory_step maybe_reset b t.event in
      let turned =
        Accounts-trans c _ _ _ _ a b a' (interfere-Accounts c t a)
          (accessory_step-Accounts c t.event b) in
      let runs = step-running t.event b in
      branch (Ends c (t ∷ rest) a) a a.running on (elim (Bool-cases t.exit) [
        | inl exit ↦ rw exit (record { conserved = omega arith; reported_lem = omega arith }, refl)
        | inr go ↦ elim (Bool-cases (stops t.event)) [
          | inl stop ↦
              rw (go, stop)
                (let off = runs ∙ ap (λ x. if x then false else b.running) stop in
                  subst
                    (λ z.
                      Accounts c (counted_of c t.counted + between c t.event + 0)
                        (between c t.event + 0) a z
                      × (z.running ≡ false))
                    (sym (loop-stopped rest a' off))
                    (
                      record {
                        conserved = omega (arith, turned.conserved);
                        reported_lem = omega (arith, turned.reported_lem);
                      },
                      off,
                    ))
          | inr goes ↦
              rw (go, goes)
                (let ih =
                    accessory_loop-Accounts c rest a'
                      (runs ∙ ap (λ x. if x then false else b.running) goes ∙ on) in
                  let all = Accounts-trans c _ _ _ _ a a' _ turned ih.0 in
                  (
                    record {
                      conserved = omega (arith, all.conserved);
                      reported_lem = omega (arith, all.reported_lem);
                    },
                    ih.1,
                  ))
        ]
      ])
