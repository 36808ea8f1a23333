-- ===== src/Examples/Reporting.antt =====
-- The theorem on the accessory thread's reports at a concrete run.
use shredstream_proxy.Common.{ℕ, ◌≡◌, refl, true, false, List, [], ◌∷◌}
use shredstream_proxy.Examples.Toy.{no_metrics}
use shredstream_proxy.Forwarder.Threads.Accessory.{
  Accessory, Counted, AccessoryEvent, deduper_reset_tick, metrics_tick, shutdown_signal, Turn,
  accessory_loop,
}
use shredstream_proxy.Forwarder.Threads.Accessory.Reported.{
  Accounts, counts, unreported, goes_on, accessory_loop-Accounts,
}
use shredstream_proxy.Metrics.Reports.{received_count, reported}

abbrev toy_counted : Counted
toy_counted = record { received = 7; success_forward = 5; fail_forward = 0; duplicate = 2 }

abbrev one_received : Counted
one_received = record { received = 1; success_forward = 0; fail_forward = 0; duplicate = 0 }

abbrev toy_turn : AccessoryEvent → Turn ℕ
toy_turn e = record { exit = false; deduper = 3; counted = toy_counted; event = e }

abbrev toy_run : List (Turn ℕ)
toy_run =
    toy_turn (metrics_tick one_received)
    ∷ toy_turn deduper_reset_tick
    ∷ toy_turn shutdown_signal
    ∷ toy_turn deduper_reset_tick
    ∷ []

abbrev toy_accessory : Accessory ℕ
toy_accessory = record { deduper = 3; metrics = no_metrics; datapoints = []; running = true }

-- Of the eight packets counted up to the tick's end, the report says seven.
reported_seven :
    reported received_count (accessory_loop (λ d. d) toy_run toy_accessory).datapoints ≡ 7
unfolding accessory_loop shredstream_proxy.Metrics.new
reported_seven = refl

accessory_loop-Accounts_example :
    let a' = accessory_loop (λ d. d) toy_run toy_accessory in
    Accounts
      (λ d. d)
      received_count
      (counts received_count toy_run)
      (unreported received_count toy_run)
      toy_accessory
      a'
    × (a'.running ≡ goes_on toy_run)
accessory_loop-Accounts_example =
    accessory_loop-Accounts (λ d. d) received_count toy_run toy_accessory refl
