-- ===== src/Examples/Serving.antt =====
-- The theorems on the servers' loops at concrete turns.
use Prim.Native.String.{String}
use shredstream_proxy.Prom.{PromEvent}
use shredstream_proxy.Prom.Registry.{Prometheus, name_of, metric_of, register_metrics}
use shredstream_proxy.Prom.Registry.Registered.{
  codes, is_name, are_names, increases, has, are_distinct, PrometheusLaws,
  register_metrics-Registered,
}
use shredstream_proxy.Common.{
  ℕ, ◌≡◌, refl, Bool, true, false, ◌&&◌, none, some, List, [], ◌∷◌, Ensures, if◌then◌else◌,
}
use shredstream_proxy.Server.{RecvResult, received, lagged, subscribe_entries}
use shredstream_proxy.Server.Contiguous.{
  quiet, next, skips, Contiguous, subscribe_entries-Contiguous,
}
use shredstream_proxy.Prom.Exposition.{
  RequestResult, idle, request, Exposition, exposition_loop, Answered, exposition_loop-Answered,
}

-- One entry is received, then one was dropped, then the third is received.
abbrev toy_answers : List (RecvResult ℕ × Bool)
toy_answers = (received 7, true) ∷ (lagged 1, true) ∷ (received 9, true) ∷ []

subscribe_entries-Contiguous_example :
    Contiguous (7 ∷ 8 ∷ 9 ∷ []) toy_answers (subscribe_entries toy_answers)
subscribe_entries-Contiguous_example = subscribe_entries-Contiguous (next (skips (next quiet)))

-- One scrape that cannot be answered, and a shutdown.
abbrev toy_scrapes : List (Bool × RequestResult)
toy_scrapes = (false, idle) ∷ (false, request (some (1 ∷ [])) false) ∷ (true, idle) ∷ []

abbrev toy_exposition : Exposition
toy_exposition = record { responses = []; failed = []; running = true }

exposition_loop-Answered_example :
    Ensures (Answered toy_scrapes toy_exposition) (exposition_loop toy_scrapes toy_exposition)
exposition_loop-Answered_example =
    exposition_loop-Answered toy_scrapes toy_exposition (tt, (tt, (tt, tt))) refl

-- A registry that keeps the names that were registered.
abbrev toy_prometheus : Prometheus
toy_prometheus = record {
  Registry = List String;
  Collector = String;
  histogram = λ n buckets. if is_name (codes n) && increases buckets then some n else none;
  counter = λ n. if is_name (codes n) then some n else none;
  int_counter_vec = λ n labels. if is_name (codes n) && are_names labels then some n else none;
  register = λ r c. if has c r then none else some (c ∷ r);
}

toy_prometheus_laws : PrometheusLaws toy_prometheus
toy_prometheus_laws = record {
  named = λ c. c;
  names = λ r. r;
  histogram-builds = λ n buckets h k. (n, rw (h, k), refl);
  counter-builds = λ n h. (n, rw h, refl);
  vec-builds = λ n labels h k. (n, rw (h, k), refl);
  register-adds = λ r c h. (c ∷ r, rw h, refl);
}

register_metrics-Registered_example :
    Ensures
      (λ r. (are_distinct r ≡ true) × ((e : PromEvent) → has (name_of (metric_of e)) r ≡ true))
      (register_metrics toy_prometheus [])
unfolding toy_prometheus_laws
register_metrics-Registered_example =
    register_metrics-Registered toy_prometheus toy_prometheus_laws [] refl
