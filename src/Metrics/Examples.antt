-- ===== src/Metrics/Examples.antt =====
-- The theorem about the gauges at two threads, one of which is parked.
use rs_run.Base.{◌≡◌, refl, true, false, [], ◌∷◌, arith}
use rs_run.Host.Tokio.{threads_alive, thread_start, thread_park}
use rs_run.Runtime.{hooks, on_thread_start}
use rs_run.Metrics.{Metrics, zeroes, apply}
use rs_run.Metrics.Threads.{Reached, at_first, starts, parks, Counts, Reached-Counts}

abbrev one : Metrics
one = apply (hooks "read-worker" thread_start) zeroes

abbrev two : Metrics
two = apply (hooks "read-worker" thread_start) one

abbrev one_parked : Metrics
one_parked = apply (hooks "read-worker" thread_park) two

two_there : (two threads_alive "read-worker" ≡ 2) × (two threads_alive "bg-worker" ≡ 0)
unfolding apply hooks on_thread_start
two_there = (refl, refl)

Reached-parked : Reached one_parked (
    record { name = "read-worker"; parked = true }
    ∷ record { name = "read-worker"; parked = false }
    ∷ [])
Reached-parked = parks two [] (record { name = "read-worker"; parked = false } ∷ []) "read-worker" (
    starts one (record { name = "read-worker"; parked = false } ∷ []) "read-worker"
      (starts zeroes [] "read-worker" at_first (omega arith)) (omega arith))

Reached-Counts_example :
    Counts one_parked
      (record { name = "read-worker"; parked = true }
        ∷ record { name = "read-worker"; parked = false }
        ∷ [])
      "read-worker"
Reached-Counts_example = Reached-Counts one_parked _ "read-worker" Reached-parked
