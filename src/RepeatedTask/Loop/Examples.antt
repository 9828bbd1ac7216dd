-- ===== src/RepeatedTask/Loop/Examples.antt =====
-- The theorems about the loop of src/repeated_task.rs at a function that counts its calls, and fails at
-- every second.
use rs_run.Base.{
  ℕ, suc, ◌*◌, ◌%◌, ◌+◌, ◌-◌, ◌⊎◌, ◌≤◌, ◌≡◌, refl, some, List, [], ◌∷◌, ◌++◌, map, Result, ok, err,
  Outcome, done, panicked, Returns, if◌then◌else◌, ◌==◌, true, arith,
}
use rs_run.Host.Samples.{clock, clock-IsTimer, flags, flags-IsTokens, idle}
use rs_run.Host.Tasks.{panic}
use rs_run.RepeatedTask.{TaskFunction, Worker, Reading, at_head, over, sleep_time}
use rs_run.RepeatedTask.History.{Event, start_call, stop_call, worker_turn, initial, run}
use rs_run.RepeatedTask.Loop.{called}
use rs_run.RepeatedTask.Loop.Made.{calls_in_order}
use rs_run.RepeatedTask.Loop.Spaced.{last_time, calls_spaced}
use rs_run.RepeatedTask.Loop.Progress.{rounds, calls_made}

abbrev count : ℕ → Outcome (Result (Unit {0}) ℕ × ℕ)
count n = done (if n % 2 == 0 then ok tt else err n, suc n)

abbrev ticker : TaskFunction ℕ
ticker = record { State = ℕ; call = count; name = λ n. "test" }

abbrev at : ℕ → Reading
at t = record { now = t * 2_000_000; token_first = true; call_over = true; cx = idle }

abbrev readings : List Reading
readings = at 0 ∷ at 1 ∷ at 2 ∷ at 3 ∷ at 4 ∷ []

abbrev history : List Event
history = start_call 7 ∷ map worker_turn readings

calls_in_order_example :
    Returns
      (run clock flags ticker
        (Unit {0})
        (history ++ stop_call ∷ worker_turn (at 5) ∷ [])
        (initial clock flags ticker (Unit {0}) 100 (some 0) 0))
      (λ y.
        (w : Worker clock ticker)
        → y.worker ≡ some w
        → ((n : ℕ) × (called ticker [] n 0 ≡ done (w.task_fn, w.failures)))
          × (w.stage ≡ over (ok tt) → flags.is_cancelled y.task.cancel_token ≡ true)
          × (w.stage ≡ over (err panic) → count w.task_fn ≡ panicked))
calls_in_order_example =
    calls_in_order clock flags flags-IsTokens ticker (Unit {0})
      (history ++ stop_call ∷ worker_turn (at 5) ∷ []) 100 (some 0) 0

two_calls : called ticker [] 2 0 ≡ done (2, 1 ∷ [])
unfolding called
two_calls = refl

five_turns : 5 ≡ rounds (some 0) 100 2
unfolding rounds sleep_time
five_turns = refl

calls_made_example :
    Returns
      (run clock flags ticker
        (Unit {0})
        history
        (initial clock flags ticker (Unit {0}) 100 (some 0) 0))
      (λ y.
        (w : Worker clock ticker) × (y.worker ≡ some w)
        × (w.stage ≡ at_head)
        × (w.task_fn ≡ 2)
        × (w.failures ≡ 1 ∷ []))
unfolding sleep_time
calls_made_example =
    calls_made clock clock-IsTimer flags flags-IsTokens ticker (Unit {0}) 2 2_000_000 7 readings 100
      (some 0) 0 2 (1 ∷ []) (omega arith) (omega arith) (omega arith) (omega arith)
      (omega arith, (omega arith, (omega arith, (omega arith, tt))))
      (refl, (refl, (refl, (refl, (refl, tt))))) five_turns two_calls

-- With stops and starts between.
abbrev mixed : List Event
mixed =
    worker_turn (at 0)
    ∷ worker_turn (at 0)
    ∷ start_call 8
    ∷ worker_turn (at 1)
    ∷ worker_turn (at 2)
    ∷ worker_turn (at 2)
    ∷ stop_call
    ∷ worker_turn (at 3)
    ∷ []

calls_spaced_example :
    Returns
      (run clock flags ticker
        (Unit {0})
        (start_call 7 ∷ mixed)
        (initial clock flags ticker (Unit {0}) 100 (some 0) 0))
      (λ y.
        (w : Worker clock ticker) × (y.worker ≡ some w)
        × (n : ℕ) × (called ticker [] n 0 ≡ done (w.task_fn, w.failures))
        × ((n ≡ 0) ⊎ (0 + sleep_time (some 0) 100 + (n - 1) * 100 ≤ last_time 0 mixed)))
unfolding sleep_time
calls_spaced_example =
    calls_spaced clock clock-IsTimer flags ticker (Unit {0}) mixed 7 0 100 (some 0) 0 (omega arith)
      (omega arith)
      (omega arith, (omega arith, (omega arith, (omega arith, (omega arith, (omega arith, tt))))))
