-- ===== src/RepeatedTask/Examples.antt =====
-- The theorems about repeated_task.rs at a function that counts its calls, and fails at every second.
use rs_run.Base.{
  ℕ, suc, ◌%◌, ◌≡◌, refl, ◌⊎◌, inr, true, false, Option, none, some, List, [], ◌∷◌, ◌++◌, map,
  Result, ok, err, Outcome, done, panicked, Returns, if◌then◌else◌, ◌==◌, arith,
}
use rs_run.Host.Samples.{clock, clock-IsTimer, flags, flags-IsTokens, idle}
use rs_run.Error.{Error}
use rs_run.RepeatedTask.{
  TaskFunction, at_head, over, Worker, Reading, select, sleep_time, new, with_initial_delay,
  after_call, await_call, after_select, turn, start, stop_lock, joined, drop_task,
}
use rs_run.RepeatedTask.History.{
  Event, start_call, stop_call, worker_turn, System, initial, step, run,
}
use rs_run.RepeatedTask.Stops.{AllHeard}
use rs_run.RepeatedTask.Phases.{Phase, run-Phase}
use rs_run.RepeatedTask.Returns.{stop_returns, drop_ends}
use rs_run.RepeatedTask.Ends.{joined_final, zero_interval_endless}

abbrev count : ℕ → Outcome (Result (Unit {0}) ℕ × ℕ)
count n = done (if n % 2 == 0 then ok tt else err n, suc n)

abbrev ticker : TaskFunction ℕ
ticker = record { State = ℕ; call = count; name = λ n. "test" }

abbrev Sys : Type 0
Sys = System clock flags ticker (Unit {0})

abbrev go : List Event → Sys → Outcome Sys
go = run clock flags ticker (Unit {0})

abbrev fresh_task : Sys
fresh_task = initial clock flags ticker (Unit {0}) 100 (some 0) 0

abbrev at : ℕ → Reading
at t = record { now = t; token_first = true; call_over = true; cx = idle }

abbrev running_history : List Event
running_history =
    start_call 7
    ∷ worker_turn (at 0)
    ∷ worker_turn (at 0)
    ∷ worker_turn (at 0)
    ∷ worker_turn (at 100)
    ∷ worker_turn (at 100)
    ∷ []

-- The token is not polled first.
abbrev sleep_first : ℕ → Reading
sleep_first t = record (at t) { token_first = false }

abbrev readings : List Reading
readings = at 200 ∷ sleep_first 250 ∷ at 400 ∷ at 500 ∷ at 600 ∷ []

abbrev calls_of : Outcome Sys → Option (ℕ × List ℕ)
calls_of panicked = none
calls_of (done y) = elim y.worker [ none ↦ none | some w ↦ some (w.task_fn, w.failures) ]

-- Two calls, the second of which fails.
two_calls : calls_of (go running_history fresh_task) ≡ some (2, 1 ∷ [])
unfolding run step start turn select sleep_time new with_initial_delay await_call after_call
    after_select
two_calls = refl

run-Phase_example :
    Returns (go running_history fresh_task) (Phase clock flags flags-IsTokens ticker (Unit {0}))
run-Phase_example =
    run-Phase clock flags flags-IsTokens ticker (Unit {0}) running_history 100 (some 0) 0

abbrev worker_after_two : Worker clock ticker
worker_after_two = record {
  stage = at_head;
  task_fn = 2;
  interval = 100;
  initial_delay = none;
  failures = 1 ∷ [];
}

abbrev task_after_two : Sys
task_after_two = record {
  task = record {
    name = "test";
    cancel_token = false;
    task_handle = some 7;
    task_fn = none;
    started = true;
    interval = 100;
    initial_delay = some 0;
  };
  worker = some worker_after_two;
}

runs_to : go running_history fresh_task ≡ done task_after_two
unfolding run step start turn select sleep_time new with_initial_delay await_call after_call
    after_select
runs_to = refl

-- `select!` is reached before the sleep is over.
all_heard : AllHeard clock flags ticker clock-IsTimer readings worker_after_two
unfolding turn select sleep_time await_call after_call after_select
all_heard = (tt, (inr (omega arith), (tt, (tt, (tt, tt)))))

stop_returns_example : Returns (go (stop_call ∷ map worker_turn readings) task_after_two) (λ z.
    (w : Worker clock ticker) × (z.worker ≡ some w)
    × (res : Result (Unit {0}) (Error (Unit {0}))) × (joined clock flags ticker z.task.name w
        ≡ some res))
stop_returns_example =
    stop_returns clock flags flags-IsTokens ticker (Unit {0}) clock-IsTimer running_history 100
      (some 0) 0 task_after_two 7 worker_after_two readings (omega arith) runs_to refl refl
      (omega arith) all_heard

drop_ends_example :
    Returns
      (run clock flags ticker
        (Unit {0})
        (map worker_turn readings)
        (record task_after_two { task = drop_task clock flags ticker task_after_two.task }))
      (λ z.
        (w : Worker clock ticker) × (z.worker ≡ some w)
        × (res : Result (Unit {0}) (Error (Unit {0}))) × (joined clock flags ticker "test" w
            ≡ some res))
drop_ends_example =
    drop_ends clock flags flags-IsTokens ticker (Unit {0}) clock-IsTimer running_history 100
      (some 0) 0 task_after_two worker_after_two "test" readings (omega arith) runs_to refl
      (omega arith) all_heard

abbrev ended_worker : Worker clock ticker
ended_worker = record worker_after_two { stage = over (ok tt) }

abbrev stopped_task : Sys
stopped_task = record {
  task = record {
    name = "test";
    cancel_token = true;
    task_handle = none;
    task_fn = none;
    started = false;
    interval = 100;
    initial_delay = some 0;
  };
  worker = some ended_worker;
}

abbrev stopped_history : List Event
stopped_history = running_history ++ stop_call ∷ worker_turn (at 200) ∷ worker_turn (at 200) ∷ []

stops_at : go stopped_history fresh_task ≡ done stopped_task
unfolding run step start stop_lock turn select sleep_time new with_initial_delay await_call
    after_call after_select
stops_at = refl

ended_joined : joined clock flags ticker {IoError = Unit {0}} "test" ended_worker ≡ some (ok tt)
unfolding joined
ended_joined = refl

joined_final_example :
    Returns
      (go (start_call 9 ∷ map worker_turn readings) stopped_task)
      (λ z. z.worker ≡ some ended_worker)
joined_final_example =
    joined_final clock flags ticker (Unit {0}) flags-IsTokens stopped_history
      (start_call 9 ∷ map worker_turn readings) 100 (some 0) 0 stopped_task ended_worker "test"
      (ok tt) stops_at refl ended_joined

zero_interval_endless_example :
    Returns
      (go
        (start_call 7 ∷ stop_call ∷ map worker_turn readings)
        (initial clock flags ticker (Unit {0}) 0 none 0))
      (λ y.
        (y.worker ≡ none)
        ⊎ ((w : Worker clock ticker) × (y.worker ≡ some w)
            × (joined clock flags ticker {IoError = Unit {0}} y.task.name w ≡ none)))
unfolding sleep_time
zero_interval_endless_example =
    zero_interval_endless clock flags ticker (Unit {0}) (λ s. tt)
      (start_call 7 ∷ stop_call ∷ map worker_turn readings) none 0 refl tt
