-- ===== src/RepeatedTask/Owned/Examples.antt =====
-- The theorems about a repeated task and the clones of its runtime, at a function that counts its calls.
use Prim.Native.String.{String}
use rs_run.Base.{
  ℕ, suc, ◌<◌, ◌≡◌, ◌⊎◌, inl, map, panicked, refl, inr, arith, true, false, none, some, List, [],
  ◌∷◌, Result, ok, err, Outcome, done, Returns,
}
use rs_run.Host.Samples.{clock, clock-IsTimer, flags, flags-IsTokens, idle}
use rs_run.Host.Tasks.{cancelled, panic}
use rs_run.Error.{Error, wait_gc_task_stop}
use rs_run.Runtime.{shared, is_up, clone, drop_runtime}
use rs_run.Runtime.Shutdown.{cloned, dropped, use_runtime, IsOpen}
use rs_run.RepeatedTask.History.{step}
use rs_run.RepeatedTask.{
  TaskFunction, Worker, Reading, asleep, new, with_initial_delay, joined, select, sleep_time, turn,
  start, after_select,
}
use rs_run.RepeatedTask.Owned.{
  Move, move, uses, starts, stops, turns, shuts, Owner, moves, at_first,
}
use rs_run.RepeatedTask.Owned.Pinned.{
  GlobalMove, Pinned, moved, global_move, gets, drops, starts_in, stops_it, turns_it, shuts_down,
  global_moves, pinned,
}
use rs_run.RepeatedTask.Owned.Stopped.{global_stop_ok}
use rs_run.RepeatedTask.Stops.{AllHeard}
use rs_run.RepeatedTask.Owned.Results.{global_stop_result}
use rs_run.RepeatedTask.Owned.Kept.{cancel_needs_drop}
use rs_run.RepeatedTask.Owned.Last.{start_cancelled}

abbrev count : ℕ → Outcome (Result (Unit {0}) ℕ × ℕ)
count n = done (ok tt, suc n)

abbrev ticker : TaskFunction ℕ
ticker = record { State = ℕ; call = count; name = λ n. "test" }

abbrev at : ℕ → Reading
at t = record { now = t; token_first = true; call_over = true; cx = idle }

abbrev first : Owner clock flags ticker (Unit {0})
first = at_first clock flags ticker (Unit {0}) true 100 none 0

abbrev history : List Move
history = uses cloned ∷ starts 7 ∷ turns (at 1) ∷ shuts ∷ uses dropped ∷ shuts ∷ stops ∷ []

cancel_needs_drop_example : Returns (moves clock flags ticker (Unit {0}) history first) (λ o.
    (w : Worker clock ticker) (name : String)
    → o.system.worker ≡ some w
    → joined clock flags ticker {IoError = Unit {0}} name w
      ≡ some (err (wait_gc_task_stop name cancelled))
    → o.shared.strong ≡ 0)
cancel_needs_drop_example = cancel_needs_drop clock flags ticker (Unit {0}) history 100 none 0

-- Nobody keeps the runtime.
abbrev lost : Owner clock flags ticker (Unit {0})
lost = at_first clock flags ticker (Unit {0}) false 100 none 0

lost-IsOpen : IsOpen lost.shared
unfolding shared
lost-IsOpen = (refl, refl)

lost_strong : 0 < lost.shared.strong
unfolding shared
lost_strong = omega arith

lost_kept : lost.shared.kept ≡ false
unfolding shared
lost_kept = refl

the_function : lost.system.task.task_fn ≡ some 0
unfolding new with_initial_delay
the_function = refl

start_cancelled_example :
    Returns (start clock flags ticker {IoError = Unit {0}} 7 lost.system.task) (λ v. v.0 ≡ ok tt)
    × Returns (moves clock flags ticker (Unit {0}) (starts 7 ∷ shuts ∷ []) lost) (λ o.
      (o.system.task.started ≡ true)
      × (is_up o.shared ≡ false)
      × (w : Worker clock ticker) × (o.system.worker ≡ some w)
      × (joined clock flags ticker {IoError = Unit {0}} o.system.task.name w
          ≡ some (err (wait_gc_task_stop o.system.task.name cancelled))))
start_cancelled_example =
    start_cancelled clock flags ticker (Unit {0}) lost 7 0 lost-IsOpen lost_strong (inr lost_kept)
      the_function

abbrev global_history : List GlobalMove
global_history =
    gets ∷ starts_in 7 ∷ turns_it (at 1) ∷ gets ∷ drops ∷ drops ∷ shuts_down ∷ stops_it ∷ []

global_stop_result_example :
    Returns
      (global_moves clock flags ticker
        (Unit {0})
        global_history
        (pinned clock flags ticker (Unit {0}) 100 none 0))
      (λ p.
        (is_up p.owner.shared ≡ true)
        × ((w : Worker clock ticker) (name : String) (res : Result (Unit {0}) (Error (Unit {0})))
            → p.owner.system.worker ≡ some w
            → joined clock flags ticker name w ≡ some res
            → ((res ≡ ok tt) × (flags.is_cancelled p.owner.system.task.cancel_token ≡ true))
              ⊎ ((res ≡ err (wait_gc_task_stop name panic)) × (count w.task_fn ≡ panicked))))
global_stop_result_example =
    global_stop_result clock flags flags-IsTokens ticker (Unit {0}) global_history 100 none 0

abbrev sleeper : Worker clock ticker
sleeper = record {
  stage = asleep 101;
  task_fn = 0;
  interval = 100;
  initial_delay = none;
  failures = [];
}

-- The task runs, and nobody but the static holds a clone.
abbrev running_task : Pinned clock flags ticker (Unit {0})
running_task = record {
  owner = record {
    shared = record { strong = 1; close = true; kept = true; signals = 0 };
    system = record {
      task = record {
        name = "test";
        cancel_token = false;
        task_handle = some 7;
        task_fn = none;
        started = true;
        interval = 100;
        initial_delay = none;
      };
      worker = some sleeper;
    };
  };
  held = 0;
}

abbrev to_running : List GlobalMove
to_running = gets ∷ starts_in 7 ∷ turns_it (at 1) ∷ []

runs_at :
    global_moves clock flags ticker
      (Unit {0})
      to_running
      (pinned clock flags ticker (Unit {0}) 100 none 0)
    ≡ done running_task
unfolding global_moves global_move moved move step start turn select sleep_time new
    with_initial_delay shared use_runtime clone drop_runtime
runs_at = refl

abbrev readings : List Reading
readings = at 2 ∷ at 3 ∷ at 4 ∷ at 5 ∷ at 6 ∷ []

all_heard : AllHeard clock flags ticker clock-IsTimer readings sleeper
unfolding turn select after_select
all_heard = (inl refl, (tt, (tt, (tt, (tt, tt)))))

global_stop_ok_example :
    Returns
      (global_moves clock flags ticker (Unit {0}) (stops_it ∷ map turns_it readings) running_task)
      (λ p.
        (w : Worker clock ticker) × (p.owner.system.worker ≡ some w)
        × (joined clock flags ticker {IoError = Unit {0}} p.owner.system.task.name w
            ≡ some (ok tt)))
global_stop_ok_example =
    global_stop_ok clock clock-IsTimer flags flags-IsTokens ticker (Unit {0}) to_running 100 none 0
      running_task 7 sleeper readings (omega arith) (λ g e. ground arith) runs_at refl refl
      (omega arith) all_heard
