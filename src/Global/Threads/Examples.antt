-- ===== src/Global/Threads/Examples.antt =====
-- The theorems about threads that use src/global.rs at once, where a use overtakes a call of
-- `init_global_runtimes` that is already in START.
use mathlib.Core.List.{Perm}
use rs_run.Base.{ℕ, ◌≡◌, refl, done, panicked, List, [], ◌∷◌, ◌++◌}
use Prim.Native.String.{String}
use rs_run.Host.Samples.{crews, sixteen}
use rs_run.Host.Tokio.{Crew}
use rs_run.Runtime.{Runtime}
use rs_run.Global.{RuntimeOptions, Makings, GlobalRuntimes, initial, create_runtime, new, or_create}
use rs_run.Global.Histories.{Call, init_call, use_call}
use rs_run.Global.Threads.{
  init_event, use_event, Move, calls, init_goes, use_goes, call, writes, init_step, makes, use_step,
  step, run, at_start, events,
}
use rs_run.Global.Threads.Sim.{all_events}
use rs_run.Global.Threads.Linear.{calls_linear}
use rs_run.Global.Threads.Out.{drain}
use rs_run.Global.Threads.Out.Drain.{IsIdle, threads_get_out}

abbrev at : ℕ → Makings
at t = record {
  read = record { id = t; now = t };
  write = record { id = t; now = t };
  bg = record { id = t; now = t };
  hb = record { id = t; now = t };
}

abbrev options : RuntimeOptions
options = record { read_rt_size = 3; write_rt_size = 2; bg_rt_size = 1 }

-- The use locks first; the call of `init_global_runtimes` waits for the lock.
abbrev overtaking : List (Move crews)
overtaking =
    calls (init_call (at 1) options)
    ∷ calls (use_call (at 2))
    ∷ use_goes
    ∷ init_goes
    ∷ use_goes
    ∷ use_goes
    ∷ use_goes
    ∷ []

-- Then it goes on, and another use comes.
abbrev going_on : List (Move crews)
going_on = init_goes ∷ init_goes ∷ init_goes ∷ calls (use_call (at 3)) ∷ []

abbrev of_size : ℕ → String → Crew
of_size n name = record sixteen { workers = n; threads = name }

abbrev named_four : GlobalRuntimes crews
named_four = record {
  read_runtime = record { name = "global-read"; handle = of_size 8 "read-worker" };
  write_runtime = record { name = "global-write"; handle = of_size 8 "write-worker" };
  bg_runtime = record { name = "global-bg"; handle = of_size 4 "bg-worker" };
  hb_runtime = record { name = "global-hb"; handle = of_size 2 "hb-worker" };
}

all_returned :
    (run crews (overtaking ++ going_on) (at_start crews)).returned
    ≡ use_event (at 3) (done named_four)
      ∷ init_event (at 1) options panicked
      ∷ use_event (at 2) (done named_four)
      ∷ []
unfolding run step call init_step writes use_step makes new or_create create_runtime
    rs_run.Runtime.worker_threads rs_run.Runtime.build rs_run.Runtime.built rs_run.Runtime.default
    rs_run.Runtime.thread_name rs_run.Runtime.runtime_name
all_returned = refl

calls_linear_example :
    (h h' : List Call) × Perm
      (all_events crews (run crews overtaking (at_start crews)))
      (events crews h (initial crews))
    × Perm
        (all_events crews (run crews (overtaking ++ going_on) (at_start crews)))
        (events crews (h ++ h') (initial crews))
calls_linear_example = calls_linear crews overtaking going_on

threads_get_out_example : IsIdle crews (run crews (overtaking ++ drain crews) (at_start crews))
threads_get_out_example = threads_get_out crews overtaking
