-- ===== src/Runtime.antt =====
-- src/runtime.rs: a runtime with a name, its builder, and the drop of its last clone.
pub mod Shutdown
pub mod Settings
pub mod Names
pub mod Launch
mod Examples
use Prim.Native.String.{String, ◌++◌}
use rs_run.Base.{
  ℕ, zero, suc, ◌+◌, ◌-◌, Bool, true, false, Result, ok, err, Outcome, done, panicked, ◌>>=◌, u64,
  decimal, if◌then◌else◌, ◌==◌, ◌&&◌,
}
use rs_run.Host.Tokio.{
  Tokio, Gauge, threads_alive, threads_idle, Change, ThreadEvent, thread_start, thread_stop,
  thread_park, thread_unpark,
}
use rs_run.Error.{Error, build_runtime}

unfoldable pub on_thread_start : String → Change
on_thread_start name = record { gauge = threads_alive; label = name; raises = true }

unfoldable pub on_thread_stop : String → Change
on_thread_stop name = record { gauge = threads_alive; label = name; raises = false }

unfoldable pub on_thread_park : String → Change
on_thread_park name = record { gauge = threads_idle; label = name; raises = true }

unfoldable pub on_thread_unpark : String → Change
on_thread_unpark name = record { gauge = threads_idle; label = name; raises = false }

-- The hooks as `build` installs them.
unfoldable pub hooks : String → ThreadEvent → Change
hooks name thread_start = on_thread_start name
hooks name thread_stop = on_thread_stop name
hooks name thread_park = on_thread_park name
hooks name thread_unpark = on_thread_unpark name

module _ (X : Tokio) where
  -- What the clones of a runtime share stands in `Shared`.
  pub record Runtime : Type 0 where
    pub name : String
    pub handle : X.Handle

  pub record Builder : Type 0 where
    pub runtime_name : String
    pub thread_name : String
    pub builder : X.RuntimeBuilder

  -- `Builder::default`, where `id` is what RUNTIME_ID was.
  unfoldable pub default : ℕ → Builder
  default id = record {
    runtime_name = "runtime-" ++ decimal id;
    thread_name = "default-worker";
    builder = X.new_multi_thread;
  }

  -- The same with RUNTIME_ID as a state: `fetch_add` gives the number and raises it. `Runtime::builder`
  -- is `Builder::default`.
  unfoldable pub builder : ℕ → Builder × ℕ
  builder runtime_id = (default runtime_id, u64 (runtime_id + 1))

  unfoldable pub worker_threads : ℕ → Builder → Outcome Builder
  worker_threads val b = do
    builder ← X.worker_threads val b.builder
    done (record b { builder = builder })

  unfoldable pub max_blocking_threads : ℕ → Builder → Outcome Builder
  max_blocking_threads val b = do
    builder ← X.max_blocking_threads val b.builder
    done (record b { builder = builder })

  unfoldable pub thread_keep_alive : ℕ → Builder → Builder
  thread_keep_alive duration b = record b { builder = X.thread_keep_alive duration b.builder }

  unfoldable pub runtime_name : String → Builder → Builder
  runtime_name val b = record b { runtime_name = val }

  unfoldable pub thread_name : String → Builder → Builder
  thread_name val b = record b { thread_name = val }

  unfoldable pub built : Builder → Result X.Handle X.IoError → Result Runtime (Error X.IoError)
  built b (ok handle) = ok (record { name = b.runtime_name; handle = handle })
  built b (err e) = err (build_runtime e)

  unfoldable pub build : ℕ → Builder → Result Runtime (Error X.IoError)
  build now b = built b (
      X.build now
        (X.on_threads (hooks b.thread_name) (X.thread_name b.thread_name (X.enable_all b.builder))))

-- The ways in which work is handed to a runtime.
pub data How : Type 0 where
  spawned : How
  spawned_blocking : How
  blocked_on : How

module _ (X : Tokio) where
  -- Work, known by a number, that tokio was given for a runtime.
  pub record Handed : Type 0 where
    pub runtime : Runtime X
    pub how : How
    pub work : ℕ

  unfoldable pub spawn : Runtime X → ℕ → Handed
  spawn r future = record { runtime = r; how = spawned; work = future }

  unfoldable pub spawn_blocking : Runtime X → ℕ → Handed
  spawn_blocking r func = record { runtime = r; how = spawned_blocking; work = func }

  unfoldable pub block_on : Runtime X → ℕ → Handed
  block_on r future = record { runtime = r; how = blocked_on; work = future }

-- The Arc of the Dropper: its count, the sender that the Dropper holds, if the thread could be spawned
-- that keeps the tokio runtime, and the signals that reached it.
pub record Shared : Type 0 where
  pub strong : ℕ
  pub close : Bool
  pub kept : Bool
  pub signals : ℕ

-- As `build` leaves it, which does not look at whether the thread could be spawned.
unfoldable pub shared : Bool → Shared
shared kept = record { strong = 1; close = true; kept = kept; signals = 0 }

-- The tokio runtime is there as long as its thread waits for the signal; it goes with the closure that
-- the thread would have run.
unfoldable pub is_up : Shared → Bool
is_up s = s.kept && s.signals == 0

unfoldable pub clone : Shared → Shared
clone s = record s { strong = suc s.strong }

-- `Dropper::drop`: `close.take()`, and if there was a sender, a signal, to nobody without the thread.
unfoldable pub drop_dropper : Shared → Shared
drop_dropper s =
    if s.close
    then record s { close = false; signals = if s.kept then suc s.signals else s.signals }
    else record s { close = false }

-- The drop of one clone: the last one drops the Dropper.
unfoldable pub drop_runtime : Shared → Shared
drop_runtime s =
    let s' = record s { strong = s.strong - 1 } in if s.strong == 1 then drop_dropper s' else s'
