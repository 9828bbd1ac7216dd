-- ===== src/RepeatedTask/Owned.antt =====
-- A repeated task of src/repeated_task.rs and the clones of the runtime of src/runtime.rs in which it
-- runs: `start` takes a clone and drops it at its end.
pub mod Kept
pub mod Last
pub mod Pinned
pub mod Results
pub mod Stopped
mod Examples
use Prim.Native.String.{String}
use rs_run.Base.{
  ℕ, ◌≡◌, refl, Bool, true, Option, none, some, List, [], ◌∷◌, ok, err, Outcome, done, panicked,
  Result, false, ◌>>=◌, Returns, Returns-bind, Returns-map, sym, subst, ◌==◌, if◌then◌else◌, arith,
}
use rs_run.Host.{Timer}
use rs_run.Host.Tasks.{JoinHandle, JoinError, cancelled, panic, Tokens}
use rs_run.Error.{Error, wait_gc_task_stop}
use rs_run.Runtime.{Shared, shared, is_up, clone, drop_dropper, drop_runtime}
use rs_run.Runtime.Shutdown.{Use, cloned, dropped, use_runtime, IsOpen, use_runtime-IsOpen}
use rs_run.RepeatedTask.{
  TaskFunction, RepeatedTask, Stage, at_head, asleep, calling, over, Worker, Reading, Branch, slept,
  stopped, waits, select, after_call, after_select, turn, start, stop_lock, joined,
}
use rs_run.RepeatedTask.History.{
  Event, System, initial, abort, on_worker, spawned, start_call, stop_call, worker_turn, shut_down,
  step,
}

-- `shuts` is the end of the runtime, once it is no longer up.
pub data Move : Type 0 where
  uses : Use → Move
  starts : JoinHandle → Move
  stops : Move
  turns : Reading → Move
  shuts : Move

module _ (T : Timer) (K : Tokens) {E : Type 0} (F : TaskFunction E) (IoError : Type 0) where
  pub record Owner : Type 0 where
    pub shared : Shared
    pub system : System T K F IoError

  unfoldable pub move : Move → Owner → Outcome Owner
  move (uses u) o = done (record o { shared = use_runtime u o.shared })
  move (starts handle) o = if o.shared.strong == 0 then done o else do
    y ← step T K F IoError (start_call handle) o.system
    done (record { shared = drop_runtime o.shared; system = y })
  move stops o = do y ← step T K F IoError stop_call o.system; done (record o { system = y })
  move (turns r) o = do
    y ← step T K F IoError (worker_turn r) o.system
    done (record o { system = y })
  move shuts o =
      if is_up o.shared
      then done o
      else do y ← step T K F IoError shut_down o.system; done (record o { system = y })

  unfoldable pub moves : List Move → Owner → Outcome Owner
  moves [] o = done o
  moves (mv ∷ mvs) o = do o' ← move mv o; moves mvs o'

  -- As `build` and `new` leave them; `kept` is if the thread that keeps the runtime could be spawned.
  abbrev pub at_first : Bool → ℕ → Option ℕ → F.State → Owner
  at_first kept interval delay f = record {
    shared = shared kept;
    system = initial T K F IoError interval delay f;
  }

  -- What each event keeps holds after each move.
  pub move_inv :
      (P : System T K F IoError → Type 0)
      → ((e : Event) (y : System T K F IoError) → P y → Returns (step T K F IoError e y) P)
      → (mv : Move) (o : Owner) → P o.system
      → Returns (move mv o) (λ o'. P o'.system)
  unfolding move
  move_inv P keeps (uses u) o h = h
  move_inv P keeps (starts handle) o h = go (o.shared.strong == 0) refl
    where
      go :
          (b : Bool)
          → (o.shared.strong == 0) ≡ b
          → Returns (move (starts handle) o) (λ o'. P o'.system)
      go true e = rw (e) h
      go false e = rw (e) (
          Returns-bind (λ o'. P o'.system) (step T K F IoError (start_call handle) o.system) _
            (keeps (start_call handle) o.system h) (λ y h'. h'))
  move_inv P keeps stops o h =
      Returns-bind (λ o'. P o'.system) (step T K F IoError stop_call o.system) _
        (keeps stop_call o.system h) (λ y h'. h')
  move_inv P keeps (turns r) o h =
      Returns-bind (λ o'. P o'.system) (step T K F IoError (worker_turn r) o.system) _
        (keeps (worker_turn r) o.system h) (λ y h'. h')
  move_inv P keeps shuts o h = go (is_up o.shared) refl
    where
      go : (b : Bool) → is_up o.shared ≡ b → Returns (move shuts o) (λ o'. P o'.system)
      go true e = rw (e) h
      go false e = rw (e) (
          Returns-bind (λ o'. P o'.system) (step T K F IoError shut_down o.system) _
            (keeps shut_down o.system h) (λ y h'. h'))
