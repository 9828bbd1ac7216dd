-- ===== src/RepeatedTask.antt =====
-- src/repeated_task.rs: a function that a task calls again and again until it is told to stop.
pub mod History
pub mod Phases
pub mod Calls
pub mod Stops
pub mod Returns
pub mod Ends
pub mod Delays
pub mod Owned
pub mod Loop
mod Examples
use Prim.Native.String.{String}
use rs_run.Base.{
  ℕ, Bool, true, false, Option, none, some, List, [], ◌∷◌, ◌++◌, Result, ok, err, Outcome, done,
  panicked, ◌>>=◌, unwrap, ltb, if◌then◌else◌,
}
use rs_run.Host.{Poll, ready, pending, Context, Timer}
use rs_run.Host.Tasks.{JoinError, panic, JoinHandle, Tokens}
use rs_run.Error.{Error, illegal_state, wait_gc_task_stop}

-- The trait. `call` is what a call comes to when its await is over: a result, or a panic. A reading
-- says at which turn that is.
pub record TaskFunction (E : Type 0) : Type 1 where
  pub State : Type 0
  pub call : State → Outcome (Result (Unit {0}) E × State)
  pub name : State → String

-- With the fields of TaskInner, which stand behind a lock in the source.
pub record RepeatedTask (K : Tokens) {E : Type 0} (F : TaskFunction E) : Type 0 where
  pub name : String
  pub cancel_token : K.CancellationToken
  pub task_handle : Option JoinHandle
  pub task_fn : Option F.State
  pub started : Bool
  pub interval : ℕ
  pub initial_delay : Option ℕ

-- Where the loop of the spawned task stands: at its head, in `select!`, in the call, or at its end.
pub data Stage (Sleep : Type 0) : Type 0 where
  at_head : Stage Sleep
  asleep : Sleep → Stage Sleep
  calling : Stage Sleep
  over : Result (Unit {0}) JoinError → Stage Sleep

-- The spawned task, with the variables that it captured and the errors that it has logged.
pub record Worker (T : Timer) {E : Type 0} (F : TaskFunction E) : Type 0 where
  pub stage : Stage T.Sleep
  pub task_fn : F.State
  pub interval : ℕ
  pub initial_delay : Option ℕ
  pub failures : List E

-- What a turn of the spawned task reads: the time, which branch `select!` polls first, if the await of
-- a call is over, and the context.
pub record Reading : Type 0 where
  pub now : ℕ
  pub token_first : Bool
  pub call_over : Bool
  pub cx : Context

-- The branch that `select!` takes.
pub data Branch : Type 0 where
  slept : Branch
  stopped : Branch
  waits : Branch

unfoldable pub select : Bool → Bool → Poll (Unit {0}) → Branch
select true true fired = stopped
select true false (ready _) = slept
select true false pending = waits
select false stop (ready _) = slept
select false true pending = stopped
select false false pending = waits

-- `initial_delay.take().unwrap_or(interval)`.
unfoldable pub sleep_time : Option ℕ → ℕ → ℕ
sleep_time none interval = interval
sleep_time (some delay) interval = delay

module _ (T : Timer) (K : Tokens) {E : Type 0} (F : TaskFunction E) where
  unfoldable pub new : ℕ → F.State → RepeatedTask K F
  new interval task_fn = record {
    name = F.name task_fn;
    cancel_token = K.new;
    task_handle = none;
    task_fn = some task_fn;
    started = false;
    interval = interval;
    initial_delay = none;
  }

  unfoldable pub with_initial_delay : Option ℕ → RepeatedTask K F → RepeatedTask K F
  with_initial_delay initial_delay t = record t { initial_delay = initial_delay }

  unfoldable pub after_call : Worker T F → Outcome (Result (Unit {0}) E × F.State) → Worker T F
  after_call w (done (ok _, task_fn)) = record w { stage = at_head; task_fn = task_fn }
  after_call w (done (err e, task_fn)) = record w {
    stage = at_head;
    task_fn = task_fn;
    failures = w.failures ++ e ∷ [];
  }
  after_call w panicked = record w { stage = over (err panic) }

  -- The await of the call, which is Pending until it is over.
  unfoldable pub await_call : Bool → Worker T F → Worker T F
  await_call true w = after_call w (F.call w.task_fn)
  await_call false w = w

  unfoldable pub after_select : Worker T F → T.Sleep → Branch → Worker T F
  after_select w sleep slept = record w { stage = calling }
  after_select w sleep stopped = record w { stage = over (ok tt) }
  after_select w sleep waits = record w { stage = asleep sleep }

  -- The loop from one place to the next; `stop` says if the token is cancelled.
  unfoldable pub turn : Bool → Reading → Worker T F → Worker T F
  turn stop r w = elim w.stage [
    | at_head ↦
        let time = sleep_time w.initial_delay w.interval in
        record w {
          initial_delay = none;
          stage = if ltb 0 time then asleep (T.sleep r.now time) else calling;
        }
    | asleep s ↦
        let (fired, s', cx) = T.poll r.now s r.cx in
        after_select w s' (select r.token_first stop fired)
    | calling ↦ await_call r.call_over w
    | over _ ↦ w
  ]

  -- `start`, where `handle` is what `runtime.spawn` returns: its result, the task and what it spawned.
  unfoldable pub start :
      {IoError : Type 0}
      → JoinHandle
      → RepeatedTask K F
      → Outcome (Result (Unit {0}) (Error IoError) × RepeatedTask K F × Option (Worker T F))
  start handle t = elim t.task_fn [
    | none ↦ done (err (illegal_state t.name), t, none)
    | some _ ↦ do
      task_fn ← unwrap t.task_fn
      let worker : Worker T F = record {
        stage = at_head;
        task_fn = task_fn;
        interval = t.interval;
        initial_delay = t.initial_delay;
        failures = [];
      }
      done (
        ok tt,
        record t { task_fn = none; task_handle = some handle; started = true },
        some worker,
      )
  ]

  -- The part of `stop` under the lock: without a handle it returns `Ok`, else it awaits the handle.
  unfoldable pub stop_lock : RepeatedTask K F → Outcome (Option JoinHandle × RepeatedTask K F)
  stop_lock t = elim t.task_handle [
    | none ↦ done (none, t)
    | some _ ↦ do
      handle ← unwrap t.task_handle
      done (
        some handle,
        record t { cancel_token = K.cancel t.cancel_token; started = false; task_handle = none },
      )
  ]

  -- The await in `stop`, which returns when the spawned task is over.
  unfoldable pub joined :
      {IoError : Type 0} → String → Worker T F → Option (Result (Unit {0}) (Error IoError))
  joined name w = elim w.stage [
    | at_head ↦ none
    | asleep _ ↦ none
    | calling ↦ none
    | over (ok _) ↦ some (ok tt)
    | over (err e) ↦ some (err (wait_gc_task_stop name e))
  ]

  -- `Drop::drop`.
  unfoldable pub drop_task : RepeatedTask K F → RepeatedTask K F
  drop_task t = elim t.task_handle [
    | none ↦ t
    | some _ ↦ record t { cancel_token = K.cancel t.cancel_token }
  ]
