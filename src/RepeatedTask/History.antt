-- ===== src/RepeatedTask/History.antt =====
-- Histories of a RepeatedTask of src/repeated_task.rs: calls of `start` and `stop` and turns of the
-- spawned task, in any order.
use rs_run.Base.{
  ℕ, Option, none, some, List, [], ◌∷◌, ◌++◌, err, Outcome, done, ◌>>=◌, Returns, Returns-bind,
  Returns-instead,
}
use rs_run.Host.{Timer}
use rs_run.Host.Tasks.{JoinHandle, cancelled, Tokens}
use rs_run.RepeatedTask.{
  TaskFunction, RepeatedTask, at_head, asleep, calling, over, Worker, Reading, new,
  with_initial_delay, turn, start, stop_lock,
}

-- `shut_down` is the end of the runtime, at which tokio cancels its tasks.
pub data Event : Type 0 where
  start_call : JoinHandle → Event
  stop_call : Event
  worker_turn : Reading → Event
  shut_down : Event

module _ (T : Timer) (K : Tokens) {E : Type 0} (F : TaskFunction E) (IoError : Type 0) where
  -- The task and what it has spawned.
  pub record System : Type 0 where
    pub task : RepeatedTask K F
    pub worker : Option (Worker T F)

  abbrev pub initial : ℕ → Option ℕ → F.State → System
  initial interval delay f = record {
    task = with_initial_delay T K F delay (new T K F interval f);
    worker = none;
  }

  unfoldable pub abort : Worker T F → Worker T F
  abort w = elim w.stage [
    | over _ ↦ w
    | at_head ↦ record w { stage = over (err cancelled) }
    | asleep _ ↦ record w { stage = over (err cancelled) }
    | calling ↦ record w { stage = over (err cancelled) }
  ]

  abbrev pub on_worker : (Worker T F → Worker T F) → Option (Worker T F) → Option (Worker T F)
  on_worker g none = none
  on_worker g (some w) = some (g w)

  abbrev pub spawned : Option (Worker T F) → Option (Worker T F) → Option (Worker T F)
  spawned none old = old
  spawned (some w) old = some w

  unfoldable pub step : Event → System → Outcome System
  step (start_call handle) y = do
    (res, task, worker) ← start T K F {IoError = IoError} handle y.task
    done (record { task = task; worker = spawned worker y.worker })
  step stop_call y = do (handle, task) ← stop_lock T K F y.task; done (record y { task = task })
  step (worker_turn r) y =
      done (record y {
        worker = on_worker (turn T K F (K.is_cancelled y.task.cancel_token) r) y.worker;
      })
  step shut_down y = done (record y { worker = on_worker abort y.worker })

  unfoldable pub run : List Event → System → Outcome System
  run [] y = done y
  run (e ∷ es) y = do y' ← step e y; run es y'

  -- What every event keeps holds after a history.
  pub run_inv :
      (P : System → Type 0)
      → ((e : Event) (y : System) → P y → Returns (step e y) P)
      → (es : List Event) (y : System) → P y
      → Returns (run es y) P
  unfolding run
  run_inv P keeps [] y h = h
  run_inv P keeps (e ∷ es) y h =
      Returns-bind P (step e y) (run es) (keeps e y h) (run_inv P keeps es)

  -- A history goes on from where its first part ends.
  pub run-append :
      (P Q : System → Type 0) (es es' : List Event) (y : System)
      → Returns (run es y) P
      → ((z : System) → P z → Returns (run es' z) Q)
      → Returns (run (es ++ es') y) Q
  unfolding run
  run-append P Q [] es' y h k = k y h
  run-append P Q (e ∷ es) es' y h k =
      Returns-instead P Q (step e y) (run es) (run (es ++ es')) h
        (λ z h'. run-append P Q es es' z h' k)
