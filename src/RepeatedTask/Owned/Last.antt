-- ===== src/RepeatedTask/Owned/Last.antt =====
-- What becomes of a repeated task of src/repeated_task.rs that has got the last clone of its
-- runtime, or a clone of a runtime that nobody keeps.
use rs_run.Base.{
  ◌<◌, ◌⊎◌, inl, inr, ◌≡◌, refl, true, none, some, [], ◌∷◌, ok, err, done, false, Returns, ◌==◌,
  arith,
}
use rs_run.Host.{Timer}
use rs_run.Host.Tasks.{JoinHandle, cancelled, Tokens}
use rs_run.Error.{wait_gc_task_stop}
use rs_run.Runtime.{Shared, is_up, drop_dropper, drop_runtime}
use rs_run.Runtime.Shutdown.{IsOpen}
use rs_run.RepeatedTask.{TaskFunction, RepeatedTask, Stage, at_head, over, Worker, start, joined}
use rs_run.RepeatedTask.History.{abort, step}
use rs_run.RepeatedTask.Owned.{starts, shuts, Owner, move, moves}

module _ (T : Timer) (K : Tokens) {E : Type 0} (F : TaskFunction E) (IoError : Type 0) where
  abbrev worker_of : F.State → RepeatedTask K F → Stage T.Sleep → Worker T F
  worker_of f t stage = record {
    stage = stage;
    task_fn = f;
    interval = t.interval;
    initial_delay = t.initial_delay;
    failures = [];
  }

  start_some :
      (handle : JoinHandle) (t : RepeatedTask K F) (f : F.State)
      → t.task_fn ≡ some f
      → start T K F {IoError = IoError} handle t
        ≡ done (
          ok tt,
          record t { task_fn = none; task_handle = some handle; started = true },
          some (worker_of f t at_head),
        )
  unfolding start
  start_some handle t f e = rw (e, start) (rw (e) refl)

  down_after :
      (s : Shared) → IsOpen s → (s.strong ≡ 1) ⊎ (s.kept ≡ false) → is_up (drop_runtime s) ≡ false
  unfolding drop_runtime drop_dropper is_up
  down_after s (signals, close) (inl e) = ground arith
  down_after s (signals, close) (inr e) = ground arith

  -- If `start` is given the last clone of a runtime, or any clone of one whose keeping thread could not
  -- be spawned, it returns `Ok` and the task counts as started; but the runtime is not up then, its end
  -- cancels the task, and the await in `stop` returns an error.
  pub start_cancelled :
      (o : Owner T K F IoError) (handle : JoinHandle) (f : F.State)
      → IsOpen o.shared
      → 0 < o.shared.strong
      → (o.shared.strong ≡ 1) ⊎ (o.shared.kept ≡ false)
      → o.system.task.task_fn ≡ some f
      → Returns (start T K F {IoError = IoError} handle o.system.task) (λ v. v.0 ≡ ok tt)
        × Returns (moves T K F IoError (starts handle ∷ shuts ∷ []) o) (λ o'.
          (o'.system.task.started ≡ true)
          × (is_up o'.shared ≡ false)
          × (w : Worker T F) × (o'.system.worker ≡ some w)
          × (joined T K F {IoError = IoError} o'.system.task.name w
              ≡ some (err (wait_gc_task_stop o'.system.task.name cancelled))))
  unfolding moves move step start joined abort
  start_cancelled o handle f open' left last e =
      let there : (o.shared.strong == 0) ≡ false = ground arith in
      let down = down_after o.shared open' last in
      (
        rw (start_some handle o.system.task f e) refl,
        rw (there, start_some handle o.system.task f e, down)
            (refl, down, worker_of f o.system.task (over (err cancelled)), refl, refl),
      )
