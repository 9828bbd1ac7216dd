-- ===== src/RepeatedTask/Phases.antt =====
-- The phases of a RepeatedTask.
use rs_run.Base.{ℕ, ◌≡◌, refl, true, false, Option, none, some, List, err, done, Returns}
use rs_run.Host.{Timer}
use rs_run.Host.Tasks.{JoinHandle, Tokens, IsTokens}
use rs_run.RepeatedTask.{
  TaskFunction, RepeatedTask, Worker, new, with_initial_delay, turn, start, stop_lock,
}
use rs_run.RepeatedTask.History.{
  Event, start_call, stop_call, worker_turn, shut_down, System, initial, abort, step, run, run_inv,
}
use rs_run.Error.{illegal_state}

module _ (T : Timer) (K : Tokens) {E : Type 0} (F : TaskFunction E) (IoError : Type 0) where
  pub start_refused :
      (h : JoinHandle) (t : RepeatedTask K F)
      → t.task_fn ≡ none
      → start T K F {IoError = IoError} h t ≡ done (err (illegal_state t.name), t, none)
  unfolding start
  start_refused h t e = simp (e, start)

  pub stop_unheard :
      (t : RepeatedTask K F) → t.task_handle ≡ none → stop_lock T K F t ≡ done (none, t)
  unfolding stop_lock
  stop_unheard t e = simp (e, stop_lock)

module _ (T : Timer) (K : Tokens) (tokens : IsTokens K) {E : Type 0} (F : TaskFunction E)
    (IoError : Type 0) where
  -- What a task is: not started, running, or stopped. Its fields agree on it.
  pub data Phase (y : System T K F IoError) : Type 0 where
    fresh :
        (f : F.State)
        → y.task.task_fn ≡ some f
        → y.task.task_handle ≡ none
        → y.task.started ≡ false
        → K.is_cancelled y.task.cancel_token ≡ false
        → y.worker ≡ none
        → Phase y
    running :
        (h : JoinHandle) (w : Worker T F)
        → y.task.task_fn ≡ none
        → y.task.task_handle ≡ some h
        → y.task.started ≡ true
        → K.is_cancelled y.task.cancel_token ≡ false
        → y.worker ≡ some w
        → Phase y
    stopped :
        (w : Worker T F)
        → y.task.task_fn ≡ none
        → y.task.task_handle ≡ none
        → y.task.started ≡ false
        → K.is_cancelled y.task.cancel_token ≡ true
        → y.worker ≡ some w
        → Phase y

  step-Phase :
      (e : Event) (y : System T K F IoError) → Phase y → Returns (step T K F IoError e y) Phase
  unfolding step start stop_lock
  step-Phase (start_call h) y (fresh f e₁ e₂ e₃ e₄ e₅) =
      rw (e₁, step, start, e₁) (running h _ refl refl refl e₄ refl)
  step-Phase (start_call h) y (running h' w e₁ e₂ e₃ e₄ e₅) =
      rw (start_refused T K F IoError h y.task e₁) (running h' w e₁ e₂ e₃ e₄ e₅)
  step-Phase (start_call h) y (stopped w e₁ e₂ e₃ e₄ e₅) =
      rw (start_refused T K F IoError h y.task e₁) (stopped w e₁ e₂ e₃ e₄ e₅)
  step-Phase stop_call y (fresh f e₁ e₂ e₃ e₄ e₅) =
      rw (stop_unheard T K F IoError y.task e₂) (fresh f e₁ e₂ e₃ e₄ e₅)
  step-Phase stop_call y (running h w e₁ e₂ e₃ e₄ e₅) =
      rw (e₂, step, stop_lock, e₂) (stopped w e₁ refl refl (tokens.is_cancelled-cancel _) e₅)
  step-Phase stop_call y (stopped w e₁ e₂ e₃ e₄ e₅) =
      rw (stop_unheard T K F IoError y.task e₂) (stopped w e₁ e₂ e₃ e₄ e₅)
  step-Phase (worker_turn r) y (fresh f e₁ e₂ e₃ e₄ e₅) = fresh f e₁ e₂ e₃ e₄ (rw e₅)
  step-Phase (worker_turn r) y (running h w e₁ e₂ e₃ e₄ e₅) =
      running h (turn T K F (K.is_cancelled y.task.cancel_token) r w) e₁ e₂ e₃ e₄ (rw e₅)
  step-Phase (worker_turn r) y (stopped w e₁ e₂ e₃ e₄ e₅) =
      stopped (turn T K F (K.is_cancelled y.task.cancel_token) r w) e₁ e₂ e₃ e₄ (rw e₅)
  step-Phase shut_down y (fresh f e₁ e₂ e₃ e₄ e₅) = fresh f e₁ e₂ e₃ e₄ (rw e₅)
  step-Phase shut_down y (running h w e₁ e₂ e₃ e₄ e₅) =
      running h (abort T K F IoError w) e₁ e₂ e₃ e₄ (rw e₅)
  step-Phase shut_down y (stopped w e₁ e₂ e₃ e₄ e₅) =
      stopped (abort T K F IoError w) e₁ e₂ e₃ e₄ (rw e₅)

  -- Whatever the order of the calls of `start` and `stop` and of the turns of the spawned task: no
  -- `unwrap` behind the lock panics, and the fields of the task agree. It is not started, running or
  -- stopped; it has a handle and says that it is started just while it runs, has its function just
  -- before, and its token is cancelled just afterwards.
  pub run-Phase :
      (es : List Event) (interval : ℕ) (delay : Option ℕ) (f : F.State)
      → Returns (run T K F IoError es (initial T K F IoError interval delay f)) Phase
  unfolding new with_initial_delay
  run-Phase es interval delay f =
      run_inv T K F IoError Phase step-Phase es (initial T K F IoError interval delay f)
        (fresh f refl refl refl tokens.is_cancelled-new refl)
