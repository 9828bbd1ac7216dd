-- ===== src/RepeatedTask/Calls.antt =====
-- Calls of `start` and `stop` of src/repeated_task.rs that come after other calls.
use rs_run.Base.{
  ℕ, ◌≡◌, refl, ap, ◌∙◌, false, Option, none, some, List, [], ◌∷◌, ◌++◌, err, done, Returns,
  Returns-bind, Returns-map,
}
use Prim.Native.String.{String}
use rs_run.Host.{Timer}
use rs_run.Host.Tasks.{JoinHandle, Tokens, IsTokens}
use rs_run.Error.{illegal_state}
use rs_run.RepeatedTask.{TaskFunction, new, with_initial_delay, start, stop_lock}
use rs_run.RepeatedTask.History.{
  Event, start_call, stop_call, worker_turn, shut_down, System, initial, step, run, run_inv,
  run-append,
}
use rs_run.RepeatedTask.Phases.{
  Phase, fresh, running, stopped, start_refused, stop_unheard, run-Phase,
}

module _ (T : Timer) (K : Tokens) {E : Type 0} (F : TaskFunction E) (IoError : Type 0) where
  abbrev Named : String → System T K F IoError → Type 0
  Named n y = y.task.name ≡ n

  abbrev Began : String → System T K F IoError → Type 0
  Began n y = (y.task.task_fn ≡ none) × (y.task.name ≡ n)

  start-Began :
      (n : String) (h : JoinHandle) (y : System T K F IoError)
      → Named n y
      → Returns (step T K F IoError (start_call h) y) (Began n)
  unfolding step start
  start-Began n h y e = go y.task.task_fn refl
    where
      go :
          (o : Option F.State)
          → y.task.task_fn ≡ o
          → Returns (step T K F IoError (start_call h) y) (Began n)
      go none e' = simp (start_refused T K F IoError h y.task e', step) (e', e)
      go (some f) e' = rw (e', step, start, e') (refl, e)

  stop-Named :
      (n : String) (y : System T K F IoError)
      → Named n y
      → Returns
          (step T K F IoError stop_call y)
          (λ z. (z.task.task_fn ≡ y.task.task_fn) × Named n z)
  unfolding step stop_lock
  stop-Named n y e = go y.task.task_handle refl
    where
      go :
          (o : Option JoinHandle)
          → y.task.task_handle ≡ o
          → Returns
              (step T K F IoError stop_call y)
              (λ z. (z.task.task_fn ≡ y.task.task_fn) × Named n z)
      go none e' = simp (stop_unheard T K F IoError y.task e', step) (refl, e)
      go (some f) e' = rw (e', step, stop_lock, e') (refl, e)

  step-Named :
      (n : String) (e : Event) (y : System T K F IoError)
      → Named n y
      → Returns (step T K F IoError e y) (Named n)
  unfolding step
  step-Named n (start_call h) y e =
      Returns-map (step T K F IoError (start_call h) y) (λ z b. b.1) (start-Began n h y e)
  step-Named n stop_call y e =
      Returns-map (step T K F IoError stop_call y) (λ z b. b.1) (stop-Named n y e)
  step-Named n (worker_turn r) y e = e
  step-Named n shut_down y e = e

  step-Began :
      (n : String) (e : Event) (y : System T K F IoError)
      → Began n y
      → Returns (step T K F IoError e y) (Began n)
  unfolding step
  step-Began n (start_call h) y (_, e) = start-Began n h y e
  step-Began n stop_call y (b, e) =
      Returns-map (step T K F IoError stop_call y) (λ z c. (c.0 ∙ b, c.1)) (stop-Named n y e)
  step-Began n (worker_turn r) y e = e
  step-Began n shut_down y e = e

  -- After a history with a call of `start` in it, whatever came before and behind it, another call of
  -- `start` returns the error IllegalState with the name of the function, and changes nothing. This
  -- is so for a task that has been stopped as well.
  pub start_again :
      (es es' : List Event) (h h' : JoinHandle) (interval : ℕ) (delay : Option ℕ) (f : F.State)
      → Returns
          (run T K F IoError (es ++ start_call h ∷ es') (initial T K F IoError interval delay f))
          (λ y.
            start T K F {IoError = IoError} h' y.task
            ≡ done (err (illegal_state (F.name f)), y.task, none))
  unfolding run new with_initial_delay
  start_again es es' h h' interval delay f =
      let init = initial T K F IoError interval delay f in
      run-append T K F IoError (Named (F.name f)) _ es (start_call h ∷ es') init
        (run_inv T K F IoError (Named (F.name f)) (step-Named (F.name f)) es init refl)
        (λ z named.
          Returns-bind _ (step T K F IoError (start_call h) z) (run T K F IoError es')
            (start-Began (F.name f) h z named)
            (λ a began.
              Returns-map (run T K F IoError es' a)
                (λ y (b, e).
                  start_refused T K F IoError h' y.task b
                  ∙ ap (λ n. done (err (illegal_state n), y.task, none)) e)
                (run_inv T K F IoError (Began (F.name f)) (step-Began (F.name f)) es' a began)))

  abbrev Halted : System T K F IoError → Type 0
  Halted y = (y.task.task_handle ≡ none) × (y.task.started ≡ false)

  stop-Halted :
      (tokens : IsTokens K) (y : System T K F IoError)
      → Phase T K tokens F IoError y
      → Returns (step T K F IoError stop_call y) Halted
  unfolding step stop_lock
  stop-Halted tokens y (fresh f e₁ e₂ e₃ e₄ e₅) =
      simp (stop_unheard T K F IoError y.task e₂, step) (e₂, e₃)
  stop-Halted tokens y (running h w e₁ e₂ e₃ e₄ e₅) = rw (e₂, step, stop_lock, e₂) (refl, refl)
  stop-Halted tokens y (stopped w e₁ e₂ e₃ e₄ e₅) =
      simp (stop_unheard T K F IoError y.task e₂, step) (e₂, e₃)

  -- After a history that ends with a call of `stop`, the task says that it is not started, and another
  -- call of `stop` returns at once and changes nothing.
  pub stop_again :
      IsTokens K
      → (es : List Event) (interval : ℕ) (delay : Option ℕ) (f : F.State)
      → Returns
          (run T K F IoError (es ++ stop_call ∷ []) (initial T K F IoError interval delay f))
          (λ y. (stop_lock T K F y.task ≡ done (none, y.task)) × (y.task.started ≡ false))
  unfolding run
  stop_again tokens es interval delay f =
      run-append T K F IoError (Phase T K tokens F IoError) _ es (stop_call ∷ [])
        (initial T K F IoError interval delay f)
        (run-Phase T K tokens F IoError es interval delay f)
        (λ z phase.
          Returns-bind _ (step T K F IoError stop_call z) (run T K F IoError [])
            (stop-Halted tokens z phase) (λ y (e, e'). (stop_unheard T K F IoError y.task e, e')))
