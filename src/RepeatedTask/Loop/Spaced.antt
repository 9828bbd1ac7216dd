-- ===== src/RepeatedTask/Loop/Spaced.antt =====
-- The calls of src/repeated_task.rs against the time that passes.
use rs_run.Base.{
  ℕ, zero, suc, ◌+◌, ◌*◌, ◌≤◌, ◌≡◌, refl, ap, ◌-◌, ◌⊎◌, inl, inr, Option, none, some, List, [], ◌∷◌,
  done, Returns, Returns-bind, Returns-map, arith,
}
use rs_run.Host.{Timer, IsTimer, max_sleep}
use rs_run.Host.Tasks.{JoinHandle, Tokens}
use rs_run.RepeatedTask.{
  TaskFunction, Stage, at_head, asleep, calling, over, Worker, new, with_initial_delay, sleep_time,
  turn, start, stop_lock,
}
use rs_run.RepeatedTask.History.{
  Event, start_call, stop_call, worker_turn, shut_down, System, initial, abort, step, run,
}
use rs_run.RepeatedTask.Phases.{start_refused, stop_unheard}
use rs_run.RepeatedTask.Loop.{called}
use rs_run.RepeatedTask.Loop.Rate.{earliest, Late, IsPaced, turn-IsPaced}

-- The clock does not go back from one turn to the next.
abbrev pub Ordered : ℕ → List Event → Type 0
Ordered now [] = Unit {0}
Ordered now (start_call handle ∷ es) = Ordered now es
Ordered now (stop_call ∷ es) = Ordered now es
Ordered now (worker_turn r ∷ es) = (now ≤ r.now) × Ordered r.now es
Ordered now (shut_down ∷ es) = Ordered now es

-- The time of the last turn.
unfoldable pub last_time : ℕ → List Event → ℕ
last_time now [] = now
last_time now (start_call handle ∷ es) = last_time now es
last_time now (stop_call ∷ es) = last_time now es
last_time now (worker_turn r ∷ es) = last_time r.now es
last_time now (shut_down ∷ es) = last_time now es

module _ (T : Timer) (timer : IsTimer T) (K : Tokens) {E : Type 0} (F : TaskFunction E)
    (IoError : Type 0) (f : F.State) (began first interval : ℕ) (short : first ≤ max_sleep)
    (short' : interval ≤ max_sleep) where
  abbrev Paced : ℕ → Worker T F → Type 0
  Paced now w = IsPaced T timer K F f began first interval short short' now w

  abort-Paced : (now : ℕ) (w : Worker T F) → Paced now w → Paced now (abort T K F IoError w)
  unfolding abort
  abort-Paced now w (n, c, same, late, at) = go w.stage refl
    where
      go : (st : Stage T.Sleep) → w.stage ≡ st → Paced now (abort T K F IoError w)
      go at_head e = rw (e, abort) (n, c, same, late, tt)
      go (asleep s) e = rw (e, abort) (n, c, same, late, tt)
      go calling e = rw (e, abort) (n, c, same, late, tt)
      go (over res) e = rw (e, abort) (n, c, same, late, at)

  abbrev Runs : ℕ → System T K F IoError → Type 0
  Runs now y = (w : Worker T F) × (y.worker ≡ some w) × (y.task.task_fn ≡ none) × Paced now w

  run-Runs :
      (es : List Event) (now : ℕ) (y : System T K F IoError)
      → Ordered now es
      → Runs now y
      → Returns (run T K F IoError es y) (Runs (last_time now es))
  unfolding run step last_time stop_lock
  run-Runs [] now y ordered h = h
  run-Runs (start_call handle ∷ es) now y ordered (w, e, b, p) =
      simp (start_refused T K F IoError handle y.task b, step)
        (run-Runs es now y ordered (w, e, b, p))
  run-Runs (stop_call ∷ es) now y ordered (w, e, b, p) =
      Returns-bind (Runs (last_time now es)) (step T K F IoError stop_call y) (run T K F IoError es)
        (go y.task.task_handle refl) (λ z h. run-Runs es now z ordered h)
    where
      go :
          (o : Option JoinHandle)
          → y.task.task_handle ≡ o
          → Returns (step T K F IoError stop_call y) (Runs now)
      go none e' = simp (stop_unheard T K F IoError y.task e', step) (w, e, b, p)
      go (some h) e' = rw (e', step, stop_lock, e') (w, e, b, p)
  run-Runs (worker_turn r ∷ es) now y (le, ordered) (w, e, b, p) = run-Runs es r.now _ ordered (
    turn T K F (K.is_cancelled y.task.cancel_token) r w,
    rw (e) refl,
    b,
    turn-IsPaced T timer K F f began first interval short short' _ now r w le p,
  )
  run-Runs (shut_down ∷ es) now y ordered (w, e, b, p) =
      run-Runs es now _ ordered (abort T K F IoError w, rw (e) refl, b, abort-Paced now w p)

  earliest_lem :
      (k : ℕ)
      → earliest T timer K F f began first interval short short' k ≡ began + first + k * interval
  unfolding earliest
  earliest_lem zero = omega arith
  earliest_lem (suc k) = omega (arith, earliest_lem k)

module _ (T : Timer) (timer : IsTimer T) (K : Tokens) {E : Type 0} (F : TaskFunction E)
    (IoError : Type 0) where
  -- Let a task be started at a time, and calls of `start` and `stop`, turns of the spawned task and the
  -- end of the runtime follow in any order, on a clock that does not go back. The spawned task has made
  -- some number of calls of the function, one after the other; and by its last turn the delay of the
  -- first call has passed since the start, and the interval once for each further call.
  pub calls_spaced :
      (es : List Event) (handle : JoinHandle) (began interval : ℕ) (delay : Option ℕ) (f : F.State)
      → sleep_time delay interval ≤ max_sleep
      → interval ≤ max_sleep
      → Ordered began es
      → Returns
          (run T K F IoError (start_call handle ∷ es) (initial T K F IoError interval delay f))
          (λ y.
            (w : Worker T F) × (y.worker ≡ some w)
            × (n : ℕ) × (called F [] n f ≡ done (w.task_fn, w.failures))
            × ((n ≡ 0)
                ⊎ (began + sleep_time delay interval + (n - 1) * interval ≤ last_time began es)))
  unfolding run step start new with_initial_delay called
  calls_spaced es handle began interval delay f short short' ordered =
      let first = sleep_time delay interval in
      Returns-map (run T K F IoError es _)
        (λ y (w, e, _, (n, c, _, late, _)). (w, e, n, c, told n late))
        (run-Runs T timer K F IoError f began first interval short short' es began _ ordered
          (_, refl, refl, (0, refl, refl, tt, inl (refl, omega arith, refl))))
    where
      told :
          (n : ℕ)
          → Late T timer K F f began
              (sleep_time delay interval)
              interval
              short
              short'
              n
              (last_time began es)
          → (n ≡ 0) ⊎ (began + sleep_time delay interval + (n - 1) * interval ≤ last_time began es)
      told zero late = inl refl
      told (suc n) late =
          let same : n * interval ≡ (suc n - 1) * interval = ap (λ m. m * interval) (omega arith) in
          inr (
            omega (
              arith,
              late,
              same,
              earliest_lem T timer K F IoError f began (sleep_time delay interval) interval short
                  short' n,
            ))
