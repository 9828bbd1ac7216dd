-- ===== src/RepeatedTask/Returns.antt =====
-- When `stop` of src/repeated_task.rs returns.
use rs_run.Base.{
  ℕ, ◌≤◌, ◌<◌, ◌≡◌, refl, subst, ◌∙◌, true, Option, none, some, List, [], ◌∷◌, map, length, Result,
  done, Returns, Returns-map, arith,
}
use Prim.Native.String.{String}
use rs_run.Host.{Timer, IsTimer}
use rs_run.Host.Tasks.{JoinHandle, Tokens, IsTokens}
use rs_run.Error.{Error}
use rs_run.RepeatedTask.{
  TaskFunction, Stage, at_head, asleep, calling, over, Worker, Reading, new, with_initial_delay,
  turn, start, stop_lock, joined, drop_task,
}
use rs_run.RepeatedTask.History.{
  Event, start_call, stop_call, worker_turn, shut_down, System, initial, abort, on_worker, step,
  run, run_inv,
}
use rs_run.RepeatedTask.Phases.{
  Phase, fresh, running, stopped, start_refused, stop_unheard, run-Phase,
}
use rs_run.RepeatedTask.Stops.{turns, turn_interval, AllHeard, turns_end}

module _ (T : Timer) (K : Tokens) (tokens : IsTokens K) {E : Type 0} (F : TaskFunction E)
    (IoError : Type 0) where
  abbrev pub HasInterval : ℕ → Option (Worker T F) → Type 0
  HasInterval i none = Unit {0}
  HasInterval i (some w) = w.interval ≡ i

  abbrev pub Paced : ℕ → System T K F IoError → Type 0
  Paced i y = (y.task.interval ≡ i) × HasInterval i y.worker

  abort_interval : (w : Worker T F) → (abort T K F IoError w).interval ≡ w.interval
  unfolding abort
  abort_interval w = go w.stage refl
    where
      go : (st : Stage T.Sleep) → w.stage ≡ st → (abort T K F IoError w).interval ≡ w.interval
      go at_head e = rw (e, abort) refl
      go (asleep s) e = rw (e, abort) refl
      go calling e = rw (e, abort) refl
      go (over res) e = rw (e, abort) refl

  on_worker-HasInterval :
      (i : ℕ) (g : Worker T F → Worker T F)
      → ((w : Worker T F) → (g w).interval ≡ w.interval)
      → (o : Option (Worker T F)) → HasInterval i o
      → HasInterval i (on_worker T K F IoError g o)
  on_worker-HasInterval i g same none h = tt
  on_worker-HasInterval i g same (some w) h = same w ∙ h

  pub step-Paced :
      (i : ℕ) (e : Event) (y : System T K F IoError)
      → Paced i y
      → Returns (step T K F IoError e y) (Paced i)
  unfolding step start stop_lock
  step-Paced i (start_call h) y (p, q) = go y.task.task_fn refl
    where
      go :
          (o : Option F.State)
          → y.task.task_fn ≡ o
          → Returns (step T K F IoError (start_call h) y) (Paced i)
      go none e = simp (start_refused T K F IoError h y.task e, step) (p, q)
      go (some f) e = rw (e, step, start, e) (p, p)
  step-Paced i stop_call y (p, q) = go y.task.task_handle refl
    where
      go :
          (o : Option JoinHandle)
          → y.task.task_handle ≡ o
          → Returns (step T K F IoError stop_call y) (Paced i)
      go none e = simp (stop_unheard T K F IoError y.task e, step) (p, q)
      go (some f) e = rw (e, step, stop_lock, e) (p, q)
  step-Paced i (worker_turn r) y (p, q) = (
    p,
    on_worker-HasInterval i _ (turn_interval T K F (K.is_cancelled y.task.cancel_token) r) y.worker
        q,
  )
  step-Paced i shut_down y (p, q) = (p, on_worker-HasInterval i _ abort_interval y.worker q)

  run-turns :
      (rs : List Reading) (y : System T K F IoError) (w : Worker T F)
      → y.worker ≡ some w
      → K.is_cancelled y.task.cancel_token ≡ true
      → Returns
          (run T K F IoError (map worker_turn rs) y)
          (λ z. z.worker ≡ some (turns T K F true rs w))
  unfolding run turns step
  run-turns [] y w e c = e
  run-turns (r ∷ rs) y w e c = run-turns rs _ (turn T K F true r w) (rw (e, c) refl) c

  -- If the interval is not zero, and a call of the function that the spawned task awaits returns, `stop`
  -- of a running task returns: five turns of the spawned task after the token has been cancelled are
  -- enough for it to end, if each time that `select!` is reached in them the sleep is not over, or the
  -- token is polled first, and each time that a call is awaited in them it is over. (`select!` polls in
  -- a random order.)
  pub stop_returns :
      (timer : IsTimer T) (es : List Event) (interval : ℕ) (delay : Option ℕ) (f : F.State)
      (y : System T K F IoError) (h : JoinHandle) (w : Worker T F) (rs : List Reading)
      → 0 < interval
      → run T K F IoError es (initial T K F IoError interval delay f) ≡ done y
      → y.task.task_handle ≡ some h
      → y.worker ≡ some w
      → 5 ≤ length rs
      → AllHeard T K F timer rs w
      → Returns (run T K F IoError (stop_call ∷ map worker_turn rs) y) (λ z.
        (w' : Worker T F) × (z.worker ≡ some w')
        × (res : Result (Unit {0}) (Error IoError)) × (joined T K F z.task.name w' ≡ some res))
  unfolding run new with_initial_delay step stop_lock
  stop_returns timer es interval delay f y h w rs long here has is enough heard =
      let init = initial T K F IoError interval delay f in
      let paced =
        subst (λ m. Returns m (Paced interval)) here
          (run_inv T K F IoError (Paced interval) (step-Paced interval) es init (refl, tt)) in
      let same : w.interval ≡ interval = subst (HasInterval interval) is paced.1 in
      rw (has, run, step, stop_lock, has)
        (Returns-map (run T K F IoError (map worker_turn rs) _)
          (λ z e.
            let (res, ends) = turns_end T K F timer rs z.task.name w (omega arith) enough heard in
            (turns T K F true rs w, e, res, ends))
          (run-turns rs _ w is (tokens.is_cancelled-cancel _)))

  -- If the interval is not zero, and a call of the function that the spawned task awaits returns,
  -- dropping a RepeatedTask ends the task that it has spawned, whether it was stopped before or not: five
  -- turns after the drop are enough, if each time that `select!` is reached in them the sleep is not
  -- over, or the token is polled first, and each time that a call is awaited in them it is over.
  pub drop_ends :
      (timer : IsTimer T) (es : List Event) (interval : ℕ) (delay : Option ℕ) (f : F.State)
      (y : System T K F IoError) (w : Worker T F) (n : String) (rs : List Reading)
      → 0 < interval
      → run T K F IoError es (initial T K F IoError interval delay f) ≡ done y
      → y.worker ≡ some w
      → 5 ≤ length rs
      → AllHeard T K F timer rs w
      → Returns
          (run T K F IoError (map worker_turn rs) (record y { task = drop_task T K F y.task }))
          (λ z.
            (w' : Worker T F) × (z.worker ≡ some w')
            × (res : Result (Unit {0}) (Error IoError)) × (joined T K F n w' ≡ some res))
  unfolding new with_initial_delay drop_task
  drop_ends timer es interval delay f y w n rs long here is enough heard =
      let init = initial T K F IoError interval delay f in
      let phase =
        subst (λ m. Returns m (Phase T K tokens F IoError)) here
          (run-Phase T K tokens F IoError es interval delay f) in
      let paced =
        subst (λ m. Returns m (Paced interval)) here
          (run_inv T K F IoError (Paced interval) (step-Paced interval) es init (refl, tt)) in
      let same : w.interval ≡ interval = subst (HasInterval interval) is paced.1 in
      Returns-map
        (run T K F IoError (map worker_turn rs) (record y { task = drop_task T K F y.task }))
        (λ z e.
          let (res, ends) = turns_end T K F timer rs n w (omega arith) enough heard in
          (turns T K F true rs w, e, res, ends))
        (run-turns rs (record y { task = drop_task T K F y.task }) w is (dropped phase))
    where
      dropped :
          Phase T K tokens F IoError y → K.is_cancelled (drop_task T K F y.task).cancel_token ≡ true
      dropped (fresh _ _ _ _ _ e) = absurd (ground arith)
      dropped (running h' _ _ e _ _ _) = rw (e, drop_task) (tokens.is_cancelled-cancel _)
      dropped (stopped _ _ e _ c _) = rw (e, drop_task) c
