-- ===== src/RepeatedTask/Ends.antt =====
-- The spawned task of src/repeated_task.rs behind its end, and one that has none.
use rs_run.Base.{
  ℕ, ◌≡◌, refl, ap, subst, ◌⊎◌, inl, inr, Bool, true, false, Option, none, some, List, [], ◌∷◌,
  Result, ok, err, Outcome, done, panicked, Returns, Returns-map, Returns-bind, arith,
}
use Prim.Native.String.{String}
use rs_run.Host.{Timer}
use rs_run.Host.Tasks.{JoinHandle, JoinError, Tokens, IsTokens}
use rs_run.Error.{Error}
use rs_run.RepeatedTask.{
  TaskFunction, Stage, at_head, asleep, calling, over, Worker, Reading, new, with_initial_delay,
  sleep_time, after_call, await_call, turn, start, stop_lock, joined,
}
use rs_run.RepeatedTask.History.{
  Event, start_call, stop_call, worker_turn, shut_down, System, initial, abort, on_worker, step,
  run, run_inv,
}
use rs_run.RepeatedTask.Phases.{
  Phase, fresh, running, stopped, start_refused, stop_unheard, run-Phase,
}
use rs_run.RepeatedTask.Stops.{turn_over}

module _ (T : Timer) (K : Tokens) {E : Type 0} (F : TaskFunction E) (IoError : Type 0) where
  joined-over :
      (n : String) (w : Worker T F) (res : Result (Unit {0}) (Error IoError))
      → joined T K F n w ≡ some res
      → (r : Result (Unit {0}) JoinError) × (w.stage ≡ over r)
  unfolding joined
  joined-over n w res e = go w.stage refl
    where
      go :
          (st : Stage T.Sleep)
          → w.stage ≡ st
          → (r : Result (Unit {0}) JoinError) × (w.stage ≡ over r)
      go at_head e' = absurd (ground arith)
      go (asleep s) e' = absurd (ground arith)
      go calling e' = absurd (ground arith)
      go (over r) e' = (r, e')

  abort_over :
      (w : Worker T F) (r : Result (Unit {0}) JoinError)
      → w.stage ≡ over r
      → abort T K F IoError w ≡ w
  unfolding abort
  abort_over w r e = simp (e, abort)

  abbrev Ended : Worker T F → System T K F IoError → Type 0
  Ended w y = (y.task.task_fn ≡ none) × (y.worker ≡ some w)

  step-Ended :
      (w : Worker T F) (r : Result (Unit {0}) JoinError)
      → w.stage ≡ over r
      → (e : Event) (y : System T K F IoError) → Ended w y
      → Returns (step T K F IoError e y) (Ended w)
  unfolding step stop_lock
  step-Ended w r over_w (start_call h) y (b, e) =
      simp (start_refused T K F IoError h y.task b, step) (b, e)
  step-Ended w r over_w stop_call y (b, e) = go y.task.task_handle refl
    where
      go :
          (o : Option JoinHandle)
          → y.task.task_handle ≡ o
          → Returns (step T K F IoError stop_call y) (Ended w)
      go none e' = simp (stop_unheard T K F IoError y.task e', step) (b, e)
      go (some f) e' = rw (e', step, stop_lock, e') (b, e)
  step-Ended w r over_w (worker_turn x) y (b, e) =
      (b, rw e (ap some (turn_over T K F _ x w r over_w)))
  step-Ended w r over_w shut_down y (b, e) = (b, rw e (ap some (abort_over w r over_w)))

  -- When `stop` has returned from its await, the spawned task has made its last call: whatever is
  -- called afterwards, it stays as it is, with the function's state and the logged errors.
  pub joined_final :
      IsTokens K
      → (es es' : List Event) (interval : ℕ) (delay : Option ℕ) (f : F.State)
        (y : System T K F IoError) (w : Worker T F) (n : String)
        (res : Result (Unit {0}) (Error IoError))
      → run T K F IoError es (initial T K F IoError interval delay f) ≡ done y
      → y.worker ≡ some w
      → joined T K F n w ≡ some res
      → Returns (run T K F IoError es' y) (λ z. z.worker ≡ some w)
  joined_final tokens es es' interval delay f y w n res here is ended =
      let (r, over_w) = joined-over n w res ended in
      let phase =
        subst (λ m. Returns m (Phase T K tokens F IoError)) here
          (run-Phase T K tokens F IoError es interval delay f) in
      Returns-map (run T K F IoError es' y) (λ z e. e.1)
        (run_inv T K F IoError (Ended w) (step-Ended w r over_w) es' y (begun phase, is))
    where
      begun : Phase T K tokens F IoError y → y.task.task_fn ≡ none
      begun (fresh _ _ _ _ _ e) = absurd (ground arith)
      begun (running _ _ e _ _ _ _) = e
      begun (stopped _ e _ _ _ _) = e

  abbrev pub NoShutDown : List Event → Type 0
  NoShutDown [] = Unit {0}
  NoShutDown (start_call h ∷ es) = NoShutDown es
  NoShutDown (stop_call ∷ es) = NoShutDown es
  NoShutDown (worker_turn r ∷ es) = NoShutDown es
  NoShutDown (shut_down ∷ es) = ⊥

  -- The loop goes between its head and the call.
  abbrev Busy : Worker T F → Type 0
  Busy w =
      (sleep_time w.initial_delay w.interval ≡ 0)
      × (w.interval ≡ 0)
      × ((w.stage ≡ at_head) ⊎ (w.stage ≡ calling))

  abbrev AllBusy : Option (Worker T F) → Type 0
  AllBusy none = Unit {0}
  AllBusy (some w) = Busy w

  abbrev Idle : System T K F IoError → Type 0
  Idle y =
      (sleep_time y.task.initial_delay y.task.interval ≡ 0)
      × (y.task.interval ≡ 0)
      × AllBusy y.worker

  module _ (sound : (s : F.State) → Returns (F.call s) (λ _. Unit {0})) where
    after_call-Busy :
        (w : Worker T F) (o : Outcome (Result (Unit {0}) E × F.State))
        → Returns o (λ _. Unit {0})
        → Busy w
        → Busy (after_call T K F w o)
    unfolding after_call
    after_call-Busy w (done (ok _, s)) h (a, b, c) = (a, b, inl refl)
    after_call-Busy w (done (err e, s)) h (a, b, c) = (a, b, inl refl)
    after_call-Busy w panicked h busy = absurd h

    await_call-Busy : (b : Bool) (w : Worker T F) → Busy w → Busy (await_call T K F b w)
    unfolding await_call
    await_call-Busy true w busy = after_call-Busy w (F.call w.task_fn) (sound w.task_fn) busy
    await_call-Busy false w busy = busy

    turn-Busy : (stop : Bool) (r : Reading) (w : Worker T F) → Busy w → Busy (turn T K F stop r w)
    unfolding turn sleep_time
    turn-Busy stop r w (a, b, inl e) = rw (e, turn) (b, b, inr (ground arith))
    turn-Busy stop r w (a, b, inr e) = rw (e, turn) (await_call-Busy r.call_over w (a, b, inr e))

    turns-AllBusy :
        (stop : Bool) (r : Reading) (o : Option (Worker T F))
        → AllBusy o
        → AllBusy (on_worker T K F IoError (turn T K F stop r) o)
    turns-AllBusy stop r none h = tt
    turns-AllBusy stop r (some w) h = turn-Busy stop r w h

    run-Idle :
        (es : List Event) (y : System T K F IoError)
        → NoShutDown es
        → Idle y
        → Returns (run T K F IoError es y) Idle
    unfolding run step start stop_lock
    run-Idle [] y on h = h
    run-Idle (start_call h ∷ es) y on (a, b, c) =
        Returns-bind Idle (step T K F IoError (start_call h) y) (run T K F IoError es)
          (go y.task.task_fn refl) (λ z idle. run-Idle es z on idle)
      where
        go :
            (o : Option F.State)
            → y.task.task_fn ≡ o
            → Returns (step T K F IoError (start_call h) y) Idle
        go none e = simp (start_refused T K F IoError h y.task e, step) (a, b, c)
        go (some f) e = rw (e, step, start, e) (a, b, (a, b, inl refl))
    run-Idle (stop_call ∷ es) y on (a, b, c) =
        Returns-bind Idle (step T K F IoError stop_call y) (run T K F IoError es)
          (go y.task.task_handle refl) (λ z idle. run-Idle es z on idle)
      where
        go :
            (o : Option JoinHandle)
            → y.task.task_handle ≡ o
            → Returns (step T K F IoError stop_call y) Idle
        go none e = simp (stop_unheard T K F IoError y.task e, step) (a, b, c)
        go (some f) e = rw (e, step, stop_lock, e) (a, b, c)
    run-Idle (worker_turn r ∷ es) y on (a, b, c) =
        run-Idle es _ on (a, b, turns-AllBusy _ r y.worker c)
    run-Idle (shut_down ∷ es) y on h = absurd on

    not_joined :
        (n : String) (o : Option (Worker T F))
        → AllBusy o
        → (o ≡ none)
          ⊎ ((w : Worker T F) × (o ≡ some w) × (joined T K F {IoError = IoError} n w ≡ none))
    unfolding joined
    not_joined n none h = inl refl
    not_joined n (some w) (_, _, inl e) = inr (w, refl, rw (e, joined) refl)
    not_joined n (some w) (_, _, inr e) = inr (w, refl, rw (e, joined) refl)

    -- Let the interval be zero, and the initial delay zero or absent, and let no call of the function
    -- panic. Then the spawned task never ends before its runtime does, whether its token is cancelled
    -- or not: the loop does not look at it. A call of `stop` that awaits it does not return.
    pub zero_interval_endless :
        (es : List Event) (delay : Option ℕ) (f : F.State)
        → sleep_time delay 0 ≡ 0
        → NoShutDown es
        → Returns (run T K F IoError es (initial T K F IoError 0 delay f)) (λ y.
          (y.worker ≡ none)
          ⊎ ((w : Worker T F) × (y.worker ≡ some w)
              × (joined T K F {IoError = IoError} y.task.name w ≡ none)))
    unfolding new with_initial_delay
    zero_interval_endless es delay f none_due on =
        let init = initial T K F IoError 0 delay f in
        Returns-map (run T K F IoError es init) (λ y idle. not_joined y.task.name y.worker idle.2)
          (run-Idle es init on (none_due, refl, tt))
