-- ===== src/RepeatedTask/Loop/Made.antt =====
-- The loop of src/repeated_task.rs calls the function again and again and notes its errors.
use rs_run.Base.{
  ℕ, suc, ◌≡◌, refl, ◌∙◌, subst, sym, ◌⊎◌, inl, inr, Bool, true, false, Option, none, some, List,
  [], Result, ok, err, Outcome, done, panicked, Returns, Returns-map, if◌then◌else◌, arith,
}
use rs_run.Host.{Poll, ready, pending, Timer}
use rs_run.Host.Tasks.{JoinHandle, cancelled, panic, Tokens, IsTokens}
use rs_run.RepeatedTask.{
  TaskFunction, Stage, at_head, asleep, calling, over, Worker, Reading, Branch, slept, stopped,
  waits, select, new, with_initial_delay, after_call, await_call, after_select, turn, start,
  stop_lock,
}
use rs_run.RepeatedTask.History.{
  Event, start_call, stop_call, worker_turn, shut_down, System, initial, abort, step, run, run_inv,
}
use rs_run.RepeatedTask.Phases.{start_refused, stop_unheard}
use rs_run.RepeatedTask.Stops.{turn_over}
use rs_run.RepeatedTask.Loop.{called, called_last}

module _ (T : Timer) (K : Tokens) {E : Type 0} (F : TaskFunction E) where
  -- Why the task is over: its token is cancelled, or the function panicked in its next call.
  abbrev pub HasCause : Bool → F.State → Stage T.Sleep → Type 0
  HasCause stop f at_head = Unit {0}
  HasCause stop f (asleep s) = Unit {0}
  HasCause stop f calling = Unit {0}
  HasCause stop f (over (ok _)) = stop ≡ true
  HasCause stop f (over (err cancelled)) = Unit {0}
  HasCause stop f (over (err panic)) = F.call f ≡ panicked

  abbrev pub Made : F.State → Bool → Worker T F → Type 0
  Made f stop w =
      ((n : ℕ) × (called F [] n f ≡ done (w.task_fn, w.failures))) × HasCause stop w.task_fn w.stage

  after_call-Made :
      (f : F.State) (stop : Bool) (w : Worker T F) (m : Outcome (Result (Unit {0}) E × F.State))
      → F.call w.task_fn ≡ m
      → Made f stop w
      → Made f stop (after_call T K F w m)
  unfolding after_call called
  after_call-Made f stop w (done (ok _, g)) e ((n, c), _) =
      ((suc n, rw (called_last F n f [], c, e) refl), tt)
  after_call-Made f stop w (done (err x, g)) e ((n, c), _) =
      ((suc n, rw (called_last F n f [], c, e) refl), tt)
  after_call-Made f stop w panicked e (h, _) = (h, e)

  asleep-HasCause :
      (stop b : Bool) (f : F.State) (s : T.Sleep)
      → HasCause stop f (if b then asleep s else calling)
  asleep-HasCause stop true f s = tt
  asleep-HasCause stop false f s = tt

  after_select-Made :
      (f : F.State) (stop : Bool) (w : Worker T F) (s : T.Sleep) (b : Branch)
      → (b ≡ stopped → stop ≡ true)
      → Made f stop w
      → Made f stop (after_select T K F w s b)
  unfolding after_select
  after_select-Made f stop w s slept why (h, _) = (h, tt)
  after_select-Made f stop w s stopped why (h, _) = (h, why refl)
  after_select-Made f stop w s waits why (h, _) = (h, tt)

  select_stopped :
      (first stop : Bool) (fired : Poll (Unit {0}))
      → select first stop fired ≡ stopped
      → stop ≡ true
  unfolding select
  select_stopped true true fired e = refl
  select_stopped true false (ready v) e = absurd (ground arith)
  select_stopped true false pending e = absurd (ground arith)
  select_stopped false stop (ready v) e = absurd (ground arith)
  select_stopped false true pending e = refl
  select_stopped false false pending e = absurd (ground arith)

  await_call-Made :
      (f : F.State) (stop b : Bool) (w : Worker T F)
      → Made f stop w
      → Made f stop (await_call T K F b w)
  unfolding await_call
  await_call-Made f stop true w h = after_call-Made f stop w (F.call w.task_fn) refl h
  await_call-Made f stop false w h = h

  turn-Made :
      (f : F.State) (stop : Bool) (r : Reading) (w : Worker T F)
      → Made f stop w
      → Made f stop (turn T K F stop r w)
  unfolding turn
  turn-Made f stop r w (h, c) = go w.stage refl
    where
      go : (st : Stage T.Sleep) → w.stage ≡ st → Made f stop (turn T K F stop r w)
      go at_head e = rw (e, turn) (h, asleep-HasCause stop _ w.task_fn _)
      go (asleep s) e =
          rw (e, turn)
            (after_select-Made f stop w _ _
              (select_stopped r.token_first stop (T.poll r.now s r.cx).0) (h, c))
      go calling e = rw (e, turn) (await_call-Made f stop r.call_over w (h, c))
      go (over res) e = rw (turn_over T K F stop r w res e) (h, c)

  Made-stop : (f : F.State) (stop : Bool) (w : Worker T F) → Made f stop w → Made f true w
  Made-stop f stop w (h, c) = (h, go w.stage refl)
    where
      go : (st : Stage T.Sleep) → w.stage ≡ st → HasCause true w.task_fn w.stage
      go at_head e = rw (e) tt
      go (asleep s) e = rw (e) tt
      go calling e = rw (e) tt
      go (over (ok v)) e = rw (e) refl
      go (over (err cancelled)) e = rw (e) tt
      go (over (err panic)) e = let c' = rw (e) at c in rw (e) c'

module _ (T : Timer) (K : Tokens) (tokens : IsTokens K) {E : Type 0} (F : TaskFunction E)
    (IoError : Type 0) where
  abort-Made :
      (f : F.State) (stop : Bool) (w : Worker T F)
      → Made T K F f stop w
      → Made T K F f stop (abort T K F IoError w)
  unfolding abort
  abort-Made f stop w (h, c) = go w.stage refl
    where
      go : (st : Stage T.Sleep) → w.stage ≡ st → Made T K F f stop (abort T K F IoError w)
      go at_head e = rw (e, abort) (h, tt)
      go (asleep s) e = rw (e, abort) (h, tt)
      go calling e = rw (e, abort) (h, tt)
      go (over res) e = rw (e, abort) (h, c)

  abbrev pub AllMade : F.State → Bool → Option (Worker T F) → Type 0
  AllMade f stop none = Unit {0}
  AllMade f stop (some w) = Made T K F f stop w

  -- The function waits in the task, or it is with what the task has spawned.
  abbrev pub Held : F.State → System T K F IoError → Type 0
  Held f y =
      ((y.task.task_fn ≡ some f) × (y.worker ≡ none))
      ⊎ ((w : Worker T F) × (y.task.task_fn ≡ none)
          × (y.worker ≡ some w)
          × Made T K F f (K.is_cancelled y.task.cancel_token) w)

  pub step-Held :
      (f : F.State) (e : Event) (y : System T K F IoError)
      → Held f y
      → Returns (step T K F IoError e y) (Held f)
  unfolding step start stop_lock called
  step-Held f (start_call h) y (inl (a, b)) =
      rw (a, step, start, a) (inr (_, refl, refl, ((0, refl), tt)))
  step-Held f (start_call h) y (inr (w, a, b, m)) =
      simp (start_refused T K F IoError h y.task a, step) (inr (w, a, b, m))
  step-Held f stop_call y held = go y.task.task_handle refl held
    where
      go :
          (o : Option JoinHandle)
          → y.task.task_handle ≡ o
          → Held f y
          → Returns (step T K F IoError stop_call y) (Held f)
      go none e held = simp (stop_unheard T K F IoError y.task e, step) held
      go (some h) e (inl (a, b)) = rw (e, step, stop_lock, e) (inl (a, b))
      go (some h) e (inr (w, a, b, m)) =
          rw (e, step, stop_lock, e)
            (inr (
              w,
              a,
              b,
              subst (λ stop. Made T K F f stop w) (sym (tokens.is_cancelled-cancel _))
                  (Made-stop T K F f _ w m),
            ))
  step-Held f (worker_turn r) y (inl (a, b)) = inl (a, rw (b) refl)
  step-Held f (worker_turn r) y (inr (w, a, b, m)) = inr (
    turn T K F (K.is_cancelled y.task.cancel_token) r w,
    a,
    rw (b) refl,
    turn-Made T K F f _ r w m,
  )
  step-Held f shut_down y (inl (a, b)) = inl (a, rw (b) refl)
  step-Held f shut_down y (inr (w, a, b, m)) =
      inr (abort T K F IoError w, a, rw (b) refl, abort-Made f _ w m)

  -- Whatever the order of calls of `start` and `stop`, of turns of the spawned task and of the end of
  -- the runtime: no unwrap panics, and the state of the function in the spawned task and the errors
  -- that it has logged are those of some number of calls of the function, one after the other. If the
  -- task ended without an error, its token is cancelled; if it ended by a panic, the next call of the
  -- function is one that panics. An error of the function does not end it.
  pub calls_in_order :
      (es : List Event) (interval : ℕ) (delay : Option ℕ) (f : F.State)
      → Returns (run T K F IoError es (initial T K F IoError interval delay f)) (λ y.
        (w : Worker T F)
        → y.worker ≡ some w
        → ((n : ℕ) × (called F [] n f ≡ done (w.task_fn, w.failures)))
          × (w.stage ≡ over (ok tt) → K.is_cancelled y.task.cancel_token ≡ true)
          × (w.stage ≡ over (err panic) → F.call w.task_fn ≡ panicked))
  unfolding new with_initial_delay
  calls_in_order es interval delay f =
      let init = initial T K F IoError interval delay f in
      Returns-map (run T K F IoError es init) (λ y held w e. told y w e held)
        (run_inv T K F IoError (Held f) (step-Held f) es init (inl (refl, refl)))
    where
      told :
          (y : System T K F IoError) (w : Worker T F)
          → y.worker ≡ some w
          → Held f y
          → ((n : ℕ) × (called F [] n f ≡ done (w.task_fn, w.failures)))
            × (w.stage ≡ over (ok tt) → K.is_cancelled y.task.cancel_token ≡ true)
            × (w.stage ≡ over (err panic) → F.call w.task_fn ≡ panicked)
      told y w e (inl (a, b)) = absurd (ground arith)
      told y w e (inr (w', a, b, m)) =
          let stop = K.is_cancelled y.task.cancel_token in
          let (h, c) = subst (AllMade f stop) (sym b ∙ e) m in
          (
            h,
            λ e'. subst (HasCause T K F stop w.task_fn) e' c,
            λ e'. subst (HasCause T K F stop w.task_fn) e' c,
          )
