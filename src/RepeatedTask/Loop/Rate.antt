-- ===== src/RepeatedTask/Loop/Rate.antt =====
-- How often the loop of src/repeated_task.rs calls the function at most.
use rs_run.Base.{
  ℕ, zero, suc, ◌+◌, ◌≤◌, ◌<◌, ◌≡◌, refl, ◌⊎◌, inl, inr, Bool, true, false, none, [], ltb,
  if◌then◌else◌, Result, ok, err, Outcome, done, panicked, arith,
}
use rs_run.Host.{Timer, IsTimer, max_sleep}
use rs_run.Host.Tasks.{Tokens}
use rs_run.RepeatedTask.{
  TaskFunction, Stage, at_head, asleep, calling, over, Worker, Reading, Branch, slept, stopped,
  waits, select, sleep_time, after_call, await_call, after_select, turn,
}
use rs_run.RepeatedTask.Stops.{due, turn_over}
use rs_run.RepeatedTask.Loop.{called, called_last}

module _ (T : Timer) (timer : IsTimer T) (K : Tokens) {E : Type 0} (F : TaskFunction E)
    (f : F.State) (began first interval : ℕ) (short : first ≤ max_sleep)
    (short' : interval ≤ max_sleep) where
  -- The time before which the call with this number, from zero, is not made.
  unfoldable pub earliest : ℕ → ℕ
  earliest zero = began + first
  earliest (suc k) = earliest k + interval

  -- The calls that have been made were not made before their times.
  abbrev pub Late : ℕ → ℕ → Type 0
  Late zero now = Unit {0}
  Late (suc k) now = earliest k ≤ now

  abbrev pub InTime : ℕ → ℕ → Worker T F → Stage T.Sleep → Type 0
  InTime n now w at_head =
      ((n ≡ 0) × (began ≤ now) × (due T K F w ≡ first)) ⊎ ((0 < n) × (w.initial_delay ≡ none))
  InTime n now w (asleep s) = (w.initial_delay ≡ none) × (earliest n ≤ T.deadline s)
  InTime n now w calling = (w.initial_delay ≡ none) × (earliest n ≤ now)
  InTime n now w (over _) = Unit {0}

  abbrev pub IsPaced : ℕ → Worker T F → Type 0
  IsPaced now w =
      (n : ℕ) × (called F [] n f ≡ done (w.task_fn, w.failures))
      × (w.interval ≡ interval)
      × Late n now
      × InTime n now w w.stage

  later : (n now now' : ℕ) → now ≤ now' → Late n now → Late n now'
  later zero now now' le h = tt
  later (suc k) now now' le h = omega (arith, h)

  -- From the head of the loop.
  due_later :
      (n now : ℕ) (r : Reading) (w : Worker T F)
      → now ≤ r.now
      → w.interval ≡ interval
      → Late n now
      → InTime n now w at_head
      → (earliest n ≤ r.now + due T K F w) × (due T K F w ≤ max_sleep)
  unfolding earliest sleep_time
  due_later zero now r w le same late (inl (_, after, e)) = (omega arith, omega arith)
  due_later zero now r w le same late (inr (some_calls, _)) = absurd (omega arith)
  due_later (suc k) now r w le same late (inl (no_calls, _, _)) = absurd (omega (arith, no_calls))
  due_later (suc k) now r w le same late (inr (_, e)) =
      let d : due T K F w ≡ interval = rw (e) same in (omega (arith, late, d), omega (arith, d))

  after_call-IsPaced :
      (n now : ℕ) (w : Worker T F) (m : Outcome (Result (Unit {0}) E × F.State))
      → F.call w.task_fn ≡ m
      → called F [] n f ≡ done (w.task_fn, w.failures)
      → w.interval ≡ interval
      → w.initial_delay ≡ none
      → Late n now
      → earliest n ≤ now
      → IsPaced now (after_call T K F w m)
  unfolding after_call
  after_call-IsPaced n now w (done (ok _, g)) e c same fresh late at =
      (suc n, rw (called_last F n f [], c, e) refl, same, at, inr (omega arith, fresh))
  after_call-IsPaced n now w (done (err x, g)) e c same fresh late at =
      (suc n, rw (called_last F n f [], c, e) refl, same, at, inr (omega arith, fresh))
  after_call-IsPaced n now w panicked e c same fresh late at = (n, c, same, late, tt)

  await_call-IsPaced :
      (n now : ℕ) (b : Bool) (w : Worker T F)
      → w.stage ≡ calling
      → called F [] n f ≡ done (w.task_fn, w.failures)
      → w.interval ≡ interval
      → w.initial_delay ≡ none
      → Late n now
      → earliest n ≤ now
      → IsPaced now (await_call T K F b w)
  unfolding await_call
  await_call-IsPaced n now true w e c same fresh late at =
      after_call-IsPaced n now w (F.call w.task_fn) refl c same fresh late at
  await_call-IsPaced n now false w e c same fresh late at = (n, c, same, late, rw e (fresh, at))

  fired_late :
      (r : Reading) (s : T.Sleep) (stop : Bool)
      → select r.token_first stop (T.poll r.now s r.cx).0 ≡ slept
      → T.deadline s ≤ r.now
  unfolding select
  fired_late r s stop e = go r.token_first stop (ltb r.now (T.deadline s)) refl e
    where
      go :
          (first stop b : Bool)
          → ltb r.now (T.deadline s) ≡ b
          → select first stop (T.poll r.now s r.cx).0 ≡ slept
          → T.deadline s ≤ r.now
      go first stop false e' e = ground arith
      go true true true e' e = absurd (ground arith)
      go true false true e' e =
          let e'' = rw (timer.not_early r.now s r.cx (ground arith)) at e in absurd (ground arith)
      go false true true e' e =
          let e'' = rw (timer.not_early r.now s r.cx (ground arith)) at e in absurd (ground arith)
      go false false true e' e =
          let e'' = rw (timer.not_early r.now s r.cx (ground arith)) at e in absurd (ground arith)

  after_select-IsPaced :
      (n now : ℕ) (w : Worker T F) (s : T.Sleep) (b : Branch)
      → called F [] n f ≡ done (w.task_fn, w.failures)
      → w.interval ≡ interval
      → w.initial_delay ≡ none
      → Late n now
      → earliest n ≤ T.deadline s
      → (b ≡ slept → T.deadline s ≤ now)
      → IsPaced now (after_select T K F w s b)
  unfolding after_select
  after_select-IsPaced n now w s slept c same fresh late at fired =
      (n, c, same, late, (fresh, omega (arith, at, fired refl)))
  after_select-IsPaced n now w s stopped c same fresh late at fired = (n, c, same, late, tt)
  after_select-IsPaced n now w s waits c same fresh late at fired = (n, c, same, late, (fresh, at))

  pub turn-IsPaced :
      (stop : Bool) (now : ℕ) (r : Reading) (w : Worker T F)
      → now ≤ r.now
      → IsPaced now w
      → IsPaced r.now (turn T K F stop r w)
  unfolding turn
  turn-IsPaced stop now r w le (n, c, same, late, at) = go w.stage refl at
    where
      late' : Late n r.now
      late' = later n now r.now le late

      sleeps :
          (b : Bool)
          → ltb 0 (due T K F w) ≡ b
          → (earliest n ≤ r.now + due T K F w)
          → due T K F w ≤ max_sleep
          → let time = due T K F w in
            InTime n r.now
              (record w { initial_delay = none })
              (if b then asleep (T.sleep r.now time) else calling)
      sleeps true e bound fits = (refl, rw (timer.deadline-sleep r.now (due T K F w) fits) bound)
      sleeps false e bound fits = (refl, ground arith)

      go :
          (st : Stage T.Sleep)
          → w.stage ≡ st
          → InTime n now w st
          → IsPaced r.now (turn T K F stop r w)
      go at_head e at =
          let (bound, fits) = due_later n now r w le same late at in
          rw (e, turn) (n, c, same, late', sleeps (ltb 0 (due T K F w)) refl bound fits)
      go (asleep s) e (fresh, at) =
          rw (e, turn)
            (after_select-IsPaced n r.now w (T.poll r.now s r.cx).1 _ c same fresh late'
              (rw (timer.deadline-poll r.now s r.cx) at)
              (λ e'. rw (timer.deadline-poll r.now s r.cx) (fired_late r s stop e')))
      go calling e (fresh, at) =
          rw (e, turn)
            (await_call-IsPaced n r.now r.call_over w e c same fresh late' (omega (arith, at)))
      go (over res) e at = rw (turn_over T K F stop r w res e) (n, c, same, late', rw (e) tt)
