-- ===== src/RepeatedTask/Stops.antt =====
-- How the spawned task of src/repeated_task.rs comes to its end.
use rs_run.Base.{
  ℕ, ◌-◌, ◌≤◌, ◌<◌, ◌≡◌, refl, ◌⊎◌, inl, inr, Bool, false, true, some, List, [], ◌∷◌, length, ltb,
  if◌then◌else◌, Result, ok, err, Outcome, done, panicked, arith,
}
use Prim.Native.String.{String}
use rs_run.Host.{Timer, IsTimer}
use rs_run.Host.Tasks.{JoinError, Tokens}
use rs_run.Error.{Error}
use rs_run.RepeatedTask.{
  TaskFunction, Stage, at_head, asleep, calling, over, Worker, Reading, Branch, slept, stopped,
  waits, select, sleep_time, after_call, await_call, after_select, turn, joined,
}

module _ (T : Timer) (K : Tokens) {E : Type 0} (F : TaskFunction E) where
  unfoldable pub turns : Bool → List Reading → Worker T F → Worker T F
  turns stop [] w = w
  turns stop (r ∷ rs) w = turns stop rs (turn T K F stop r w)

  abbrev pub due : Worker T F → ℕ
  due w = sleep_time w.initial_delay w.interval

  -- A bound on the turns that a task has left whose token is cancelled.
  abbrev pub rank_at : Stage T.Sleep → ℕ → ℕ
  rank_at at_head time = if ltb 0 time then 2 else 4
  rank_at (asleep _) time = 1
  rank_at calling time = if ltb 0 time then 3 else 5
  rank_at (over _) time = 0

  abbrev pub rank : Worker T F → ℕ
  rank w = rank_at w.stage (due w)

  after_call_falls :
      (w : Worker T F) (o : Outcome (Result (Unit {0}) E × F.State))
      → rank (after_call T K F w o) ≤ rank_at calling (due w) - 1
  unfolding after_call
  after_call_falls w (done (ok _, s)) = ground arith
  after_call_falls w (done (err e, s)) = ground arith
  after_call_falls w panicked = ground arith

  after_call_interval :
      (w : Worker T F) (o : Outcome (Result (Unit {0}) E × F.State))
      → (after_call T K F w o).interval ≡ w.interval
  unfolding after_call
  after_call_interval w (done (ok _, s)) = refl
  after_call_interval w (done (err e, s)) = refl
  after_call_interval w panicked = refl

  await_call_interval : (b : Bool) (w : Worker T F) → (await_call T K F b w).interval ≡ w.interval
  unfolding await_call
  await_call_interval true w = after_call_interval w (F.call w.task_fn)
  await_call_interval false w = refl

  after_select_interval :
      (w : Worker T F) (s : T.Sleep) (b : Branch) → (after_select T K F w s b).interval ≡ w.interval
  unfolding after_select
  after_select_interval w s slept = refl
  after_select_interval w s stopped = refl
  after_select_interval w s waits = refl

  pub turn_interval :
      (stop : Bool) (r : Reading) (w : Worker T F) → (turn T K F stop r w).interval ≡ w.interval
  unfolding turn
  turn_interval stop r w = go w.stage refl
    where
      go : (st : Stage T.Sleep) → w.stage ≡ st → (turn T K F stop r w).interval ≡ w.interval
      go at_head e = rw (e, turn) refl
      go (asleep s) e = rw (e, turn) (after_select_interval w _ _)
      go calling e = rw (e, turn) (await_call_interval r.call_over w)
      go (over res) e = rw (e, turn) refl

  pub turn_over :
      (stop : Bool) (r : Reading) (w : Worker T F) (res : Result (Unit {0}) JoinError)
      → w.stage ≡ over res
      → turn T K F stop r w ≡ w
  unfolding turn
  turn_over stop r w res e = simp (e, turn)

  module _ (timer : IsTimer T) where
    -- Where `select!` is reached, it polls the token first, or the sleep is not over yet; and where a
    -- call is awaited, it is over.
    abbrev pub Hears : Reading → Stage T.Sleep → Type 0
    Hears r at_head = Unit {0}
    Hears r (asleep s) = (r.token_first ≡ true) ⊎ (r.now < T.deadline s)
    Hears r calling = r.call_over ≡ true
    Hears r (over _) = Unit {0}

    abbrev pub AllHeard : List Reading → Worker T F → Type 0
    AllHeard [] w = Unit {0}
    AllHeard (r ∷ rs) w = Hears r w.stage × AllHeard rs (turn T K F true r w)

    select_heard :
        (r : Reading) (s : T.Sleep)
        → Hears r (asleep s)
        → select r.token_first true (T.poll r.now s r.cx).0 ≡ stopped
    unfolding select
    select_heard r s (inl first) = rw (first) refl
    select_heard r s (inr early) = go r.token_first refl
      where
        go :
            (b : Bool)
            → r.token_first ≡ b
            → select r.token_first true (T.poll r.now s r.cx).0 ≡ stopped
        go true e = rw (e) refl
        go false e = rw (e, timer.not_early r.now s r.cx early) refl

    turn_falls :
        (r : Reading) (w : Worker T F)
        → 0 < w.interval
        → Hears r w.stage
        → rank (turn T K F true r w) ≤ rank w - 1
    unfolding turn await_call after_select sleep_time
    turn_falls r w long heard = go w.stage refl heard
      where
        go :
            (st : Stage T.Sleep)
            → w.stage ≡ st
            → Hears r st
            → rank (turn T K F true r w) ≤ rank w - 1
        go at_head e heard = rw (e, turn) (ground arith)
        go (asleep s) e heard = rw (e, turn, select_heard r s heard) (omega arith)
        go calling e heard = rw (e, turn, heard) (after_call_falls w (F.call w.task_fn))
        go (over res) e heard = rw (turn_over true r w res e, e) (omega arith)

    turns_fall :
        (rs : List Reading) (w : Worker T F)
        → 0 < w.interval
        → AllHeard rs w
        → rank (turns true rs w) ≤ rank w - length rs
    unfolding turns
    turns_fall [] w long heard = omega arith
    turns_fall (r ∷ rs) w long heard =
        let same = turn_interval true r w in
        omega (
          arith,
          turns_fall rs (turn T K F true r w) (omega arith) heard.1,
          turn_falls r w long heard.0,
        )

  rank_most : (w : Worker T F) → rank w ≤ 5
  rank_most w = ground arith

  joined_end :
      {IoError : Type 0} (n : String) (w : Worker T F)
      → rank w ≡ 0
      → (res : Result (Unit {0}) (Error IoError)) × (joined T K F n w ≡ some res)
  unfolding joined
  joined_end {IoError = IoError} n w e = go w.stage refl
    where
      go :
          (st : Stage T.Sleep)
          → w.stage ≡ st
          → (res : Result (Unit {0}) (Error IoError)) × (joined T K F n w ≡ some res)
      go at_head e' = absurd (ground arith)
      go (asleep s) e' = absurd (ground arith)
      go calling e' = absurd (ground arith)
      go (over (ok _)) e' = rw (e', joined) (_, refl)
      go (over (err x)) e' = rw (e', joined) (_, refl)

  pub turns_end :
      {IoError : Type 0} (timer : IsTimer T) (rs : List Reading) (n : String) (w : Worker T F)
      → 0 < w.interval
      → 5 ≤ length rs
      → AllHeard timer rs w
      → (res : Result (Unit {0}) (Error IoError)) × (joined T K F n (turns true rs w) ≡ some res)
  turns_end timer rs n w long enough heard =
      joined_end n (turns true rs w) (omega (arith, turns_fall timer rs w long heard, rank_most w))
