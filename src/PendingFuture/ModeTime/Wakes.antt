-- ===== src/PendingFuture/ModeTime/Wakes.antt =====
-- The wake-up contract of `poll` in mode_time.rs.
use rs_run.Base.{◌+◌, ◌≤◌, ◌≡◌, refl, ◌⊎◌, inl, inr, Returns, arith}
use rs_run.Host.{ready, Context, Future, IsFuture, Timer, IsTimer, IsArmed}
use rs_run.PendingFuture.Backoff.{asleep-IsArmed, rested_keeps, back_off-IsArmed}
use rs_run.PendingFuture.ModeTime.Cases.{IsAwake, poll_paths}
use rs_run.PendingFuture.ModeTime.{PendingFuture, Readings, poll}

module _ (T : Timer) (timer : IsTimer T) {Output : Type 0} (F : Future Output) where
  awake_keeps :
      (r : Readings) (p : PendingFuture T F) (cx cx' : Context)
      → IsAwake T F r p cx cx'
      → cx.held + cx.wakes ≤ cx'.held + cx'.wakes
  awake_keeps r p cx cx' (inl e) = rested_keeps T timer r.resumed p.state cx cx' e
  awake_keeps r p cx cx' (inr (_, e)) = rw e (omega arith)

  -- If the inner future keeps the contract of `Future`, so does the wrapped one: a call of `poll`
  -- does not panic, and it returns a result, or the task's waker has been taken by somebody or woken
  -- since the call began.
  pub poll_time-IsArmed :
      IsFuture F
      → (r : Readings) (p : PendingFuture T F) (cx : Context)
      → Returns (poll T F r p cx) (λ v. ((out : Output) × (v.result ≡ ready out)) ⊎ IsArmed cx v.cx)
  poll_time-IsArmed inner r p cx = poll_paths T F _ r p cx (record {
    sleeping = λ s cx' e. inr (asleep-IsArmed T timer r.resumed p.state cx s cx' e);
    pausing = λ cx' _ st cx'' awake _ _ e.
        let before = awake_keeps r p cx cx' awake in
        let armed = back_off-IsArmed T timer r.slept r.rechecked _ cx' st cx'' e in
        inr (omega arith);
    finishing = λ cx' out _ _ _. inl (out, refl);
    waiting = λ cx' awake _ e.
        let before = awake_keeps r p cx cx' awake in
        let armed = inner.registers r.polled p.future cx' e in inr (omega arith);
  })
