-- ===== src/PendingFuture/ModeCount/Wakes.antt =====
-- The wake-up contract of `poll` in mode_count.rs.
use rs_run.Base.{ℕ, ◌+◌, ◌≤◌, ◌≡◌, refl, ◌⊎◌, inl, inr, Returns, arith}
use rs_run.Host.{ready, Context, Future, IsFuture, Timer, IsTimer, Float, IsArmed}
use rs_run.PendingFuture.Backoff.{asleep-IsArmed, rested_keeps, back_off-IsArmed}
use rs_run.PendingFuture.ModeCount.Records.{Registry}
use rs_run.PendingFuture.ModeCount.Cases.{IsAwake, poll_paths}
use rs_run.PendingFuture.ModeCount.{PendingFuture, Readings, poll}

module _ (T : Timer) (timer : IsTimer T) (f : Float) {Output : Type 0} (F : Future Output) where
  awake_keeps :
      (r : Readings) (p : PendingFuture T F) (cx cx' : Context)
      → IsAwake T f F r p cx cx'
      → cx.held + cx.wakes ≤ cx'.held + cx'.wakes
  awake_keeps r p cx cx' (inl e) = rested_keeps T timer r.resumed p.state cx cx' e
  awake_keeps r p cx cx' (inr (_, e)) = rw e (omega arith)

  -- If the inner future keeps the contract of `Future`, so does the wrapped one: a call of `poll`
  -- does not panic, and it returns a result, or the task's waker has been taken by somebody or woken
  -- since the call began, so that the task is polled again.
  pub poll-IsArmed :
      IsFuture F
      → (type_id : ℕ) (r : Readings) (p : PendingFuture T F) (cx : Context) (registry : Registry f)
      → Returns
          (poll T f F type_id r p cx registry)
          (λ v. ((out : Output) × (v.result ≡ ready out)) ⊎ IsArmed cx v.cx)
  poll-IsArmed inner type_id r p cx registry = poll_paths T f F _ type_id r p cx registry (record {
    sleeping = λ s cx' e. inr (asleep-IsArmed T timer r.resumed p.state cx s cx' e);
    pausing = λ cx' _ st cx'' awake _ e.
        let before = awake_keeps r p cx cx' awake in
        let armed = back_off-IsArmed T timer r.slept r.rechecked _ cx' st cx'' e in
        inr (omega arith);
    finishing = λ cx' _ out _ _ _. inl (out, refl);
    waiting = λ cx' awake _ e.
        let before = awake_keeps r p cx cx' awake in
        let armed = inner.registers r.polled p.future cx' e in inr (omega arith);
  })
