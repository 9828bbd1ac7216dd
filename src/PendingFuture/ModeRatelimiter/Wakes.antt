-- ===== src/PendingFuture/ModeRatelimiter/Wakes.antt =====
-- The wake-up contract of `poll` in mode_ratelimiter.rs, and what a pause holds back.
use rs_run.Base.{◌+◌, ◌≤◌, ◌<◌, ◌≡◌, refl, ◌⊎◌, inl, inr, Returns, arith}
use rs_run.Host.{ready, pending, Context, Future, IsFuture, Timer, IsTimer, IsArmed}
use rs_run.Host.Limiter.{Limiter}
use rs_run.PendingFuture.RuntimeHandle.{RateLimiterRuntimeHandle}
use rs_run.PendingFuture.Backoff.{
  backoff, asleep-IsArmed, rested_keeps, back_off-IsArmed, resume_early,
}
use rs_run.PendingFuture.ModeRatelimiter.Cases.{IsAwake, from_pause, from_common, poll_paths}
use rs_run.PendingFuture.ModeRatelimiter.{PendingFuture, Readings, poll}

module _ (T : Timer) (timer : IsTimer T) (L : Limiter) {Output : Type 0} (F : Future Output)
    (r : Readings) (p : PendingFuture T F) (h : RateLimiterRuntimeHandle L) (cx : Context) where
  awake_keeps :
      (h' : RateLimiterRuntimeHandle L) (cx' : Context)
      → IsAwake T L F r p h cx h' cx'
      → cx.held + cx.wakes ≤ cx'.held + cx'.wakes
  awake_keeps h' cx' (from_pause e _) = rested_keeps T timer r.resumed p.state cx cx' e
  awake_keeps h' cx' (from_common _ e _) = rw e (omega arith)

  -- If the inner future keeps the contract of `Future`, so does the wrapped one: a call of `poll`
  -- does not panic, and it returns a result, or the task's waker has been taken by somebody or woken
  -- since the call began.
  pub poll_limited-IsArmed :
      IsFuture F
      → Returns
          (poll T L F r p h cx)
          (λ v. ((out : Output) × (v.result ≡ ready out)) ⊎ IsArmed cx v.cx)
  poll_limited-IsArmed inner = poll_paths T L F _ r p h cx (record {
    sleeping = λ s cx' e. inr (asleep-IsArmed T timer r.resumed p.state cx s cx' e);
    turned_away = λ h' cx' _ _ st cx'' awake _ _ e.
        let before = awake_keeps h' cx' awake in
        let armed = back_off-IsArmed T timer r.slept r.rechecked _ cx' st cx'' e in
        inr (omega arith);
    finishing = λ h' _ cx' _ out _ _ _. inl (out, refl);
    waiting = λ h' _ cx' _ awake _ e.
        let before = awake_keeps h' cx' awake in
        let armed = inner.registers r.polled p.future cx' e in inr (omega arith);
  })

  -- A future that is polled before the deadline of its pause stays as it is: the call returns
  -- `Pending`, the inner future is not polled, the limiter is not asked, nothing is counted, and the
  -- pause keeps its deadline.
  pub poll_limited_asleep :
      (s : T.Sleep)
      → p.state ≡ backoff s
      → r.resumed < T.deadline s
      → Returns (poll T L F r p h cx) (λ v.
        (v.result ≡ pending)
        × (v.this.future ≡ p.future)
        × (v.this.pend_cnt ≡ p.pend_cnt)
        × (v.handle ≡ h)
        × (s' : T.Sleep) × (v.this.state ≡ backoff s')
        × (T.deadline s' ≡ T.deadline s))
  unfolding poll
  poll_limited_asleep s e early =
      let (s', cx', res, dl, _) = resume_early T timer r.resumed s cx early in
      rw (e, res, poll) (refl, refl, refl, refl, s', refl, dl)
