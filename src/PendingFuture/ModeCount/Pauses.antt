-- ===== src/PendingFuture/ModeCount/Pauses.antt =====
-- The pauses that `poll` in mode_count.rs inserts: how long they last and what they hold back.
use rs_run.Base.{ℕ, ◌+◌, ◌≤◌, ◌<◌, ◌≡◌, refl, ◌⊎◌, inl, inr, some, Returns, done, arith}
use rs_run.Host.{pending, Context, Future, Timer, IsTimer, Float, from_millis}
use rs_run.Priority.{Priority, fixed_interval_count}
use rs_run.PendingFuture.Backoff.{
  State, common, backoff, back_off, resume_early, back_off_deadline, asleep-deadline,
}
use rs_run.PendingFuture.ModeCount.Records.{Registry}
use rs_run.PendingFuture.ModeCount.Cases.{poll_paths}
use rs_run.PendingFuture.ModeCount.{PendingFuture, Readings, poll}

fixed_interval_count-le : (p : Priority) (n : ℕ) → fixed_interval_count p ≡ some n → n ≤ 30
unfolding fixed_interval_count
fixed_interval_count-le p n e = ground arith

module _ (T : Timer) (timer : IsTimer T) (f : Float) {Output : Type 0} (F : Future Output)
    (type_id : ℕ) (r : Readings) (p : PendingFuture T F) (cx : Context)
    (registry : Registry f) where
  -- A future that is polled before the deadline of its pause stays as it is: the call returns
  -- `Pending`, the inner future is not polled, nothing is counted or recorded, and the pause keeps its
  -- deadline.
  pub poll_early :
      (s : T.Sleep)
      → p.state ≡ backoff s
      → r.resumed < T.deadline s
      → Returns (poll T f F type_id r p cx registry) (λ v.
        (v.result ≡ pending)
        × (v.this.future ≡ p.future)
        × (v.this.pend_cnt ≡ p.pend_cnt)
        × (v.registry ≡ registry)
        × (s' : T.Sleep) × (v.this.state ≡ backoff s')
        × (T.deadline s' ≡ T.deadline s))
  unfolding poll
  poll_early s e early =
      let (s', cx', res, dl, _) = resume_early T timer r.resumed s cx early in
      rw (e, res, poll) (refl, refl, refl, refl, s', refl, dl)

  pause_bounds :
      (period : ℕ) (cx' cx'' : Context) (st : State T.Sleep) (s : T.Sleep)
      → period ≤ 30
      → r.jitter < 10
      → back_off T r.slept r.rechecked (from_millis (period + r.jitter)) cx' ≡ done (st, cx'')
      → st ≡ backoff s
      → (r.slept + from_millis period ≤ T.deadline s)
        × (T.deadline s ≤ r.slept + from_millis (period + 9))
  pause_bounds period cx' cx'' st s h j e e' =
      let d = from_millis (period + r.jitter) in
      let dl = back_off_deadline T timer r.slept r.rechecked d cx' cx'' s (omega arith) (cc) in
      omega (arith, dl)

  -- A call leaves no pause behind, or the one that it found, with the same deadline, or a new one, of
  -- a future whose priority has a period: it lasts that many milliseconds and the random ones, at most
  -- nine, from the time at which it was made.
  pub poll_deadline :
      r.jitter < 10
      → Returns (poll T f F type_id r p cx registry) (λ v.
        (v.this.state ≡ common)
        ⊎ ((s : T.Sleep) × (s₀ : T.Sleep) × (v.this.state ≡ backoff s)
            × (p.state ≡ backoff s₀)
            × (T.deadline s ≡ T.deadline s₀))
        ⊎ ((s : T.Sleep) × (period : ℕ) × (v.this.state ≡ backoff s)
            × (fixed_interval_count p.handle.priority ≡ some period)
            × (r.slept + from_millis period ≤ T.deadline s)
            × (T.deadline s ≤ r.slept + from_millis (period + 9))))
  poll_deadline j = poll_paths T f F _ type_id r p cx registry (record {
    sleeping = λ s cx' e.
        let (s₀, was, same) = asleep-deadline T timer r.resumed p.state cx s cx' e in
        inr (inl (s, s₀, refl, was, same));
    pausing = λ cx' period st cx'' _ due e. paused period cx' cx'' st due.1 e;
    finishing = λ cx' _ _ _ _ _. inl refl;
    waiting = λ cx' _ _ _. inl refl;
  })
    where
      paused :
          (period : ℕ) (cx' cx'' : Context) (st : State T.Sleep)
          → fixed_interval_count p.handle.priority ≡ some period
          → back_off T r.slept r.rechecked (from_millis (period + r.jitter)) cx' ≡ done (st, cx'')
          → (st ≡ common)
            ⊎ ((s : T.Sleep) × (s₀ : T.Sleep) × (st ≡ backoff s)
                × (p.state ≡ backoff s₀)
                × (T.deadline s ≡ T.deadline s₀))
            ⊎ ((s : T.Sleep) × (period : ℕ) × (st ≡ backoff s)
                × (fixed_interval_count p.handle.priority ≡ some period)
                × (r.slept + from_millis period ≤ T.deadline s)
                × (T.deadline s ≤ r.slept + from_millis (period + 9)))
      paused period cx' cx'' common has e = inl refl
      paused period cx' cx'' (backoff s) has e =
          let small = fixed_interval_count-le p.handle.priority period has in
          let (lower, upper) = pause_bounds period cx' cx'' (backoff s) s small j e refl in
          inr (inr (s, period, refl, has, lower, upper))
