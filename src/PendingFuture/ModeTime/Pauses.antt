-- ===== src/PendingFuture/ModeTime/Pauses.antt =====
-- The pauses that `poll` in mode_time.rs inserts: how long they last and what they hold back.
use rs_run.Base.{
  ℕ, ◌+◌, ◌-◌, ◌*◌, ◌/◌, ◌%◌, ◌^◌, ◌≤◌, ◌<◌, ◌≡◌, refl, ◌⊎◌, inl, inr, some, u32, Returns, done,
  arith,
}
use native.Mathlib.Nat.{mul-le-mul_right}
use mathlib.Core.Option.{some-injective}
use rs_run.Host.{pending, Context, Future, Timer, IsTimer, from_millis, max_sleep}
use rs_run.Priority.{Priority, very_low, low, middle, high, very_high, fixed_interval_time_ms}
use rs_run.PendingFuture.Backoff.{
  State, common, backoff, back_off, back_off_deadline, asleep-deadline, resume_early,
}
use rs_run.PendingFuture.ModeTime.Cases.{poll_paths}
use rs_run.PendingFuture.ModeTime.{PendingFuture, Readings, inter, pause_ms, poll}

at_period :
    (n period debt : ℕ)
    → n ≤ 9
    → debt < 2 ^ 64
    → n ≡ period
    → pause_ms period (debt / inter) ≡ period * (debt / inter) / 2 + 2
unfolding pause_ms
at_period n period debt small h e =
    let most : period * (debt / inter) ≤ 9 * (debt / inter) =
      mul-le-mul_right (debt / inter) (rw (← e) small) in
    omega arith

-- The length of a pause is computed on u64 without overflow, for every debt and every priority.
pub pause_ms_exact :
    (q : Priority) (period debt : ℕ)
    → fixed_interval_time_ms q ≡ some period
    → debt < 2 ^ 64
    → pause_ms period (debt / inter) ≡ period * (debt / inter) / 2 + 2
unfolding pause_ms fixed_interval_time_ms
pause_ms_exact very_low period debt e h =
    at_period 9 period debt (omega arith) h (some-injective _ _ e)
pause_ms_exact low period debt e h = at_period 7 period debt (omega arith) h (some-injective _ _ e)
pause_ms_exact middle period debt e h =
    at_period 5 period debt (omega arith) h (some-injective _ _ e)
pause_ms_exact high period debt e h = at_period 3 period debt (omega arith) h (some-injective _ _ e)
pause_ms_exact very_high period debt e h = absurd (ground arith)

module _ (T : Timer) (timer : IsTimer T) {Output : Type 0} (F : Future Output) (r : Readings)
    (p : PendingFuture T F) (cx : Context) where
  -- A future that owes more than ten microseconds, at a priority that has a period, is not let
  -- through: the call returns `Pending` and leaves the inner future alone.
  pub poll_owing :
      (period : ℕ)
      → fixed_interval_time_ms p.handle.priority ≡ some period
      → inter < p.adding_up_time
      → Returns
          (poll T F r p cx)
          (λ v. (v.result ≡ pending) × (v.this.future ≡ p.future) × (v.this.pend_cnt ≡ p.pend_cnt))
  poll_owing period has debt = poll_paths T F _ r p cx (record {
    sleeping = λ s cx' _. (refl, refl, refl);
    pausing = λ cx' _ st cx'' _ _ _ _. (refl, refl, refl);
    finishing = λ cx' out _ free _. absurd (ground arith);
    waiting = λ cx' _ free _. absurd (ground arith);
  })

  -- A future that is polled before the deadline of its pause stays as it is: the call returns
  -- `Pending`, the inner future is not polled, nothing is counted and no debt is paid, and the pause
  -- keeps its deadline.
  pub poll_asleep :
      (s : T.Sleep)
      → p.state ≡ backoff s
      → r.resumed < T.deadline s
      → Returns (poll T F r p cx) (λ v.
        (v.result ≡ pending)
        × (v.this.future ≡ p.future)
        × (v.this.pend_cnt ≡ p.pend_cnt)
        × (v.this.inserted_pend_cnt ≡ p.inserted_pend_cnt)
        × (v.this.adding_up_time ≡ p.adding_up_time)
        × (s' : T.Sleep) × (v.this.state ≡ backoff s')
        × (T.deadline s' ≡ T.deadline s))
  unfolding poll
  poll_asleep s e early =
      let (s', cx', res, dl, _) = resume_early T timer r.resumed s cx early in
      rw (e, res, poll) (refl, refl, refl, refl, refl, s', refl, dl)

  -- A call leaves no pause behind, or the one that it found, with the same deadline, or, at a priority
  -- that has a period, a new one that pays for all whole tens of microseconds that the future owes:
  -- half the period, in milliseconds, for each, and two milliseconds. Less than ten microseconds stay
  -- owed, and one pause more is counted. (The debt fits its word, and the timer can sleep so long.)
  pub poll_pays :
      p.adding_up_time < 2 ^ 64
      → ((period : ℕ)
          → fixed_interval_time_ms p.handle.priority ≡ some period
          → from_millis (period * (p.adding_up_time / inter) / 2 + 2) ≤ max_sleep)
      → Returns (poll T F r p cx) (λ v.
        (v.this.state ≡ common)
        ⊎ ((s : T.Sleep) × (s₀ : T.Sleep) × (v.this.state ≡ backoff s)
            × (p.state ≡ backoff s₀)
            × (T.deadline s ≡ T.deadline s₀))
        ⊎ ((s : T.Sleep) × (period : ℕ) × (v.this.state ≡ backoff s)
            × (fixed_interval_time_ms p.handle.priority ≡ some period)
            × (T.deadline s ≡ r.slept + from_millis (period * (p.adding_up_time / inter) / 2 + 2))
            × (v.this.adding_up_time ≡ p.adding_up_time % inter)
            × (v.this.inserted_pend_cnt ≡ u32 (p.inserted_pend_cnt + 1))))
  poll_pays fits short = poll_paths T F _ r p cx (record {
    sleeping = λ s cx' e.
        let (s₀, was, same) = asleep-deadline T timer r.resumed p.state cx s cx' e in
        inr (inl (s, s₀, refl, was, same));
    pausing = λ cx' period st cx'' _ has _ e. paused period cx' cx'' st has e;
    finishing = λ cx' out _ _ _. inl refl;
    waiting = λ cx' _ _ _. inl refl;
  })
    where
      paused :
          (period : ℕ) (cx' cx'' : Context) (st : State T.Sleep)
          → fixed_interval_time_ms p.handle.priority ≡ some period
          → back_off T r.slept r.rechecked
              (from_millis (pause_ms period (p.adding_up_time / inter)))
              cx'
            ≡ done (st, cx'')
          → (st ≡ common)
            ⊎ ((s : T.Sleep) × (s₀ : T.Sleep) × (st ≡ backoff s)
                × (p.state ≡ backoff s₀)
                × (T.deadline s ≡ T.deadline s₀))
            ⊎ ((s : T.Sleep) × (period : ℕ) × (st ≡ backoff s)
                × (fixed_interval_time_ms p.handle.priority ≡ some period)
                × (T.deadline s
                    ≡ r.slept + from_millis (period * (p.adding_up_time / inter) / 2 + 2))
                × (p.adding_up_time - p.adding_up_time / inter * inter ≡ p.adding_up_time % inter)
                × (u32 (p.inserted_pend_cnt + 1) ≡ u32 (p.inserted_pend_cnt + 1)))
      paused period cx' cx'' common has e = inl refl
      paused period cx' cx'' (backoff s) has e =
          let exact = pause_ms_exact p.handle.priority period p.adding_up_time has fits in
          let d = from_millis (period * (p.adding_up_time / inter) / 2 + 2) in
          let made = rw exact at e in
          let dl =
            back_off_deadline T timer r.slept r.rechecked d cx' cx'' s (short period has) made in
          inr (inr (s, period, refl, has, dl, omega arith, refl))
