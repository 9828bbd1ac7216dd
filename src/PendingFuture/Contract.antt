-- ===== src/PendingFuture/Contract.antt =====
-- What the three wrappers of src/pending_future promise alike: they wake the task, and they leave it to
-- the inner future what the result is.
use rs_run.Base.{ℕ, refl, ◌≡◌, ◌⊎◌, inl, inr, List, Returns}
use rs_run.Host.{Poll, ready, Context, IsArmed, Future, IsFuture, Timer, IsTimer, Float}
use rs_run.Host.Limiter.{Limiter}
use rs_run.PendingFuture.Course.{Course, Seen, drive-Course}
use rs_run.PendingFuture.RuntimeHandle.{CommonRuntimeHandle, RateLimiterRuntimeHandle}
use rs_run.PendingFuture.ModeCount as Count
use rs_run.PendingFuture.ModeCount.Records.{Registry}
use rs_run.PendingFuture.ModeCount.Cases as CountCases
use rs_run.PendingFuture.ModeCount.Drive as CountDrive
use rs_run.PendingFuture.ModeCount.Wakes.{poll-IsArmed}
use rs_run.PendingFuture.ModeTime as Time
use rs_run.PendingFuture.ModeTime.Cases as TimeCases
use rs_run.PendingFuture.ModeTime.Runs as TimeDrive
use rs_run.PendingFuture.ModeTime.Wakes.{poll_time-IsArmed}
use rs_run.PendingFuture.ModeRatelimiter as Limited
use rs_run.PendingFuture.ModeRatelimiter.Cases as LimitedCases
use rs_run.PendingFuture.ModeRatelimiter.Runs as LimitedDrive
use rs_run.PendingFuture.ModeRatelimiter.Wakes.{poll_limited-IsArmed}

module _ (T : Timer) (f : Float) (L : Limiter) {Output : Type 0} (F : Future Output)
    (type_id : ℕ) where
  -- A poll returned a result, or the waker has been taken or used since.
  abbrev pub Heard : Poll Output → Context → Context → Type 0
  Heard res cx cx' = ((out : Output) × (res ≡ ready out)) ⊎ IsArmed cx cx'

  -- If the inner future keeps the contract of `Future`, so do the futures of the three modes: a call of
  -- `poll` does not panic, and it returns a result, or the task's waker has been taken by somebody or
  -- woken since the call began, so that the task is polled again.
  pub wrapped_wakes :
      IsTimer T
      → IsFuture F
      → ((r : Count.Readings) (v : Count.Polled T f F)
          → Returns
              (Count.poll T f F type_id r v.this v.cx v.registry)
              (λ w. Heard w.result v.cx w.cx))
        × ((r : Time.Readings) (v : Time.Polled T F)
            → Returns (Time.poll T F r v.this v.cx) (λ w. Heard w.result v.cx w.cx))
        × ((r : Limited.Readings) (v : Limited.Polled T L F)
            → Returns (Limited.poll T L F r v.this v.handle v.cx) (λ w. Heard w.result v.cx w.cx))
  wrapped_wakes timer inner = (
    λ r v. poll-IsArmed T timer f F inner type_id r v.this v.cx v.registry,
    λ r v. poll_time-IsArmed T timer F inner r v.this v.cx,
    λ r v. poll_limited-IsArmed T timer L F r v.this v.handle v.cx inner,
  )

  count-Seen :
      (r : Count.Readings) (v : Count.Polled T f F)
      → Returns (CountDrive.round T f F type_id r v) (
          Seen F
            (λ x. x.polled)
            (λ w. w.result)
            (λ w. w.this.future)
            (CountDrive.round T f F type_id)
            r
            v.this.future)
  count-Seen r v = CountCases.poll_paths T f F _ type_id r v.this v.cx v.registry (record {
    sleeping = λ s cx' e. inl (refl, refl);
    pausing = λ cx' period st cx'' awake due e. inl (refl, refl);
    finishing = λ cx' begin out awake _ e. inr (cx', e, refl);
    waiting = λ cx' awake _ e. inr (cx', e, refl);
  })

  time-Seen :
      (r : Time.Readings) (v : Time.Polled T F)
      → Returns (TimeDrive.round T F r v) (
          Seen F
            (λ x. x.polled)
            (λ w. w.result)
            (λ w. w.this.future)
            (TimeDrive.round T F)
            r
            v.this.future)
  time-Seen r v = TimeCases.poll_paths T F _ r v.this v.cx (record {
    sleeping = λ s cx' e. inl (refl, refl);
    pausing = λ cx' period st cx'' awake _ debt e. inl (refl, refl);
    finishing = λ cx' out awake _ e. inr (cx', e, refl);
    waiting = λ cx' awake _ e. inr (cx', e, refl);
  })

  limited-Seen :
      (r : Limited.Readings) (v : Limited.Polled T L F)
      → Returns (LimitedDrive.round T L F r v) (
          Seen F
            (λ x. x.polled)
            (λ w. w.result)
            (λ w. w.this.future)
            (LimitedDrive.round T L F)
            r
            v.this.future)
  limited-Seen r v = LimitedCases.poll_paths T L F _ r v.this v.handle v.cx (record {
    sleeping = λ s cx' e. inl (refl, refl);
    turned_away = λ h' cx' l wait st cx'' awake has no_token e. inl (refl, refl);
    finishing = λ h' h'' cx' n out awake let_in e. inr (cx', e, refl);
    waiting = λ h' h'' cx' n awake let_in e. inr (cx', e, refl);
  })

  -- Whatever the priority and the times, a run of a new future of any of the three modes does not panic,
  -- and it is a course of the inner future: each poll of the wrapper polls the inner future once, or
  -- leaves it as it is and is pending; what the run returns is what the last poll of the inner future
  -- returned, and after a result the inner future is not polled again.
  pub wrapped_faithful :
      (s : F.State) (cx : Context)
      → ((rs : List Count.Readings) (handle : CommonRuntimeHandle) (registry : Registry f)
          → Returns
              (CountDrive.drive T f F type_id rs (CountDrive.fresh T f F handle s cx registry))
              (λ w. Course F (λ x. x.polled) rs s w.result w.this.future))
        × ((rs : List Time.Readings) (handle : CommonRuntimeHandle)
            → Returns
                (TimeDrive.drive T F rs (TimeDrive.fresh T F handle s cx))
                (λ w. Course F (λ x. x.polled) rs s w.result w.this.future))
        × ((rs : List Limited.Readings) (handle : RateLimiterRuntimeHandle L)
            → Returns
                (LimitedDrive.drive T L F rs (LimitedDrive.fresh T L F handle s cx))
                (λ w. Course F (λ x. x.polled) rs s w.result w.this.future))
  unfolding Count.new Time.new Limited.new
  wrapped_faithful s cx = (
    λ rs handle registry.
        drive-Course F (λ x. x.polled) (λ w. w.result) (λ w. w.this.future)
          (CountDrive.round T f F type_id) count-Seen rs
          (CountDrive.fresh T f F handle s cx registry) refl,
    λ rs handle.
        drive-Course F (λ x. x.polled) (λ w. w.result) (λ w. w.this.future) (TimeDrive.round T F)
          time-Seen rs (TimeDrive.fresh T F handle s cx) refl,
    λ rs handle.
        drive-Course F (λ x. x.polled) (λ w. w.result) (λ w. w.this.future)
          (LimitedDrive.round T L F) limited-Seen rs (LimitedDrive.fresh T L F handle s cx) refl,
  )
