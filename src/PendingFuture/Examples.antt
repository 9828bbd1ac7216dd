-- ===== src/PendingFuture/Examples.antt =====
-- The theorems about all three modes of src/pending_future, at a future that counts down.
use rs_run.Base.{List, Returns}
use rs_run.Host.Samples.{
  clock, clock-IsTimer, Countdown, countdown, countdown-IsFuture, whole, gate, idle,
}
use rs_run.PendingFuture.Course.{Course}
use rs_run.PendingFuture.RuntimeHandle.{CommonRuntimeHandle, RateLimiterRuntimeHandle}
use rs_run.PendingFuture.ModeCount as Count
use rs_run.PendingFuture.ModeCount.Records.{Registry}
use rs_run.PendingFuture.ModeCount.Drive as CountDrive
use rs_run.PendingFuture.ModeTime as Time
use rs_run.PendingFuture.ModeTime.Runs as TimeDrive
use rs_run.PendingFuture.ModeRatelimiter as Limited
use rs_run.PendingFuture.ModeRatelimiter.Runs as LimitedDrive
use rs_run.PendingFuture.Contract.{Heard, wrapped_wakes, wrapped_faithful}

abbrev four_left : Countdown
four_left = record { left = 4; polls = 0 }

wrapped_wakes_example :
    ((r : Count.Readings) (v : Count.Polled clock whole countdown)
      → Returns
          (Count.poll clock whole countdown 7 r v.this v.cx v.registry)
          (λ w. Heard clock whole gate countdown 7 w.result v.cx w.cx))
    × ((r : Time.Readings) (v : Time.Polled clock countdown)
        → Returns
            (Time.poll clock countdown r v.this v.cx)
            (λ w. Heard clock whole gate countdown 7 w.result v.cx w.cx))
    × ((r : Limited.Readings) (v : Limited.Polled clock gate countdown)
        → Returns
            (Limited.poll clock gate countdown r v.this v.handle v.cx)
            (λ w. Heard clock whole gate countdown 7 w.result v.cx w.cx))
wrapped_wakes_example = wrapped_wakes clock whole gate countdown 7 clock-IsTimer countdown-IsFuture

wrapped_faithful_example :
    ((rs : List Count.Readings) (handle : CommonRuntimeHandle) (registry : Registry whole)
      → Returns
          (CountDrive.drive clock whole countdown 7 rs
            (CountDrive.fresh clock whole countdown handle four_left idle registry))
          (λ w. Course countdown (λ x. x.polled) rs four_left w.result w.this.future))
    × ((rs : List Time.Readings) (handle : CommonRuntimeHandle)
        → Returns
            (TimeDrive.drive clock countdown rs
              (TimeDrive.fresh clock countdown handle four_left idle))
            (λ w. Course countdown (λ x. x.polled) rs four_left w.result w.this.future))
    × ((rs : List Limited.Readings) (handle : RateLimiterRuntimeHandle gate)
        → Returns
            (LimitedDrive.drive clock gate countdown rs
              (LimitedDrive.fresh clock gate countdown handle four_left idle))
            (λ w. Course countdown (λ x. x.polled) rs four_left w.result w.this.future))
wrapped_faithful_example = wrapped_faithful clock whole gate countdown 7 four_left idle
