-- ===== src/PendingFuture/ModeRatelimiter/Runs.antt =====
-- The executor of a wrapped future of mode_ratelimiter.rs.
use rs_run.Base.{List, Outcome}
use rs_run.Host.{Poll, pending, Context, Future, Timer}
use rs_run.Host.Limiter.{Limiter}
use rs_run.PendingFuture.Drive
use rs_run.PendingFuture.RuntimeHandle.{RateLimiterRuntimeHandle}
use rs_run.PendingFuture.ModeRatelimiter.{Readings, Polled, new, poll}

module _ (T : Timer) (L : Limiter) {Output : Type 0} (F : Future Output) where
  -- A wrapped future that has not been polled.
  abbrev pub fresh : RateLimiterRuntimeHandle L → F.State → Context → Polled T L F
  fresh handle future cx = record {
    result = pending;
    this = new T L F future;
    handle = handle;
    cx = cx;
  }

  abbrev pub result : Polled T L F → Poll Output
  result v = v.result

  abbrev pub round : Readings → Polled T L F → Outcome (Polled T L F)
  round r v = poll T L F r v.this v.handle v.cx

  abbrev pub drive : List Readings → Polled T L F → Outcome (Polled T L F)
  drive = Drive.drive result round
