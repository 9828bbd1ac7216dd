-- ===== src/PendingFuture/ModeTime/Share/Examples.antt =====
-- The theorem about the share of mode_time.rs, at a future of low priority that has been polled once.
use rs_run.Base.{ℕ, ◌+◌, ◌*◌, ◌≤◌, ◌≡◌, refl, ◌⊎◌, some, done, Returns, arith}
use rs_run.Host.{pending}
use rs_run.Host.Samples.{clock, clock-IsTimer, Countdown, countdown, countdown_counted, idle}
use rs_run.Priority.{low, fixed_interval_time_ms}
use rs_run.PendingFuture.RuntimeHandle.{CommonRuntimeHandle}
use rs_run.PendingFuture.Backoff.{resume}
use rs_run.PendingFuture.ModeTime.{
  Readings, inter, Polled, new, conclude, poll_inner, proceed, poll,
}
use rs_run.PendingFuture.ModeTime.Share.{Reached, made, polled}
use rs_run.PendingFuture.ModeTime.Share.Paid.{time_share}

-- A poll at one time, whose inner poll takes 24 microseconds.
abbrev at : ℕ → Readings
at t = record {
  resumed = t;
  slept = t;
  rechecked = t;
  begin = t;
  polled = t;
  returned = t + 24_000;
}

abbrev low_handle : CommonRuntimeHandle
low_handle = record { priority = low }

abbrev two_left : Countdown
two_left = record { left = 2; polls = 0 }

abbrev counts : Countdown → ℕ
counts s = s.polls

has_period : fixed_interval_time_ms low_handle.priority ≡ some 7
unfolding fixed_interval_time_ms
has_period = refl

abbrev one_polled : Polled clock countdown
one_polled = record {
  result = pending;
  this = record (new clock countdown low_handle two_left) {
    future = record { left = 1; polls = 1 };
    pend_cnt = 1;
    adding_up_time = 24;
  };
  cx = (countdown.poll 1_000 two_left idle).2;
}

one_poll :
    poll clock countdown (at 1_000) (new clock countdown low_handle two_left) idle ≡ done one_polled
unfolding poll proceed poll_inner conclude resume new fixed_interval_time_ms
one_poll = refl

once : Reached clock countdown counts low_handle two_left 0 one_polled.this one_polled.cx 25_000 24
unfolding new
once =
    polled (new clock countdown low_handle two_left) idle 0 0 (at 1_000) one_polled (made idle)
      (omega arith) one_poll refl

time_share_example :
    Returns
      (poll clock countdown (at 30_000) one_polled.this one_polled.cx)
      (λ v. (counts v.this.future ≡ 1) ⊎ (350_000 * 24 + 0 ≤ 30_000 + 350_000 * inter))
time_share_example =
    time_share clock clock-IsTimer countdown counts countdown_counted low_handle 7 has_period 0
      two_left one_polled.this one_polled.cx 25_000 24 (at 30_000) once (omega arith)
