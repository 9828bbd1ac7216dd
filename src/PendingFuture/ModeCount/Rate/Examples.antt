-- ===== src/PendingFuture/ModeCount/Rate/Examples.antt =====
-- The theorem about the rate of mode_count.rs, at a future of low priority that has been polled once.
use rs_run.Base.{ℕ, ◌+◌, ◌*◌, ◌≤◌, ◌≡◌, refl, ◌⊎◌, some, [], done, Returns, arith}
use rs_run.Host.{pending}
use rs_run.Host.Samples.{clock, clock-IsTimer, whole, Countdown, countdown, countdown_counted, idle}
use rs_run.Priority.{low, fixed_interval_count}
use rs_run.PendingFuture.RuntimeHandle.{CommonRuntimeHandle}
use rs_run.PendingFuture.Backoff.{resume}
use rs_run.PendingFuture.ModeCount.{
  Readings, Polled, new, started_at, conclude, poll_inner, proceed, poll,
}
use rs_run.PendingFuture.ModeCount.Rate.{Reached, made, polled}
use rs_run.PendingFuture.ModeCount.Rate.Paced.{count_rate}

-- All readings of a poll at one time, with three milliseconds from the generator.
abbrev at : ℕ → Readings
at t = record {
  entered = t;
  began = t;
  resumed = t;
  jitter = 3;
  slept = t;
  rechecked = t;
  polled = t;
  returned = t + 2_000;
  completed = t + 3_000;
}

abbrev low_handle : CommonRuntimeHandle
low_handle = record { priority = low }

abbrev four_left : Countdown
four_left = record { left = 4; polls = 0 }

abbrev counts : Countdown → ℕ
counts s = s.polls

has_period : fixed_interval_count low_handle.priority ≡ some 20
unfolding fixed_interval_count
has_period = refl

abbrev one_polled : Polled clock whole countdown
one_polled = record {
  result = pending;
  this = record (new clock whole countdown low_handle four_left) {
    future = record { left = 3; polls = 1 };
    pend_cnt = 1;
    begin_time = some 1_000;
    poll_time = 2;
  };
  cx = (countdown.poll 1_000 four_left idle).2;
  registry = [];
}

one_poll :
    poll clock whole countdown 7 (at 1_000) (new clock whole countdown low_handle four_left) idle []
    ≡ done one_polled
unfolding poll proceed poll_inner conclude started_at resume new fixed_interval_count
one_poll = refl

once :
    Reached clock whole countdown 7 low_handle four_left 0 one_polled.this one_polled.cx [] 4_000 1
unfolding new
once =
    polled (new clock whole countdown low_handle four_left) idle [] 0 0 (at 1_000) one_polled
      (made idle []) (omega arith) one_poll refl

count_rate_example :
    Returns
      (poll clock whole countdown 7 (at 30_000) one_polled.this one_polled.cx [])
      (λ v. (counts v.this.future ≡ 1) ⊎ (20_000_000 * 1 + 4 * 0 ≤ 4 * 30_000 + 4 * 20_000_000))
count_rate_example =
    count_rate clock whole countdown 7 clock-IsTimer counts countdown_counted low_handle 20
      has_period 0 four_left one_polled.this one_polled.cx [] 4_000 1 (at 30_000) refl (omega arith)
      once (omega arith)
