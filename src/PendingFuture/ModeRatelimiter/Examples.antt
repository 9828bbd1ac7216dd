-- ===== src/PendingFuture/ModeRatelimiter/Examples.antt =====
-- The theorems about mode_ratelimiter.rs at a timer, a limiter, a future and times that keep their
-- hypotheses.
use rs_run.Base.{
  ℕ, ◌+◌, ◌*◌, ◌-◌, ◌^◌, ◌≡◌, refl, false, List, [], ◌∷◌, Option, none, some, Outcome, done,
  panicked, Returns, arith,
}
use rs_run.Host.{Poll, ready, from_millis}
use rs_run.Host.Bucket.{bucket, bucket_of, bucket-IsLimiter, bucket-IsHinted}
use rs_run.Host.Limiter.{Config}
use rs_run.Host.Samples.{
  clock, clock-IsTimer, Countdown, countdown, countdown_counted, countdown_falls, idle, Gate, gate,
  gate-IsLimiter,
}
use rs_run.Priority.{low}
use rs_run.PendingFuture.Drive
use rs_run.PendingFuture.Drive.{drive_bare}
use rs_run.PendingFuture.RuntimeHandle.{limits, RateLimiterRuntimeHandle, build_limiter}
use rs_run.PendingFuture.RuntimeHandle as Handle
use rs_run.PendingFuture.Backoff.{resume, back_off}
use rs_run.PendingFuture.ModeRatelimiter.Runs.{fresh, drive}
use rs_run.PendingFuture.ModeRatelimiter.Tokens.{finished, drive_metered}
use rs_run.PendingFuture.ModeRatelimiter.Progress.{AllLate, drive_limited_finishes}
use rs_run.PendingFuture.ModeRatelimiter.{
  Readings, Polled, new, conclude, poll_inner, wait_for, proceed, poll,
}

-- A poll at one time.
abbrev at : ℕ → Readings
at t = record { resumed = t; asked = t; slept = t; rechecked = t; polled = t }

abbrev shut_once : Gate
shut_once = record { shut = 1; taken = 0; turned_away = 0 }

abbrev limited : RateLimiterRuntimeHandle gate
limited = record {
  limiter = some shut_once;
  stopped = false;
  recent = 0;
  resting = 0;
  priority = low;
}

abbrev two_left : Countdown
two_left = record { left = 2; polls = 0 }

abbrev rounds : List Readings
rounds = at 0 ∷ at 100_000_000 ∷ at 200_000_000 ∷ at 300_000_000 ∷ []

abbrev start : Polled clock gate countdown
start = fresh clock gate countdown limited two_left idle

abbrev summary : Outcome (Polled clock gate countdown) → Option (Poll ℕ × ℕ × ℕ)
summary (done v) = some (v.result, v.this.pend_cnt, v.handle.resting)
summary panicked = none

-- One refusal, then three polls of the inner future, two of them pending: 1 + 2 + 2 + 1 counts; and
-- the pause that ended has taken the counter of the handle below 0.
a_run : summary (drive clock gate countdown rounds start) ≡ some (ready 42, 6, 2 ^ 64 - 1)
unfolding Drive.drive poll proceed poll_inner wait_for conclude resume back_off new
a_run = refl

drive_metered_example : Returns (drive clock gate countdown rounds start) (λ v.
    (l : Gate) × (v.handle.limiter ≡ some l)
    × (v.this.future.polls ≡ l.taken)
    × (v.this.pend_cnt + finished v.result ≡ 2 * v.this.future.polls + l.turned_away))
drive_metered_example =
    drive_metered clock gate gate-IsLimiter countdown (λ s. s.polls) countdown_counted rounds
      limited shut_once two_left idle refl refl refl refl (omega arith)

-- With the limiter of a handle at low priority: a refusal, then three polls of the inner future.
abbrev low_limits : Config
low_limits = record { amount = 1100; interval = from_millis 50; max_tokens = 2000 }

abbrev handle : RateLimiterRuntimeHandle bucket
handle = record {
  limiter = some (bucket_of 0 low_limits);
  stopped = false;
  recent = 0;
  resting = 0;
  priority = low;
}

low_limited : limits low ≡ some low_limits
unfolding limits
low_limited = refl

made : Handle.new bucket 0 low ≡ done handle
unfolding Handle.new build_limiter limits
made = refl

abbrev six_rounds : List Readings
six_rounds =
    at 0
    ∷ at (from_millis 100)
    ∷ at (from_millis 200)
    ∷ at (from_millis 300)
    ∷ at (from_millis 400)
    ∷ at (from_millis 500)
    ∷ []

abbrev limited_start : Polled clock bucket countdown
limited_start = fresh clock bucket countdown handle two_left idle

rounds-AllLate :
    AllLate clock clock-IsTimer bucket bucket-IsLimiter bucket-IsHinted countdown 0 six_rounds
      limited_start
unfolding poll proceed poll_inner wait_for conclude resume back_off new
rounds-AllLate = (
  λ s e. ground arith,
  (omega arith, omega arith, omega arith, omega arith),
  (
    λ s e. ground arith,
    (omega arith, omega arith, omega arith, omega arith),
    (
      λ s e. ground arith,
      (omega arith, omega arith, omega arith, omega arith),
      (
        λ s e. ground arith,
        (omega arith, omega arith, omega arith, omega arith),
        (
          λ s e. ground arith,
          (omega arith, omega arith, omega arith, omega arith),
          (λ s e. ground arith, (omega arith, omega arith, omega arith, omega arith), tt),
        ),
      ),
    ),
  ),
)

drive_limited_finishes_example :
    Returns
      (drive clock bucket countdown six_rounds limited_start)
      (λ w. (out : ℕ) × (w.result ≡ ready out))
drive_limited_finishes_example =
    drive_limited_finishes clock clock-IsTimer bucket bucket-IsLimiter bucket-IsHinted countdown
      (λ s. s.left) countdown_falls 0 low low_limits handle six_rounds two_left idle low_limited
      made (omega arith) rounds-AllLate
