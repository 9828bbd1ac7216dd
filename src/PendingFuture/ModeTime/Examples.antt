-- ===== src/PendingFuture/ModeTime/Examples.antt =====
-- The theorems about mode_time.rs at a timer, a future and times that keep their hypotheses.
use rs_run.Base.{
  ℕ, ◌+◌, ◌*◌, ◌/◌, ◌%◌, ◌≤◌, ◌≡◌, refl, ◌⊎◌, List, [], ◌∷◌, Option, none, some, u32, Outcome, done,
  panicked, Returns, arith,
}
use rs_run.Host.{Poll, ready, from_millis, max_sleep}
use rs_run.Host.Samples.{clock, clock-IsTimer, Countdown, countdown, countdown_falls, idle}
use rs_run.Priority.{low, fixed_interval_time_ms}
use rs_run.PendingFuture.Drive
use rs_run.PendingFuture.Drive.{drive_bare}
use rs_run.PendingFuture.RuntimeHandle.{CommonRuntimeHandle}
use rs_run.PendingFuture.Backoff.{common, backoff, resume, back_off}
use rs_run.PendingFuture.ModeTime.Pauses.{poll_pays}
use rs_run.PendingFuture.ModeTime.Runs.{fresh, drive, AllLate, drive_time_finishes}
use rs_run.PendingFuture.ModeTime.{
  PendingFuture, Readings, inter, pause_ms, Polled, new, conclude, poll_inner, insert_pause,
  proceed, poll,
}

-- A poll at one time, whose inner poll takes 24 microseconds.
abbrev at : ℕ → Readings
at t = record {
  resumed = t;
  slept = t;
  rechecked = t;
  begin = t;
  polled = t;
  returned = t + 24_000;
}

abbrev low_handle : CommonRuntimeHandle
low_handle = record { priority = low }

abbrev two_left : Countdown
two_left = record { left = 2; polls = 0 }

abbrev rounds : List Readings
rounds = at 0 ∷ at 100_000_000 ∷ at 200_000_000 ∷ at 300_000_000 ∷ at 400_000_000 ∷ []

abbrev start : Polled clock countdown
start = fresh clock countdown low_handle two_left idle

abbrev summary : Outcome (Polled clock countdown) → Option (Poll ℕ × ℕ × ℕ × ℕ)
summary (done v) = some (v.result, v.this.pend_cnt, v.this.inserted_pend_cnt, v.this.adding_up_time)
summary panicked = none

-- 24 microseconds, of which a pause pays 20; 24 more, 28 owed, and another pause.
two_pauses : summary (drive clock countdown rounds start) ≡ some (ready 42, 2, 2, 8)
unfolding Drive.drive poll proceed poll_inner insert_pause pause_ms conclude resume back_off new
    fixed_interval_time_ms
two_pauses = refl

abbrev owing : PendingFuture clock countdown
owing = record {
  future = two_left;
  handle = low_handle;
  pend_cnt = 1;
  inserted_pend_cnt = 0;
  adding_up_time = 24;
  state = common;
}

low_short :
    (period : ℕ)
    → fixed_interval_time_ms low ≡ some period
    → from_millis (period * (24 / inter) / 2 + 2) ≤ max_sleep
unfolding fixed_interval_time_ms
low_short period e = ground arith

poll_pays_example : Returns (poll clock countdown (at 100) owing idle) (λ v.
    (v.this.state ≡ common)
    ⊎ ((s : ℕ) × (s₀ : ℕ) × (v.this.state ≡ backoff s) × (owing.state ≡ backoff s₀) × (s ≡ s₀))
    ⊎ ((s : ℕ) × (period : ℕ) × (v.this.state ≡ backoff s)
        × (fixed_interval_time_ms low ≡ some period)
        × (s ≡ 100 + from_millis (period * (24 / inter) / 2 + 2))
        × (v.this.adding_up_time ≡ 24 % inter)
        × (v.this.inserted_pend_cnt ≡ u32 (0 + 1))))
poll_pays_example =
    poll_pays clock clock-IsTimer countdown (at 100) owing idle (omega arith) low_short

rounds-AllLate : AllLate clock clock-IsTimer countdown rounds start
unfolding poll proceed poll_inner insert_pause pause_ms conclude resume back_off new
    fixed_interval_time_ms
rounds-AllLate = (
  λ s e. ground arith,
  (λ s e. ground arith, (λ s e. ground arith, (λ s e. ground arith, (λ s e. ground arith, tt)))),
)

drive_time_finishes_example :
    Returns (drive clock countdown rounds start) (λ w. (out : ℕ) × (w.result ≡ ready out))
drive_time_finishes_example =
    drive_time_finishes clock clock-IsTimer countdown (λ s. s.left) countdown_falls rounds
      low_handle two_left idle (omega arith) rounds-AllLate
