-- ===== src/PendingFuture/ModeCount/Examples.antt =====
-- The theorems about mode_count.rs at a timer, a future and times that keep their hypotheses.
use rs_run.Base.{
  ℕ, ◌+◌, ◌/◌, ◌≤◌, ◌≡◌, refl, List, [], ◌∷◌, Option, none, some, Outcome, done, panicked, Returns,
  lookup, arith,
}
use rs_run.Host.{Poll, ready, pending, Context}
use rs_run.Host.Samples.{
  clock, clock-IsTimer, Countdown, countdown, countdown_counted, countdown_falls, whole,
  whole-IsFloat, idle,
}
use rs_run.Priority.{low, very_high, fixed_interval_count}
use rs_run.PendingFuture.Drive
use rs_run.PendingFuture.Bare.{bare_poll, bare_result}
use rs_run.PendingFuture.Drive.{drive_bare}
use rs_run.PendingFuture.RuntimeHandle.{CommonRuntimeHandle}
use rs_run.PendingFuture.Backoff.{resume, back_off}
use rs_run.PendingFuture.ModeCount.Records.{OneFutureRecord, share, mean, push_bounded, finish}
use rs_run.PendingFuture.ModeCount.Records.Window.{finish_all, entry_of, of_type, lookup-finish_all}
use rs_run.PendingFuture.ModeCount.Records.Race.{
  Recorder, read_phase, Steps, here, next, reads, IsSound, Steps-IsSound, first_runs_race,
}
use rs_run.PendingFuture.ModeCount.Transparent.{drive_transparent}
use rs_run.PendingFuture.ModeCount.Drive.{fresh, drive}
use rs_run.PendingFuture.ModeCount.Cadence.{finished, drive_cadence}
use rs_run.PendingFuture.ModeCount.Accounts.{cost, Booked, drive_records}
use rs_run.PendingFuture.ModeCount.Progress.{AllLate, drive_finishes}
use rs_run.PendingFuture.ModeCount.{
  Readings, Polled, new, started_at, conclude, poll_inner, insert_pause, proceed, poll,
}

-- All readings of a poll at one time, with three milliseconds from the generator.
abbrev at : ℕ → Readings
at t = record {
  entered = t;
  began = t;
  resumed = t;
  jitter = 3;
  slept = t;
  rechecked = t;
  polled = t;
  returned = t + 2_000;
  completed = t + 3_000;
}

abbrev low_handle : CommonRuntimeHandle
low_handle = record { priority = low }

abbrev four_left : Countdown
four_left = record { left = 4; polls = 0 }

-- Four pauses of the inner future, one that is inserted, and the end.
abbrev rounds : List Readings
rounds =
    at 0
    ∷ at 100_000_000
    ∷ at 200_000_000
    ∷ at 300_000_000
    ∷ at 400_000_000
    ∷ at 500_000_000
    ∷ at 600_000_000
    ∷ at 700_000_000
    ∷ at 800_000_000
    ∷ []

abbrev start : Polled clock whole countdown
start = fresh clock whole countdown low_handle four_left idle []

abbrev result : Outcome (Polled clock whole countdown) → Option (Poll ℕ × ℕ × ℕ)
result (done v) = some (v.result, v.this.pend_cnt, v.this.future.polls)
result panicked = none

five_pauses : result (drive clock whole countdown 7 rounds start) ≡ some (ready 42, 5, 5)
unfolding Drive.drive poll proceed poll_inner insert_pause conclude started_at resume back_off
    finish new fixed_interval_count mean share push_bounded lookup
five_pauses = refl

abbrev rounds_after : List Readings
rounds_after = at 100_000_000 ∷ at 200_000_000 ∷ []

drive_records_example :
    Returns
      (drive clock whole countdown 7
        (at 0 ∷ rounds_after)
        (fresh clock whole countdown low_handle (record { left = 2; polls = 0 }) idle []))
      (λ v.
        Booked clock whole countdown 7 (at 0 ∷ rounds_after) 0 [] v
        × (v.this.poll_time ≤ cost (at 0 ∷ rounds_after)))
drive_records_example =
    drive_records clock whole countdown 7 (at 0) rounds_after low_handle
      (record { left = 2; polls = 0 }) idle []

drive_cadence_example :
    Returns
      (drive clock whole countdown 7 rounds start)
      (λ v. v.this.future.polls + v.this.pend_cnt / 5 ≡ v.this.pend_cnt + finished v.result)
unfolding fixed_interval_count
drive_cadence_example =
    drive_cadence clock whole countdown (λ s. s.polls) countdown_counted 7 20 rounds low_handle
      four_left idle [] refl refl (omega arith)

rounds-AllLate : AllLate clock clock-IsTimer whole countdown 7 rounds start
unfolding poll proceed poll_inner insert_pause conclude started_at resume back_off finish new
    fixed_interval_count mean share push_bounded lookup
rounds-AllLate = (
  λ s e. ground arith,
  (
    λ s e. ground arith,
    (
      λ s e. ground arith,
      (
        λ s e. ground arith,
        (
          λ s e. ground arith,
          (
            λ s e. ground arith,
            (λ s e. ground arith, (λ s e. ground arith, (λ s e. ground arith, tt))),
          ),
        ),
      ),
    ),
  ),
)

drive_finishes_example :
    Returns (drive clock whole countdown 7 rounds start) (λ w. (out : ℕ) × (w.result ≡ ready out))
drive_finishes_example =
    drive_finishes clock clock-IsTimer whole countdown 7 (λ s. s.left) countdown_falls rounds
      low_handle four_left idle [] (omega arith) (omega arith) rounds-AllLate

abbrev history : List (ℕ × OneFutureRecord)
history =
    (7, record { total_micro = 100; cpu_micro = 300 })
    ∷ (8, record { total_micro = 50; cpu_micro = 50 })
    ∷ (7, record { total_micro = 10; cpu_micro = 50 })
    ∷ []

lookup-finish_all_example :
    lookup 7 (finish_all whole [] history) ≡ entry_of whole (of_type 7 history)
lookup-finish_all_example = lookup-finish_all whole whole-IsFloat history 7

abbrev one_run : OneFutureRecord
one_run = record { total_micro = 10; cpu_micro = 5 }

one_step :
    Steps whole
      (record { registry = []; missed = [] })
      (read_phase whole 7 one_run (record { registry = []; missed = [] }))
one_step = next here (reads 7 one_run)

Steps-IsSound_example :
    IsSound whole (read_phase whole 7 one_run (record { registry = []; missed = [] }))
Steps-IsSound_example = Steps-IsSound whole whole-IsFloat one_step

abbrev other_run : OneFutureRecord
other_run = record { total_micro = 20; cpu_micro = 5 }

first_runs_race_example :
    (s : Recorder whole) × Steps whole (record { registry = []; missed = [] }) s
    × (s.missed ≡ [])
    × (lookup 7 s.registry
        ≡ some (record { rate = share whole other_run; records = other_run ∷ [] }))
    × (lookup 7 (finish whole 7 other_run (finish whole 7 one_run []))
        ≡ some (record {
          rate = mean whole (one_run ∷ other_run ∷ []);
          records = one_run ∷ other_run ∷ [];
        }))
unfolding lookup
first_runs_race_example = first_runs_race whole 7 one_run other_run [] refl

drive_transparent_example :
    Returns
      (drive clock whole countdown 7 rounds
        (fresh clock whole countdown (record { priority = very_high }) four_left idle []))
      (λ w.
        ◌≡◌ {A = Poll ℕ × Countdown × Context}
          (w.result, w.this.future, w.cx)
          (drive_bare
            (bare_poll countdown (λ (r : Readings). r.polled))
            (bare_result countdown)
            rounds
            (pending, four_left, idle)))
drive_transparent_example = drive_transparent clock whole countdown 7 rounds four_left idle []
