-- ===== src/PendingFuture/ModeCount/Shared/Examples.antt =====
-- The theorem about futures that share the registry, at one future that finishes at its first poll
-- beside one that was not polled.
use rs_run.Base.{ℕ, ◌≡◌, refl, some, [], ◌∷◌, List, done, length, lookup, insert}
use rs_run.Host.{ready}
use rs_run.Host.Samples.{clock, Countdown, countdown, countdown_counted, idle, whole, whole-IsFloat}
use rs_run.Priority.{low}
use rs_run.PendingFuture.Backoff.{common, resume}
use rs_run.PendingFuture.RuntimeHandle.{CommonRuntimeHandle}
use rs_run.PendingFuture.ModeCount.Records.{OneFutureRecord, Registry, share, finish}
use rs_run.PendingFuture.ModeCount.Records.Window.{entry_of}
use rs_run.PendingFuture.ModeCount.Shared.{
  Member, spawned, member_of, Reached, at_first, spawns, polled, cpu_sum,
}
use rs_run.PendingFuture.ModeCount.Shared.Told.{shared_records}
use rs_run.PendingFuture.ModeCount.{
  Readings, Polled, new, started_at, conclude, poll_inner, proceed, poll,
}

abbrev low_handle : CommonRuntimeHandle
low_handle = record { priority = low }

abbrev none_left : Countdown
none_left = record { left = 0; polls = 0 }

abbrev waiting : ℕ → Member clock whole countdown (λ s. s.polls)
waiting t = spawned clock whole countdown (λ s. s.polls) t low_handle none_left idle

abbrev now : Readings
now = record {
  entered = 0;
  began = 0;
  resumed = 0;
  jitter = 3;
  slept = 0;
  rechecked = 0;
  polled = 0;
  returned = 2_000;
  completed = 4_000;
}

abbrev written : Registry whole
written = (7, record { rate = 0; records = record { total_micro = 4; cpu_micro = 2 } ∷ [] }) ∷ []

abbrev after_poll : Polled clock whole countdown
after_poll = record {
  result = ready 42;
  this = record {
    future = record { left = 0; polls = 1 };
    handle = low_handle;
    pend_cnt = 0;
    state = common;
    begin_time = some 0;
    poll_time = 2;
  };
  cx = idle;
  registry = written;
}

one_poll : poll clock whole countdown 7 now (waiting 7).this idle [] ≡ done after_poll
unfolding poll proceed poll_inner conclude started_at resume finish lookup insert new share
one_poll = refl

both :
    Reached clock whole countdown
      (λ s. s.polls)
      written
      (member_of clock whole countdown (λ s. s.polls) (waiting 7) now after_poll ∷ waiting 8 ∷ [])
both =
    polled [] [] (waiting 8 ∷ []) (waiting 7) now after_poll
      (spawns [] (waiting 8 ∷ []) 7 low_handle none_left idle
        (spawns [] [] 8 low_handle none_left idle at_first))
      refl one_poll

shared_records_example :
    (runs : List OneFutureRecord) × (lookup 7 written ≡ entry_of whole runs)
    × (length runs ≡ 1)
    × (cpu_sum clock whole countdown (λ s. s.polls) runs ≡ 2)
unfolding new
shared_records_example =
    shared_records clock whole countdown (λ s. s.polls) countdown_counted whole-IsFloat written
      (member_of clock whole countdown (λ s. s.polls) (waiting 7) now after_poll ∷ waiting 8 ∷ []) 7
      both
