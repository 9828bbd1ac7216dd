-- ===== src/PendingFuture/ModeRatelimiter/Shared/Examples.antt =====
-- The theorems about futures that share a handle, at two futures of which one is polled and dropped.
use rs_run.Base.{ℕ, ◌+◌, ◌*◌, ◌-◌, ◌≤◌, ◌≡◌, refl, false, some, [], ◌∷◌, ltb, done, List}
use rs_run.Host.{pending, from_millis}
use rs_run.Host.Samples.{clock, Countdown, countdown, countdown_counted, idle, hold}
use rs_run.Host.Bucket.{Bucket, bucket, bucket-IsLimiter, bucket-IsPaced}
use rs_run.Host.Limiter.{Config}
use rs_run.Priority.{low}
use rs_run.PendingFuture.Backoff.{common, resume}
use rs_run.PendingFuture.RuntimeHandle.{
  limits, RateLimiterRuntimeHandle, build_limiter, drop_handle,
}
use rs_run.PendingFuture.RuntimeHandle as Handle
use rs_run.PendingFuture.ModeRatelimiter.Shared.{
  Member, spawned, member_of, Past, Reached, at_first, spawns, polled, dropped, handle_dropped,
  all_polls,
}
use rs_run.PendingFuture.ModeRatelimiter.Shared.Rate.{shared_rate, shared_stop}
use rs_run.PendingFuture.ModeRatelimiter.{
  Readings, Polled, new, conclude, poll_inner, proceed, poll,
}

abbrev low_limits : Config
low_limits = record { amount = 1100; interval = from_millis 50; max_tokens = 2000 }

abbrev tokens : ℕ → Bucket
tokens n = record { born = 0; amount = 1100; interval = from_millis 50; taken = n; turned_away = 0 }

abbrev handle_with : ℕ → RateLimiterRuntimeHandle bucket
handle_with n = record {
  limiter = some (tokens n);
  stopped = false;
  recent = 0;
  resting = 0;
  priority = low;
}

low_limited : limits low ≡ some low_limits
unfolding limits
low_limited = refl

made : Handle.new bucket 0 low ≡ done (handle_with 0)
unfolding Handle.new build_limiter limits
made = refl

abbrev two_left : Countdown
two_left = record { left = 2; polls = 0 }

abbrev waiting : Member clock bucket countdown
waiting = spawned clock bucket countdown two_left idle

abbrev at : ℕ → Readings
at t = record { resumed = t; asked = t; slept = t; rechecked = t; polled = t }

abbrev after_poll : Polled clock bucket countdown
after_poll = record {
  result = pending;
  this = record { future = record { left = 1; polls = 1 }; pend_cnt = 2; state = common };
  handle = handle_with 1;
  cx = hold idle;
}

one_poll :
    poll clock bucket countdown (at (from_millis 100)) waiting.this (handle_with 0) idle
    ≡ done after_poll
unfolding poll proceed poll_inner conclude resume new
one_poll = refl

abbrev Here :
    RateLimiterRuntimeHandle bucket
    → List (Member clock bucket countdown)
    → Past clock bucket countdown (λ s. s.polls)
    → Type 0
Here = Reached clock bucket countdown (λ s. s.polls) (handle_with 0) 0

abbrev one_polled : Past clock bucket countdown (λ s. s.polls)
one_polled = record { latest = from_millis 100; gone = 0; drops = 0 }

two_there :
    Here (handle_with 1) (member_of clock bucket countdown after_poll ∷ waiting ∷ []) one_polled
two_there =
    polled (handle_with 0) [] (waiting ∷ []) waiting (record { latest = 0; gone = 0; drops = 0 })
      (at (from_millis 100)) after_poll
      (spawns _ _ _ two_left idle (spawns _ _ _ two_left idle at_first refl) refl) refl one_poll

abbrev one_dropped : Past clock bucket countdown (λ s. s.polls)
one_dropped = record { latest = from_millis 100; gone = 1; drops = 1 }

one_there : Here (drop_handle bucket (handle_with 1)) (waiting ∷ []) one_dropped
one_there =
    dropped (handle_with 1) [] (waiting ∷ []) (member_of clock bucket countdown after_poll)
      one_polled two_there

shared_rate_example :
    ((all_polls clock bucket countdown (λ s. s.polls) (waiting ∷ []) + 1) * from_millis 50
      ≤ 1100 * (from_millis 100 - 0))
    × (l : Bucket) × ((drop_handle bucket (handle_with 1)).limiter ≡ some l)
    × (all_polls clock bucket countdown (λ s. s.polls) (waiting ∷ []) + 1 ≡ l.taken)
shared_rate_example =
    shared_rate clock bucket bucket-IsLimiter countdown (λ s. s.polls) countdown_counted
      bucket-IsPaced 0 low low_limits (handle_with 0) (drop_handle bucket (handle_with 1))
      (waiting ∷ []) one_dropped low_limited made one_there

-- The handle itself is dropped while both futures are there.
abbrev handle_gone : Past clock bucket countdown (λ s. s.polls)
handle_gone = record { latest = from_millis 100; gone = 0; drops = 1 }

both_left :
    Here
      (drop_handle bucket (handle_with 1))
      (member_of clock bucket countdown after_poll ∷ waiting ∷ [])
      handle_gone
both_left = handle_dropped (handle_with 1) _ one_polled two_there

shared_stop_example : (drop_handle bucket (handle_with 1)).stopped ≡ ltb 0 1
shared_stop_example =
    shared_stop clock bucket bucket-IsLimiter countdown (λ s. s.polls) countdown_counted 0 low
      low_limits (handle_with 0) (drop_handle bucket (handle_with 1))
      (member_of clock bucket countdown after_poll ∷ waiting ∷ []) handle_gone low_limited made
      both_left
