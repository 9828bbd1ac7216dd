-- ===== src/PendingFuture/RuntimeHandle.antt =====
-- src/pending_future/runtime_handle.rs: what a wrapped future knows of the runtime that it runs in.
pub mod Limits
use rs_run.Base.{ℕ, Bool, true, false, Option, none, some, Outcome, done, ◌>>=◌, unwrap}
use rs_run.Host.{from_millis}
use rs_run.Host.Limiter.{Config, Limiter}
use rs_run.Priority.{Priority, very_low, low, middle, high, very_high}

pub record CommonRuntimeHandle : Type 0 where
  pub priority : Priority

-- The `Ratelimiter::builder` calls in `RateLimiterRuntimeHandle::new`.
unfoldable pub limits : Priority → Option Config
limits very_low = some (record { amount = 800; interval = from_millis 70; max_tokens = 2000 })
limits low = some (record { amount = 1100; interval = from_millis 50; max_tokens = 2000 })
limits middle = some (record { amount = 1400; interval = from_millis 30; max_tokens = 2000 })
limits high = some (record { amount = 1700; interval = from_millis 10; max_tokens = 2000 })
limits very_high = none

module _ (L : Limiter) where
  -- What the clones of a RateLimiterRuntimeHandle share. `recent` and `resting` are the two counters
  -- of its tuple (AtomicU64). The channel of the tuple is never used and is left out.
  pub record RateLimiterRuntimeHandle : Type 0 where
    pub limiter : Option L.Ratelimiter
    pub stopped : Bool
    pub recent : ℕ
    pub resting : ℕ
    pub priority : Priority

  -- `Ratelimiter::builder(…).build().unwrap()` for a priority that is limited.
  unfoldable pub build_limiter : ℕ → Option Config → Outcome (Option L.Ratelimiter)
  build_limiter now none = done none
  build_limiter now (some config) = do limiter ← unwrap (L.build now config); done (some limiter)

  unfoldable pub new : ℕ → Priority → Outcome RateLimiterRuntimeHandle
  new now priority = do
    limiter ← build_limiter now (limits priority)
    done (record {
      limiter = limiter;
      stopped = false;
      recent = 0;
      resting = 0;
      priority = priority;
    })

  -- `Drop::drop`, of any clone.
  unfoldable pub drop_handle : RateLimiterRuntimeHandle → RateLimiterRuntimeHandle
  drop_handle h = record h { stopped = true }
