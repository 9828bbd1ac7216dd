-- ===== src/PendingFuture/ModeRatelimiter/Shared.antt =====
-- The futures of a runtime that share one handle of mode_ratelimiter.rs: an executor polls them in any
-- order and drops them, and others are spawned.
pub mod Rate
mod Examples
use rs_run.Base.{
  ℕ, zero, suc, ◌+◌, ◌*◌, ◌-◌, ◌≤◌, ◌<◌, ◌≡◌, refl, Option, none, some, List, [], ◌∷◌, ◌++◌, max,
  Outcome, done, arith,
}
use rs_run.Host.{Poll, ready, pending, Context, Future, Timer}
use rs_run.Host.Limiter.{Limiter}
use rs_run.PendingFuture.RuntimeHandle.{RateLimiterRuntimeHandle, drop_handle}
use rs_run.PendingFuture.ModeRatelimiter.{PendingFuture, Readings, Polled, new, poll}

module _ (T : Timer) (L : Limiter) {Output : Type 0} (F : Future Output) where
  -- A future of the runtime, with its result so far and the context in which it was polled last.
  pub record Member : Type 0 where
    pub result : Poll Output
    pub this : PendingFuture T F
    pub cx : Context

  abbrev pub spawned : F.State → Context → Member
  spawned future cx = record { result = pending; this = new T L F future; cx = cx }

  abbrev pub member_of : Polled T L F → Member
  member_of v = record { result = v.result; this = v.this; cx = v.cx }

module _ (T : Timer) (L : Limiter) {Output : Type 0} (F : Future Output) (polls : F.State → ℕ) where
  -- What is kept of the past: the latest time at which a poll could ask, the polls of inner futures
  -- that are gone, and how often a clone of the handle was dropped.
  pub record Past : Type 0 where
    pub latest : ℕ
    pub gone : ℕ
    pub drops : ℕ

  -- The handle, the futures and the past that there can be, if the handle was `first` at the time
  -- `born`. A clone of the handle is dropped with the future that has it, or without one: the handle
  -- itself, or a clone that has no future.
  pub data Reached (first : RateLimiterRuntimeHandle L) (born : ℕ)
      : RateLimiterRuntimeHandle L → List (Member T L F) → Past → Type 0 where
    at_first : Reached first born first [] (record { latest = born; gone = 0; drops = 0 })
    spawns :
        (h : RateLimiterRuntimeHandle L) (ms : List (Member T L F)) (past : Past) (s : F.State)
        (cx : Context)
        → Reached first born h ms past
        → polls s ≡ 0
        → Reached first born h (spawned T L F s cx ∷ ms) past
    polled :
        (h : RateLimiterRuntimeHandle L) (before after : List (Member T L F)) (m : Member T L F)
        (past : Past) (r : Readings) (v : Polled T L F)
        → Reached first born h (before ++ m ∷ after) past
        → m.result ≡ pending
        → poll T L F r m.this h m.cx ≡ done v
        → Reached first born v.handle
            (before ++ member_of T L F v ∷ after)
            (record past { latest = max past.latest r.asked })
    dropped :
        (h : RateLimiterRuntimeHandle L) (before after : List (Member T L F)) (m : Member T L F)
        (past : Past)
        → Reached first born h (before ++ m ∷ after) past
        → Reached first born
            (drop_handle L h)
            (before ++ after)
            (record past { gone = past.gone + polls m.this.future; drops = suc past.drops })
    handle_dropped :
        (h : RateLimiterRuntimeHandle L) (ms : List (Member T L F)) (past : Past)
        → Reached first born h ms past
        → Reached first born (drop_handle L h) ms (record past { drops = suc past.drops })

  -- The polls of all inner futures that are there.
  abbrev pub all_polls : List (Member T L F) → ℕ
  all_polls [] = 0
  all_polls (m ∷ ms) = polls m.this.future + all_polls ms

  pub all_polls-append :
      (xs ys : List (Member T L F)) → all_polls (xs ++ ys) ≡ all_polls xs + all_polls ys
  all_polls-append [] ys = omega arith
  all_polls-append (m ∷ xs) ys = omega (arith, all_polls-append xs ys)
