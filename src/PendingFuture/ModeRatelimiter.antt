-- ===== src/PendingFuture/ModeRatelimiter.antt =====
-- src/pending_future/mode_ratelimiter.rs: a future is polled when its runtime's limiter has a token.
pub mod Cases
pub mod Wakes
pub mod Runs
pub mod Tokens
pub mod Counter
pub mod Progress
pub mod Transparent
pub mod Shared
mod Examples
use rs_run.Base.{ℕ, ◌+◌, Option, none, some, u32, u64_pred, Outcome, done, ◌>>=◌}
use rs_run.Host.{Poll, ready, pending, Context, Future, Timer}
use rs_run.Host.Limiter.{TryWait, granted, refused, Limiter}
use rs_run.PendingFuture.RuntimeHandle.{RateLimiterRuntimeHandle}
use rs_run.PendingFuture.Backoff.{
  State, common, backoff, Resumed, asleep, rested, running, resume, back_off,
}

-- Its handle is shared with other futures, and stands beside it.
pub record PendingFuture (T : Timer) {Output : Type 0} (F : Future Output) : Type 0 where
  pub future : F.State
  pub pend_cnt : ℕ  -- u32
  pub state : State T.Sleep

-- The times of one call of `poll`, in the order of the code: tokio polls the old sleep, the limiter is
-- asked, the new sleep is made and polled; or the inner future is polled.
pub record Readings : Type 0 where
  pub resumed : ℕ
  pub asked : ℕ
  pub slept : ℕ
  pub rechecked : ℕ
  pub polled : ℕ

module _ (T : Timer) (L : Limiter) {Output : Type 0} (F : Future Output) where
  -- What `poll` returns, the future that it leaves, its handle and the context.
  pub record Polled : Type 0 where
    pub result : Poll Output
    pub this : PendingFuture T F
    pub handle : RateLimiterRuntimeHandle L
    pub cx : Context

  unfoldable pub new : F.State → PendingFuture T F
  new future = record { future = future; pend_cnt = 0; state = common }

  unfoldable pub conclude :
      PendingFuture T F → RateLimiterRuntimeHandle L → Poll Output × F.State × Context → Polled
  conclude p h (ready out, future, cx) = record {
    result = ready out;
    this = record p { future = future };
    handle = h;
    cx = cx;
  }
  conclude p h (pending, future, cx) = record {
    result = pending;
    this = record p { future = future; pend_cnt = u32 (p.pend_cnt + 1) };
    handle = h;
    cx = cx;
  }

  unfoldable pub poll_inner :
      Readings → PendingFuture T F → RateLimiterRuntimeHandle L → Context → Polled
  poll_inner r p h cx = conclude p h (F.poll r.polled p.future cx)

  unfoldable pub wait_for :
      ℕ → Readings → PendingFuture T F → RateLimiterRuntimeHandle L → Context → Outcome Polled
  wait_for wait r p h cx = do
    (state, cx') ← back_off T r.slept r.rechecked wait cx
    done (record { result = pending; this = record p { state = state }; handle = h; cx = cx' })

  -- `poll` behind the first `match`, in state `Common`.
  unfoldable pub proceed :
      Readings → PendingFuture T F → RateLimiterRuntimeHandle L → Context → Outcome Polled
  proceed r p h cx = elim h.limiter [
    | none ↦ done (poll_inner r p h cx)
    | some limiter ↦
        let p' = record p { pend_cnt = u32 (p.pend_cnt + 1) } in
        let (answer, limiter') = L.try_wait r.asked limiter in
        let h' = record h { limiter = some limiter' } in
        elim answer [
          | refused wait ↦ wait_for wait r p' h' cx
          | granted ↦ done (poll_inner r p' h' cx)
        ]
  ]

  unfoldable pub poll :
      Readings → PendingFuture T F → RateLimiterRuntimeHandle L → Context → Outcome Polled
  poll r p h cx = elim (resume T r.resumed p.state cx) [
    | asleep sleep cx' ↦ done (record {
      result = pending;
      this = record p { state = backoff sleep };
      handle = h;
      cx = cx';
    })
    | rested cx' ↦
        proceed r (record p { state = common }) (record h { resting = u64_pred h.resting }) cx'
    | running ↦ proceed r p h cx
  ]
