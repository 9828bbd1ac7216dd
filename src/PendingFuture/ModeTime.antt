-- ===== src/PendingFuture/ModeTime.antt =====
-- src/pending_future/mode_time.rs: a future pays for the time that its polls took with pauses.
pub mod Cases
pub mod Wakes
pub mod Pauses
pub mod Runs
pub mod Share
pub mod Transparent
mod Examples
use rs_run.Base.{
  ℕ, ◌+◌, ◌-◌, ◌*◌, ◌/◌, Option, none, some, if◌then◌else◌, ltb, u32, u64, Outcome, done, ◌>>=◌,
}
use rs_run.Host.{Poll, ready, pending, Context, Future, Timer, from_millis, micros_between}
use rs_run.Priority.{fixed_interval_time_ms}
use rs_run.PendingFuture.RuntimeHandle.{CommonRuntimeHandle}
use rs_run.PendingFuture.Backoff.{
  State, common, backoff, Resumed, asleep, rested, running, resume, back_off,
}

pub record PendingFuture (T : Timer) {Output : Type 0} (F : Future Output) : Type 0 where
  pub future : F.State
  pub handle : CommonRuntimeHandle
  pub pend_cnt : ℕ  -- AtomicU32
  pub inserted_pend_cnt : ℕ  -- AtomicU32
  pub adding_up_time : ℕ  -- u64
  pub state : State T.Sleep

-- What one call of `poll` reads from the clock, in the order of the code: the times at which tokio
-- polls the old sleep, makes the new one and polls that; `begin`, the inner poll and `elapsed`.
pub record Readings : Type 0 where
  pub resumed : ℕ
  pub slept : ℕ
  pub rechecked : ℕ
  pub begin : ℕ
  pub polled : ℕ
  pub returned : ℕ

-- `inter` in `poll`.
abbrev pub inter : ℕ
inter = 10

-- The milliseconds of a pause: `pend_period * time / 2 + 2` on u64.
unfoldable pub pause_ms : ℕ → ℕ → ℕ
pause_ms period time = u64 (u64 (period * time) / 2 + 2)

module _ (T : Timer) {Output : Type 0} (F : Future Output) where
  -- What `poll` returns, the future that it leaves and the context.
  pub record Polled : Type 0 where
    pub result : Poll Output
    pub this : PendingFuture T F
    pub cx : Context

  unfoldable pub new : CommonRuntimeHandle → F.State → PendingFuture T F
  new handle future = record {
    future = future;
    handle = handle;
    pend_cnt = 0;
    inserted_pend_cnt = 0;
    adding_up_time = 0;
    state = common;
  }

  unfoldable pub conclude : Readings → PendingFuture T F → Poll Output × F.State × Context → Polled
  conclude r p (ready out, future, cx) = record {
    result = ready out;
    this = record p { future = future };
    cx = cx;
  }
  conclude r p (pending, future, cx) =
      let elapsed = micros_between r.begin r.returned in
      record {
        result = pending;
        this = record p {
          future = future;
          adding_up_time = u64 (p.adding_up_time + u64 elapsed);
          pend_cnt = u32 (p.pend_cnt + 1);
        };
        cx = cx;
      }

  unfoldable pub poll_inner : Readings → PendingFuture T F → Context → Polled
  poll_inner r p cx = conclude r p (F.poll r.polled p.future cx)

  unfoldable pub insert_pause : ℕ → Readings → PendingFuture T F → Context → Outcome Polled
  insert_pause period r p cx = do
    let time = p.adding_up_time / inter
    (state, cx') ← back_off T r.slept r.rechecked (from_millis (pause_ms period time)) cx
    done (record {
      result = pending;
      this = record p {
        adding_up_time = p.adding_up_time - time * inter;
        inserted_pend_cnt = u32 (p.inserted_pend_cnt + 1);
        state = state;
      };
      cx = cx';
    })

  -- `poll` behind the first `match`, in state `Common`.
  unfoldable pub proceed : Readings → PendingFuture T F → Context → Outcome Polled
  proceed r p cx = elim (fixed_interval_time_ms p.handle.priority) [
    | some period ↦
        if ltb inter p.adding_up_time then insert_pause period r p cx else done (poll_inner r p cx)
    | none ↦ done (poll_inner r p cx)
  ]

  unfoldable pub poll : Readings → PendingFuture T F → Context → Outcome Polled
  poll r p cx = elim (resume T r.resumed p.state cx) [
    | asleep sleep cx' ↦
        done (record { result = pending; this = record p { state = backoff sleep }; cx = cx' })
    | rested cx' ↦ proceed r (record p { state = common }) cx'
    | running ↦ proceed r p cx
  ]
