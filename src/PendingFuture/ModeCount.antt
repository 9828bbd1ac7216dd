-- ===== src/PendingFuture/ModeCount.antt =====
-- src/pending_future/mode_count.rs: a future whose pauses are counted, with pauses of the wrapper among them.
pub mod Records
pub mod Cases
pub mod Wakes
pub mod Pauses
pub mod Drive
pub mod Cadence
pub mod Progress
pub mod Accounts
pub mod Transparent
pub mod Shared
pub mod Rate
mod Examples
use rs_run.Base.{
  ℕ, ◌+◌, ◌%◌, Option, none, some, Bool, if◌then◌else◌, ◌==◌, u32, u64, Outcome, done, ◌>>=◌,
  unwrap,
}
use rs_run.Host.{Poll, ready, pending, Context, Future, Timer, Float, from_millis, micros_between}
use rs_run.Priority.{fixed_interval_count}
use rs_run.PendingFuture.RuntimeHandle.{CommonRuntimeHandle}
use rs_run.PendingFuture.Backoff.{
  State, common, backoff, Resumed, asleep, rested, running, resume, back_off,
}
use Records.{OneFutureRecord, Registry, finish}

pub record PendingFuture (T : Timer) {Output : Type 0} (F : Future Output) : Type 0 where
  pub future : F.State
  pub handle : CommonRuntimeHandle
  pub pend_cnt : ℕ  -- u32
  pub state : State T.Sleep
  pub begin_time : Option ℕ
  pub poll_time : ℕ  -- u64

-- What one call of `poll` reads from the clock and the random generator, in the order of the code.
-- `entered` and `began` are its two calls of `Instant::now`; `resumed`, `slept` and `rechecked` are
-- the times at which tokio polls the old sleep, makes the new one and polls that; `polled` is when the
-- inner future is polled, `returned` and `completed` are the two calls of `elapsed` behind that.
pub record Readings : Type 0 where
  pub entered : ℕ
  pub began : ℕ
  pub resumed : ℕ
  pub jitter : ℕ
  pub slept : ℕ
  pub rechecked : ℕ
  pub polled : ℕ
  pub returned : ℕ
  pub completed : ℕ

-- `inter` in `poll`.
abbrev pub inter : ℕ
inter = 5

-- The first poll sets the start of the future's life.
unfoldable pub started_at : ℕ → Option ℕ → Option ℕ
started_at now none = some now
started_at now (some begin) = some begin

module _ (T : Timer) (f : Float) {Output : Type 0} (F : Future Output) where
  -- What `poll` returns, the future that it leaves, and what it changed outside of that.
  pub record Polled : Type 0 where
    pub result : Poll Output
    pub this : PendingFuture T F
    pub cx : Context
    pub registry : Registry f

  unfoldable pub new : CommonRuntimeHandle → F.State → PendingFuture T F
  new handle future = record {
    future = future;
    handle = handle;
    pend_cnt = 0;
    state = common;
    begin_time = none;
    poll_time = 0;
  }

  unfoldable pub conclude :
      ℕ → Readings → PendingFuture T F → Context → Registry f → Poll Output → Outcome Polled
  conclude type_id r p cx registry (ready out) = do
    begin ← unwrap p.begin_time
    let one : OneFutureRecord = record {
      total_micro = u64 (micros_between begin r.completed);
      cpu_micro = p.poll_time;
    }
    done
        (record { result = ready out; this = p; cx = cx; registry = finish f type_id one registry })
  conclude type_id r p cx registry pending = done (record {
    result = pending;
    this = record p { pend_cnt = u32 (p.pend_cnt + 1) };
    cx = cx;
    registry = registry;
  })

  unfoldable pub poll_inner :
      ℕ → Readings → PendingFuture T F → Context → Registry f → Outcome Polled
  poll_inner type_id r p cx registry =
      let (res, future, cx') = F.poll r.polled p.future cx in
      let spent = u64 (micros_between r.entered r.returned) in
      conclude type_id r (record p { future = future; poll_time = u64 (p.poll_time + spent) }) cx'
        registry res

  unfoldable pub insert_pause :
      ℕ → Readings → PendingFuture T F → Context → Registry f → Outcome Polled
  insert_pause period r p cx registry = do
    (state, cx') ← back_off T r.slept r.rechecked (from_millis (period + r.jitter)) cx
    done (record {
      result = pending;
      this = record p { pend_cnt = u32 (p.pend_cnt + 1); state = state };
      cx = cx';
      registry = registry;
    })

  -- `poll` behind the first `match`, in state `Common`.
  unfoldable pub proceed : ℕ → Readings → PendingFuture T F → Context → Registry f → Outcome Polled
  proceed type_id r p cx registry =
      if u32 (p.pend_cnt + 1) % inter == 0
      then elim (fixed_interval_count p.handle.priority) [
        | some period ↦ insert_pause period r p cx registry
        | none ↦ poll_inner type_id r p cx registry
      ]
      else poll_inner type_id r p cx registry

  unfoldable pub poll : ℕ → Readings → PendingFuture T F → Context → Registry f → Outcome Polled
  poll type_id r p cx registry =
      let p' = record p { begin_time = started_at r.began p.begin_time } in
      elim (resume T r.resumed p.state cx) [
        | asleep sleep cx' ↦ done (record {
          result = pending;
          this = record p' { state = backoff sleep };
          cx = cx';
          registry = registry;
        })
        | rested cx' ↦ proceed type_id r (record p' { state = common }) cx' registry
        | running ↦ proceed type_id r p' cx registry
      ]
