-- ===== src/PendingFuture/ModeTime/Share.antt =====
-- The share of the processor that mode_time.rs leaves to a future.
pub mod Prices
pub mod Paid
mod Examples
use rs_run.Base.{
  ℕ, ◌+◌, ◌-◌, ◌*◌, ◌/◌, ◌^◌, ◌≤◌, ◌<◌, ◌≡◌, refl, sym, ap, subst, ◌∙◌, ◌⊎◌, inl, inr, some, none,
  suc, u64, ◌==◌, u32, if◌then◌else◌, Returns, Outcome, done, arith,
}
use mathlib.Core.Option.{some-injective}
use rs_run.Host.{
  Poll, pending, ready, Context, Future, Timer, IsTimer, from_millis, micros_between, max_sleep,
}
use rs_run.Priority.{Priority, very_low, low, middle, high, very_high, fixed_interval_time_ms}
use rs_run.PendingFuture.RuntimeHandle.{CommonRuntimeHandle}
use rs_run.PendingFuture.Backoff.{
  State, common, backoff, back_off, back_off_deadline, back_off_over, rested_over, asleep-deadline,
}
use rs_run.PendingFuture.ModeTime.Cases.{IsAwake, IsFree, poll_paths}
use rs_run.PendingFuture.ModeTime.Pauses.{pause_ms_exact}
use rs_run.PendingFuture.ModeTime.{PendingFuture, Readings, inter, pause_ms, Polled, new, poll}

-- The nanoseconds that have to pass for each microsecond of polls: half a hundred thousand for each
-- unit of the priority's period.
abbrev pub price : Priority → ℕ
price very_low = 450_000
price low = 350_000
price middle = 250_000
price high = 150_000
price very_high = 0

abbrev pub an_hour : ℕ
an_hour = 3_600_000_000_000

module _ (T : Timer) {Output : Type 0} (F : Future Output) (polls : F.State → ℕ) where
  -- The clock runs forward, and no poll of the inner future takes more than an hour.
  abbrev pub IsForward : ℕ → Readings → Type 0
  IsForward latest r =
      (latest ≤ r.resumed)
      × (r.resumed ≤ r.slept)
      × (r.slept ≤ r.rechecked)
      × (r.rechecked ≤ r.begin)
      × (r.begin ≤ r.returned)
      × (r.returned ≤ r.begin + an_hour)

  -- The whole microseconds of a poll, as the wrapper counts them, if it polled the inner future: what is
  -- left below a microsecond is cut off.
  abbrev pub took : Readings → PendingFuture T F → PendingFuture T F → ℕ
  took r p p' = if polls p'.future == polls p.future then 0 else micros_between r.begin r.returned

  -- A future that has not finished, the latest time, and the sum of the whole
  -- microseconds that its polls took.
  pub data Reached (handle : CommonRuntimeHandle) (s : F.State) (born : ℕ)
      : PendingFuture T F → Context → ℕ → ℕ → Type 0 where
    made : (cx : Context) → Reached handle s born (new T F handle s) cx born 0
    polled :
        (p : PendingFuture T F) (cx : Context) (latest spent : ℕ) (r : Readings) (v : Polled T F)
        → Reached handle s born p cx latest spent
        → IsForward latest r
        → poll T F r p cx ≡ done v
        → v.result ≡ pending
        → Reached handle s born v.this v.cx r.returned (spent + took r p v.this)

  abbrev pub until : State T.Sleep → ℕ → ℕ
  until common latest = latest
  until (backoff s) latest = T.deadline s

  -- What the polls took, but for what is owed, has been paid for by the time that a pause is over.
  abbrev pub IsPaid : CommonRuntimeHandle → ℕ → PendingFuture T F → ℕ → ℕ → Type 0
  IsPaid handle born p latest spent =
      (p.handle ≡ handle)
      × (price handle.priority * spent + born
          ≤ until p.state latest + price handle.priority * p.adding_up_time)
      × (p.adding_up_time ≤ inter + 3_600_000_000)
