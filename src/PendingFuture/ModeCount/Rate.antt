-- ===== src/PendingFuture/ModeCount/Rate.antt =====
-- How often mode_count.rs polls a future in the time that passes.
pub mod Paced
mod Examples
use rs_run.Base.{
  ℕ, suc, ◌+◌, ◌*◌, ◌/◌, ◌%◌, ◌^◌, ◌≤◌, ◌<◌, ◌≡◌, refl, sym, ap, subst, ◌∙◌, ◌⊎◌, ◌≢◌, inl, inr,
  some, none, u32, Returns, Outcome, done, arith,
}
use mathlib.Core.Option.{some-injective}
use rs_run.Host.{
  Poll, pending, ready, Context, Future, Timer, IsTimer, Float, from_millis, max_sleep,
}
use rs_run.Priority.{Priority, very_low, low, middle, high, very_high, fixed_interval_count}
use rs_run.PendingFuture.RuntimeHandle.{CommonRuntimeHandle}
use rs_run.PendingFuture.Backoff.{
  State, common, backoff, back_off, back_off_deadline, back_off_over, rested_over, asleep-deadline,
}
use rs_run.PendingFuture.ModeCount.Records.{Registry}
use rs_run.PendingFuture.ModeCount.Cases.{IsAwake, IsDue, poll_paths}
use rs_run.PendingFuture.ModeCount.{PendingFuture, Readings, Polled, new, poll}

-- The nanoseconds that a pause of the priority lasts at least.
abbrev pub gap : Priority → ℕ
gap very_low = 30_000_000
gap low = 20_000_000
gap middle = 13_000_000
gap high = 10_000_000
gap very_high = 0

pub gap_next : (q : Priority) (n : ℕ) → gap q * (n + 1) ≡ gap q * n + gap q
gap_next very_low n = omega arith
gap_next low n = omega arith
gap_next middle n = omega arith
gap_next high n = omega arith
gap_next very_high n = omega arith

pub gap_four :
    (q : Priority) (polls pauses : ℕ)
    → polls ≤ 4 * pauses + 4
    → gap q * polls ≤ 4 * (gap q * pauses) + 4 * gap q
gap_four very_low polls pauses h = omega arith
gap_four low polls pauses h = omega arith
gap_four middle polls pauses h = omega arith
gap_four high polls pauses h = omega arith
gap_four very_high polls pauses h = omega arith

pub gap_period :
    (q : Priority) (period : ℕ)
    → fixed_interval_count q ≡ some period
    → (from_millis period ≡ gap q) × (period ≤ 30)
unfolding fixed_interval_count
gap_period very_low period e = let n : 30 ≡ period = some-injective _ _ e in omega arith
gap_period low period e = let n : 20 ≡ period = some-injective _ _ e in omega arith
gap_period middle period e = let n : 13 ≡ period = some-injective _ _ e in omega arith
gap_period high period e = let n : 10 ≡ period = some-injective _ _ e in omega arith
gap_period very_high period e = absurd (ground arith)

-- The clock runs forward, and the random number is below ten.
abbrev pub IsForward : ℕ → Readings → Type 0
IsForward latest r =
    (latest ≤ r.resumed)
    × (r.resumed ≤ r.slept)
    × (r.slept ≤ r.rechecked)
    × (r.rechecked ≤ r.polled)
    × (r.polled ≤ r.completed)
    × (r.jitter < 10)

module _ (T : Timer) (f : Float) {Output : Type 0} (F : Future Output) (type_id : ℕ) where
  -- A future that has not finished, the registry, the latest time, and how often it was polled.
  pub data Reached (handle : CommonRuntimeHandle) (s : F.State) (born : ℕ)
      : PendingFuture T F → Context → Registry f → ℕ → ℕ → Type 0 where
    made :
        (cx : Context) (registry : Registry f)
        → Reached handle s born (new T f F handle s) cx registry born 0
    polled :
        (p : PendingFuture T F) (cx : Context) (registry : Registry f) (latest n : ℕ) (r : Readings)
        (v : Polled T f F)
        → Reached handle s born p cx registry latest n
        → IsForward latest r
        → poll T f F type_id r p cx registry ≡ done v
        → v.result ≡ pending
        → Reached handle s born v.this v.cx v.registry r.completed (suc n)

  abbrev pub until : State T.Sleep → ℕ → ℕ
  until common latest = latest
  until (backoff s) latest = T.deadline s
