-- ===== src/PendingFuture/ModeTime/Share/Prices.antt =====
-- What the pauses of mode_time.rs cost, and what the polls take.
use rs_run.Base.{ℕ, ◌+◌, ◌-◌, ◌*◌, ◌/◌, ◌≤◌, ◌≡◌, subst, inl, inr, some, suc, arith}
use mathlib.Core.Option.{some-injective}
use rs_run.Host.{Context, Future, Timer, IsTimer, from_millis, micros_between, max_sleep}
use rs_run.Priority.{Priority, very_low, low, middle, high, very_high, fixed_interval_time_ms}
use rs_run.PendingFuture.Backoff.{rested_over}
use rs_run.PendingFuture.ModeTime.Cases.{IsAwake}
use rs_run.PendingFuture.ModeTime.{PendingFuture, Readings, inter}
use rs_run.PendingFuture.ModeTime.Share.{price, took, until}

-- A pause pays for what it takes from the debt.
pub pause_pays :
    (q : Priority) (period debt : ℕ)
    → fixed_interval_time_ms q ≡ some period
    → price q * debt
      ≤ price q * (debt - debt / inter * inter) + from_millis (period * (debt / inter) / 2 + 2)
unfolding fixed_interval_time_ms
pause_pays very_low period debt e =
    let n : 9 ≡ period = some-injective _ _ e in rw (← n) (omega arith)
pause_pays low period debt e = let n : 7 ≡ period = some-injective _ _ e in rw (← n) (omega arith)
pause_pays middle period debt e =
    let n : 5 ≡ period = some-injective _ _ e in rw (← n) (omega arith)
pause_pays high period debt e = let n : 3 ≡ period = some-injective _ _ e in rw (← n) (omega arith)
pause_pays very_high period debt e = absurd (ground arith)

pub pause_short :
    (q : Priority) (period debt : ℕ)
    → fixed_interval_time_ms q ≡ some period
    → debt ≤ inter + 3_600_000_000
    → from_millis (period * (debt / inter) / 2 + 2) ≤ max_sleep
unfolding fixed_interval_time_ms
pause_short very_low period debt e h =
    let n : 9 ≡ period = some-injective _ _ e in rw (← n) (omega arith)
pause_short low period debt e h =
    let n : 7 ≡ period = some-injective _ _ e in rw (← n) (omega arith)
pause_short middle period debt e h =
    let n : 5 ≡ period = some-injective _ _ e in rw (← n) (omega arith)
pause_short high period debt e h =
    let n : 3 ≡ period = some-injective _ _ e in rw (← n) (omega arith)
pause_short very_high period debt e h = absurd (ground arith)

pub price_sum : (q : Priority) (a b : ℕ) → price q * (a + b) ≡ price q * a + price q * b
price_sum very_low a b = omega arith
price_sum low a b = omega arith
price_sum middle a b = omega arith
price_sum high a b = omega arith
price_sum very_high a b = omega arith

pub price_rises : (q : Priority) (debt : ℕ) → debt ≤ inter → price q * debt ≤ price q * inter
price_rises very_low debt h = omega arith
price_rises low debt h = omega arith
price_rises middle debt h = omega arith
price_rises high debt h = omega arith
price_rises very_high debt h = omega arith

module _ (T : Timer) (timer : IsTimer T) {Output : Type 0} (F : Future Output)
    (polls : F.State → ℕ) where
  -- A poll that goes on behind the pause comes when all is paid but the debt.
  pub awake_paid :
      (k spent born latest debt : ℕ) (p : PendingFuture T F) (cx cx' : Context) (r : Readings)
      → k * spent + born ≤ until T F polls p.state latest + k * debt
      → latest ≤ r.resumed
      → IsAwake T F r p cx cx'
      → k * spent + born ≤ r.resumed + k * debt
  awake_paid k spent born latest debt p cx cx' r paid later (inl e) =
      let (s, was, over) = rested_over T timer r.resumed p.state cx cx' e in
      let at : k * spent + born ≤ T.deadline s + k * debt =
        subst (λ st. k * spent + born ≤ until T F polls st latest + k * debt) was paid in
      omega arith
  awake_paid k spent born latest debt p cx cx' r paid later (inr (was, _)) =
      let at : k * spent + born ≤ latest + k * debt =
        subst (λ st. k * spent + born ≤ until T F polls st latest + k * debt) was paid in
      omega arith

  pub took_none :
      (r : Readings) (p p' : PendingFuture T F)
      → polls p'.future ≡ polls p.future
      → took T F polls r p p' ≡ 0
  took_none r p p' e = ground arith

  pub took_elapsed :
      (r : Readings) (p p' : PendingFuture T F)
      → polls p'.future ≡ suc (polls p.future)
      → took T F polls r p p' ≡ micros_between r.begin r.returned
  took_elapsed r p p' e = ground arith
