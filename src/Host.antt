-- ===== src/Host.antt =====
-- What the program takes from its surroundings: the futures that it is given and polls
-- (std::future), tokio's timer (tokio::time::sleep) and floating-point numbers. Each is a record of
-- operations, with its documented behaviour as a record of laws. Times are nanoseconds.
pub mod Limiter
pub mod Tasks
pub mod Tokio
pub mod Samples
pub mod Bucket
use rs_run.Base.{ℕ, suc, ◌+◌, ◌*◌, ◌/◌, ◌-◌, ◌≤◌, ◌<◌, ◌≡◌}

-- std::task::Poll.
pub data Poll {ℓ} (A : Type ℓ) : Type ℓ where
  ready : A → Poll A
  pending : Poll A

-- std::task::Context, as far as the waker goes: how many parties hold a clone of it in order to wake
-- the task later, and how often it was woken.
pub record Context : Type 0 where
  pub held : ℕ
  pub wakes : ℕ

abbrev pub wake : Context → Context
wake cx = record cx { wakes = suc cx.wakes }

-- From `cx` to `cx'` somebody took the waker or used it: the task will be polled again.
abbrev pub IsArmed : Context → Context → Type 0
IsArmed cx cx' = cx.held + cx.wakes < cx'.held + cx'.wakes

-- A future, polled at a time; the poll returns its result, the future and the context.
pub record Future (Output : Type 0) : Type 1 where
  pub State : Type 0
  pub poll : ℕ → State → Context → Poll Output × State × Context

-- The contract of `Future::poll`.
pub record IsFuture {Output : Type 0} (F : Future Output) : Type 0 where
  pub registers :
      (now : ℕ) (s : F.State) (cx : Context)
      → (F.poll now s cx).0 ≡ pending
      → IsArmed cx (F.poll now s cx).2

-- tokio::time: `sleep` is called at a time with a duration.
pub record Timer : Type 1 where
  pub Sleep : Type 0
  pub sleep : ℕ → ℕ → Sleep
  pub poll : ℕ → Sleep → Context → Poll (Unit {0}) × Sleep × Context
  pub deadline : Sleep → ℕ

abbrev pub from_millis : ℕ → ℕ
from_millis n = n * 1_000_000

-- `(later - earlier).as_micros()`.
abbrev pub micros_between : ℕ → ℕ → ℕ
micros_between earlier later = (later - earlier) / 1000

-- The longest sleep that tokio::time::sleep documents, about 2.2 years.
abbrev pub max_sleep : ℕ
max_sleep = from_millis 68_719_476_734

-- The documented behaviour of Sleep: never ready before its deadline, ready from a millisecond after
-- it, and a poll that is pending keeps the waker.
pub record IsTimer (T : Timer) : Type 0 where
  pub deadline-sleep : (now d : ℕ) → d ≤ max_sleep → T.deadline (T.sleep now d) ≡ now + d
  pub deadline-poll :
      (now : ℕ) (s : T.Sleep) (cx : Context) → T.deadline (T.poll now s cx).1 ≡ T.deadline s
  pub not_early :
      (now : ℕ) (s : T.Sleep) (cx : Context) → now < T.deadline s → (T.poll now s cx).0 ≡ pending
  pub on_time :
      (now : ℕ) (s : T.Sleep) (cx : Context)
      → T.deadline s + from_millis 1 ≤ now
      → (T.poll now s cx).0 ≡ ready tt
  pub registers :
      (now : ℕ) (s : T.Sleep) (cx : Context)
      → (T.poll now s cx).0 ≡ pending
      → IsArmed cx (T.poll now s cx).2
  pub keeps :
      (now : ℕ) (s : T.Sleep) (cx : Context)
      → cx.held + cx.wakes ≤ (T.poll now s cx).2.held + (T.poll now s cx).2.wakes

-- f64, as far as the program uses it.
pub record Float : Type 1 where
  pub F64 : Type 0
  pub of_ℕ : ℕ → F64
  pub zero : F64
  pub add : F64 → F64 → F64
  pub div : F64 → F64 → F64

-- `sum` starts from a zero that adds nothing, and division by one changes nothing.
pub record IsFloat (f : Float) : Type 0 where
  pub zero-add : (x : f.F64) → f.add f.zero x ≡ x
  pub div_one : (x : f.F64) → f.div x (f.of_ℕ 1) ≡ x
