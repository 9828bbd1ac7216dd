-- ===== src/Host/Limiter.antt =====
-- The crate ratelimit, as far as the program uses it: a token bucket that is filled from time to time.
use rs_run.Base.{ℕ, suc, ◌+◌, ◌*◌, ◌-◌, ◌≤◌, ◌<◌, ◌^◌, ◌≡◌, Option, some, max}

-- What is set on `Ratelimiter::builder`; the interval is in nanoseconds.
pub record Config : Type 0 where
  pub amount : ℕ
  pub interval : ℕ
  pub max_tokens : ℕ

-- The result of `try_wait`: a token, or a hint for how long to wait.
pub data TryWait : Type 0 where
  granted : TryWait
  refused : ℕ → TryWait

-- `build` and `try_wait` are called at a time. `taken` and `turned_away` say how often a limiter has
-- given a token away and how often it had none.
pub record Limiter : Type 1 where
  pub Ratelimiter : Type 0
  pub build : ℕ → Config → Option Ratelimiter
  pub try_wait : ℕ → Ratelimiter → TryWait × Ratelimiter
  pub taken : Ratelimiter → ℕ
  pub turned_away : Ratelimiter → ℕ

-- The documented behaviour: `build` refuses a bucket smaller than what is filled in at once and an
-- interval whose nanoseconds exceed u64, and nothing else that the program can set; a new limiter has
-- served nobody; a call of `try_wait` takes one token or none.
pub record IsLimiter (L : Limiter) : Type 0 where
  pub builds :
      (now : ℕ) (c : Config)
      → c.amount ≤ c.max_tokens
      → c.interval < 2 ^ 64
      → (l : L.Ratelimiter) × (L.build now c ≡ some l) × (L.taken l ≡ 0) × (L.turned_away l ≡ 0)
  pub takes :
      (now : ℕ) (l : L.Ratelimiter)
      → (L.try_wait now l).0 ≡ granted
      → (L.taken (L.try_wait now l).1 ≡ suc (L.taken l))
        × (L.turned_away (L.try_wait now l).1 ≡ L.turned_away l)
  pub turns_away :
      (now : ℕ) (l : L.Ratelimiter) (wait : ℕ)
      → (L.try_wait now l).0 ≡ refused wait
      → (L.taken (L.try_wait now l).1 ≡ L.taken l)
        × (L.turned_away (L.try_wait now l).1 ≡ suc (L.turned_away l))

-- A limiter that was built at a time, with the latest time at which it was asked.
pub data Served (L : Limiter) (c : Config) (born : ℕ) : L.Ratelimiter → ℕ → Type 0 where
  built : (l : L.Ratelimiter) → L.build born c ≡ some l → Served L c born l born
  asked :
      (l : L.Ratelimiter) (latest now : ℕ)
      → Served L c born l latest
      → Served L c born (L.try_wait now l).1 (max latest now)

-- The documented rate: there are no tokens at first, and `amount` of them are filled in each time that
-- `interval` has gone by.
pub record IsPaced (L : Limiter) : Type 0 where
  pub paced :
      (c : Config) (born : ℕ) (l : L.Ratelimiter) (latest : ℕ)
      → Served L c born l latest
      → L.taken l * c.interval ≤ c.amount * (latest - born)

-- The documented hint: a refusal says how long it is until tokens are filled in next, which is no more
-- than an interval; from then on there is one, if nobody else has asked.
pub record IsHinted (L : Limiter) : Type 0 where
  pub hinted :
      (c : Config) (born : ℕ) (l : L.Ratelimiter) (latest now wait : ℕ)
      → 0 < c.amount
      → Served L c born l latest
      → latest ≤ now
      → (L.try_wait now l).0 ≡ refused wait
      → (wait ≤ c.interval)
        × ((now' : ℕ) → now + wait ≤ now' → (L.try_wait now' (L.try_wait now l).1).0 ≡ granted)
