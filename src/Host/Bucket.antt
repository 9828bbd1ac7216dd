-- ===== src/Host/Bucket.antt =====
-- A limiter that counts what is filled in since it was built, and keeps the laws.
use rs_run.Base.{
  ℕ, zero, suc, ◌+◌, ◌*◌, ◌-◌, ◌^◌, ◌≤◌, ◌<◌, ◌≡◌, refl, Option, none, some, leb, ltb, max,
  if◌then◌else◌, arith,
}
use native.Mathlib.Nat.{mul-le-mul_left}
use rs_run.Host.Limiter.{
  Config, TryWait, granted, refused, Limiter, IsLimiter, Served, built, asked, IsPaced, IsHinted,
}

pub record Bucket : Type 0 where
  pub born : ℕ
  pub amount : ℕ
  pub interval : ℕ
  pub taken : ℕ
  pub turned_away : ℕ

abbrev pub bucket_try : ℕ → Bucket → TryWait × Bucket
bucket_try now b =
    if leb ((b.taken + 1) * b.interval) (b.amount * (now - b.born))
    then (granted, record b { taken = suc b.taken })
    else (refused b.interval, record b { turned_away = suc b.turned_away })

abbrev pub bucket_of : ℕ → Config → Bucket
bucket_of now c = record {
  born = now;
  amount = c.amount;
  interval = c.interval;
  taken = 0;
  turned_away = 0;
}

abbrev pub bucket_build : ℕ → Config → Option Bucket
bucket_build now c =
    if leb c.amount c.max_tokens
    then (if ltb c.interval (2 ^ 64) then some (bucket_of now c) else none)
    else none

abbrev pub bucket : Limiter
bucket = record {
  Ratelimiter = Bucket;
  build = bucket_build;
  try_wait = bucket_try;
  taken = λ b. b.taken;
  turned_away = λ b. b.turned_away;
}

pub bucket-IsLimiter : IsLimiter bucket
bucket-IsLimiter = record {
  builds = λ now c fits short. (bucket_of now c, ground arith, refl, refl);
  takes = λ now g e. ground arith;
  turns_away = λ now g wait e. ground arith;
}

-- What stays of the configuration, and how much was taken at most.
abbrev Fills : Config → ℕ → Bucket → ℕ → Type 0
Fills c born b latest =
    (b.born ≡ born)
    × (b.amount ≡ c.amount)
    × (b.interval ≡ c.interval)
    × (b.taken * b.interval ≤ b.amount * (latest - b.born))

try_fills :
    (b : Bucket) (before now : ℕ)
    → b.taken * b.interval ≤ b.amount * (before - b.born)
    → b.amount * (now - b.born) ≤ b.amount * (max before now - b.born)
    → b.amount * (before - b.born) ≤ b.amount * (max before now - b.born)
    → let b' = (bucket_try now b).1 in
      b'.taken * b'.interval ≤ b'.amount * (max before now - b'.born)
try_fills b before now past as_late later = ground arith

served-Fills :
    (c : Config) (born : ℕ) (b : Bucket) (latest : ℕ)
    → Served bucket c born b latest
    → Fills c born b latest
served-Fills c born b latest (built l e) = ground arith
served-Fills c born b latest (asked l before now s) =
    let past = served-Fills c born l before s in
    let as_late : l.amount * (now - l.born) ≤ l.amount * (max before now - l.born) =
      mul-le-mul_left l.amount (ground arith) in
    let later : l.amount * (before - l.born) ≤ l.amount * (max before now - l.born) =
      mul-le-mul_left l.amount (ground arith) in
    (ground arith, ground arith, ground arith, try_fills l before now past.3 as_late later)

pub bucket-IsPaced : IsPaced bucket
bucket-IsPaced = record {
  paced = λ c born l latest s.
      let fills = served-Fills c born l latest s in rw (← fills.0, ← fills.1, ← fills.2) fills.3;
}

served_after :
    (c : Config) (born : ℕ) (b : Bucket) (latest : ℕ)
    → Served bucket c born b latest
    → born ≤ latest
served_after c born b latest (built l e) = omega arith
served_after c born b latest (asked l before now s) =
    let h = served_after c born l before s in ground arith

filled_again :
    (taken amount interval past later : ℕ)
    → 0 < amount
    → taken * interval ≤ amount * past
    → past + interval ≤ later
    → (taken + 1) * interval ≤ amount * later
filled_again taken zero interval past later some_tokens enough after = absurd (omega arith)
filled_again taken (suc a) interval past later some_tokens enough after =
    let more = mul-le-mul_left (suc a) after in omega arith

bucket_refused :
    (b : Bucket) (now wait : ℕ)
    → (bucket_try now b).0 ≡ refused wait
    → (wait ≡ b.interval) × ((bucket_try now b).1 ≡ record b { turned_away = suc b.turned_away })
bucket_refused b now wait e = ground arith

bucket_granted :
    (b : Bucket) (now : ℕ)
    → (b.taken + 1) * b.interval ≤ b.amount * (now - b.born)
    → (bucket_try now b).0 ≡ granted
bucket_granted b now enough = ground arith

pub bucket-IsHinted : IsHinted bucket
bucket-IsHinted = record {
  hinted = λ c born l latest now wait some_tokens s later e.
      let fills = served-Fills c born l latest s in
      let after = served_after c born l latest s in
      let (hint, kept) = bucket_refused l now wait e in
      let as_late : l.amount * (latest - l.born) ≤ l.amount * (now - l.born) =
        mul-le-mul_left l.amount (omega arith) in
      (
        omega (arith, fills.2),
        λ now' there. rw kept (
            bucket_granted (record l { turned_away = suc l.turned_away }) now'
              (filled_again l.taken l.amount l.interval (now - l.born) (now' - l.born)
                (omega (arith, fills.1)) (omega (arith, fills.3)) (omega (arith, fills.0, hint)))),
      );
}
