-- ===== src/Host/Samples.antt =====
-- A host that keeps the laws: a timer whose sleeps are their deadlines, a future that counts down,
-- fractions cut off to numbers, a limiter that refuses its first calls, tokens that say if they are
-- cancelled, and builders of runtimes that know what threads they were asked for.
use rs_run.Base.{
  ℕ, zero, suc, ◌+◌, ◌/◌, ◌^◌, ◌<◌, ◌≡◌, refl, Outcome, done, panicked, ok, Bool, true, false,
  Option, none, some, leb, ltb, if◌then◌else◌, arith,
}
use rs_run.Host.{Poll, ready, pending, Context, Future, IsFuture, Timer, IsTimer, Float, IsFloat}
use rs_run.Host.Limiter.{Config, TryWait, granted, refused, Limiter, IsLimiter}
use rs_run.Host.Tasks.{Tokens, IsTokens}
use rs_run.Host.Tokio.{Crew, Tokio, IsTokio}

abbrev pub hold : Context → Context
hold cx = record cx { held = suc cx.held }

abbrev pub clock_poll : ℕ → ℕ → Context → Poll (Unit {0}) × ℕ × Context
clock_poll now s cx = if leb s now then (ready tt, s, cx) else (pending, s, hold cx)

abbrev pub clock : Timer
clock = record { Sleep = ℕ; sleep = λ now d. now + d; poll = clock_poll; deadline = λ s. s }

pub clock-IsTimer : IsTimer clock
clock-IsTimer = record {
  deadline-sleep = λ now d h. refl;
  deadline-poll = λ now s cx. ground arith;
  not_early = λ now s cx h. ground arith;
  on_time = λ now s cx h. ground arith;
  registers = λ now s cx h. ground arith;
  keeps = λ now s cx. ground arith;
}

-- The state is the number of polls still to come, and of those that were.
pub record Countdown : Type 0 where
  pub left : ℕ
  pub polls : ℕ

abbrev pub countdown_poll : ℕ → ℕ → Context → Poll ℕ × Countdown × Context
countdown_poll zero n cx = (ready 42, record { left = 0; polls = suc n }, cx)
countdown_poll (suc k) n cx = (pending, record { left = k; polls = suc n }, hold cx)

abbrev pub countdown : Future ℕ
countdown = record { State = Countdown; poll = λ now s cx. countdown_poll s.left s.polls cx }

pub countdown-IsFuture : IsFuture countdown
countdown-IsFuture = record { registers = λ now s cx h. ground arith }

pub countdown_counted :
    (now : ℕ) (s : Countdown) (cx : Context) → (countdown.poll now s cx).1.polls ≡ suc s.polls
countdown_counted now s cx = ground arith

pub countdown_falls :
    (now : ℕ) (s : Countdown) (cx : Context)
    → (countdown.poll now s cx).0 ≡ pending
    → (countdown.poll now s cx).1.left < s.left
countdown_falls now s cx h = ground arith

abbrev pub whole : Float
whole = record { F64 = ℕ; of_ℕ = λ n. n; zero = 0; add = λ a b. a + b; div = λ a b. a / b }

pub whole-IsFloat : IsFloat whole
whole-IsFloat = record { zero-add = λ x. omega arith; div_one = λ x. omega arith }

abbrev pub idle : Context
idle = record { held = 0; wakes = 0 }

-- The state is the number of refusals still to come, and of the answers that were.
pub record Gate : Type 0 where
  pub shut : ℕ
  pub taken : ℕ
  pub turned_away : ℕ

abbrev pub gate_try : ℕ → ℕ → ℕ → TryWait × Gate
gate_try zero t a = (granted, record { shut = 0; taken = suc t; turned_away = a })
gate_try (suc k) t a = (refused 3_000_000, record { shut = k; taken = t; turned_away = suc a })

abbrev pub gate_build : Config → Option Gate
gate_build c =
    if leb c.amount c.max_tokens
    then (if ltb c.interval (2 ^ 64)
        then some (record { shut = 1; taken = 0; turned_away = 0 })
        else none)
    else none

abbrev pub gate : Limiter
gate = record {
  Ratelimiter = Gate;
  build = λ now c. gate_build c;
  try_wait = λ now g. gate_try g.shut g.taken g.turned_away;
  taken = λ g. g.taken;
  turned_away = λ g. g.turned_away;
}

pub gate-IsLimiter : IsLimiter gate
gate-IsLimiter = record {
  builds = λ now c fits short.
      (record { shut = 1; taken = 0; turned_away = 0 }, ground arith, refl, refl);
  takes = λ now g e. ground arith;
  turns_away = λ now g wait e. ground arith;
}

abbrev pub flags : Tokens
flags = record { CancellationToken = Bool; new = false; cancel = λ t. true; is_cancelled = λ t. t }

pub flags-IsTokens : IsTokens flags
flags-IsTokens = record { is_cancelled-new = refl; is_cancelled-cancel = λ t. refl }

abbrev pub crew_size : ℕ → Crew → Outcome Crew
crew_size zero b = panicked
crew_size (suc n) b = done (record b { workers = suc n })

abbrev pub crew_limit : ℕ → Crew → Outcome Crew
crew_limit zero b = panicked
crew_limit (suc n) b = done (record b { blocking = suc n })

abbrev pub sixteen : Crew
sixteen = record {
  workers = 16;
  blocking = 512;
  keep_alive = 10_000_000_000;
  threads = "tokio-runtime-worker";
}

abbrev pub crews : Tokio
crews = record {
  RuntimeBuilder = Crew;
  Handle = Crew;
  IoError = Unit {0};
  new_multi_thread = sixteen;
  worker_threads = crew_size;
  max_blocking_threads = crew_limit;
  thread_keep_alive = λ d b. record b { keep_alive = d };
  enable_all = λ b. b;
  thread_name = λ n b. record b { threads = n };
  on_threads = λ hooks b. b;
  build = λ now b. ok b;
  asked = λ b. b;
  crew = λ h. h;
}

crew_size_some :
    (n : ℕ) (b : Crew)
    → 0 < n
    → (b' : Crew) × (crew_size n b ≡ done b') × (b' ≡ record b { workers = n })
crew_size_some zero b h = absurd (omega arith)
crew_size_some (suc n) b h = (record b { workers = suc n }, refl, refl)

crew_limit_some :
    (n : ℕ) (b : Crew)
    → 0 < n
    → (b' : Crew) × (crew_limit n b ≡ done b') × (b' ≡ record b { blocking = n })
crew_limit_some zero b h = absurd (omega arith)
crew_limit_some (suc n) b h = (record b { blocking = suc n }, refl, refl)

pub crews-IsTokio : IsTokio crews
crews-IsTokio = record {
  worker_threads_some = crew_size_some;
  worker_threads_zero = λ b. refl;
  max_blocking_threads_some = crew_limit_some;
  max_blocking_threads_zero = λ b. refl;
  asked-thread_keep_alive = λ d b. refl;
  asked-enable_all = λ b. refl;
  asked-thread_name = λ n b. refl;
  asked-on_threads = λ hooks b. refl;
  crew-build = λ now b h e. ground arith;
}

pub crews_built : (now : ℕ) (b : Crew) → (h : Crew) × (crews.build now b ≡ ok h)
crews_built now b = (b, refl)
