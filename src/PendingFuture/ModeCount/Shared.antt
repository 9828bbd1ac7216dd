-- ===== src/PendingFuture/ModeCount/Shared.antt =====
-- Futures of several types and priorities that mode_count.rs wraps, polled in any order, one poll after
-- the other, over the one registry EACH_FUTURE_RECORD.
pub mod Timed
pub mod Told
mod Examples
use rs_run.Base.{ℕ, ◌+◌, ◌≡◌, List, [], ◌∷◌, ◌++◌, ◌==◌, if◌then◌else◌, done, u64}
use rs_run.Host.{Poll, ready, pending, Context, Future, Timer, Float, micros_between}
use rs_run.PendingFuture.RuntimeHandle.{CommonRuntimeHandle}
use rs_run.PendingFuture.ModeCount.Records.{OneFutureRecord, Registry}
use rs_run.PendingFuture.ModeCount.{PendingFuture, Readings, Polled, new, poll}

module _ (T : Timer) (f : Float) {Output : Type 0} (F : Future Output) (polls : F.State → ℕ) where
  -- A future with the type that it is counted under, its result so far and its context, and the sum of
  -- the whole microseconds that its polls took, which the wrapper has no part in.
  pub record Member : Type 0 where
    pub type_id : ℕ
    pub result : Poll Output
    pub this : PendingFuture T F
    pub cx : Context
    pub spent : ℕ

  abbrev pub spawned : ℕ → CommonRuntimeHandle → F.State → Context → Member
  spawned type_id handle future cx = record {
    type_id = type_id;
    result = pending;
    this = new T f F handle future;
    cx = cx;
    spent = 0;
  }

  -- The whole microseconds from the start of a poll to the end of the inner one, if there was one.
  abbrev pub took : Readings → PendingFuture T F → PendingFuture T F → ℕ
  took r p p' = if polls p'.future == polls p.future then 0 else micros_between r.entered r.returned

  abbrev pub member_of : Member → Readings → Polled T f F → Member
  member_of m r v = record {
    type_id = m.type_id;
    result = v.result;
    this = v.this;
    cx = v.cx;
    spent = m.spent + took r m.this v.this;
  }

  -- The registry and the futures that there can be. Those that finished stay in the list; others can be
  -- dropped.
  pub data Reached : Registry f → List Member → Type 0 where
    at_first : Reached [] []
    spawns :
        (registry : Registry f) (ms : List Member) (type_id : ℕ) (handle : CommonRuntimeHandle)
        (s : F.State) (cx : Context)
        → Reached registry ms
        → Reached registry (spawned type_id handle s cx ∷ ms)
    polled :
        (registry : Registry f) (before after : List Member) (m : Member) (r : Readings)
        (v : Polled T f F)
        → Reached registry (before ++ m ∷ after)
        → m.result ≡ pending
        → poll T f F m.type_id r m.this m.cx registry ≡ done v
        → Reached v.registry (before ++ member_of m r v ∷ after)
    dropped :
        (registry : Registry f) (before after : List Member) (m : Member)
        → Reached registry (before ++ m ∷ after)
        → m.result ≡ pending
        → Reached registry (before ++ after)

  -- How many futures of a type have finished, and the times of the polls of each, as a u64, together.
  abbrev pub one_finished : ℕ → Poll Output → ℕ → ℕ
  one_finished id (ready _) t = if id == t then 1 else 0
  one_finished id pending t = 0

  abbrev pub finished : ℕ → List Member → ℕ
  finished t [] = 0
  finished t (m ∷ ms) = one_finished m.type_id m.result t + finished t ms

  abbrev pub one_spent : ℕ → Poll Output → ℕ → ℕ → ℕ
  one_spent id (ready _) time t = if id == t then time else 0
  one_spent id pending time t = 0

  abbrev pub spent_by : ℕ → List Member → ℕ
  spent_by t [] = 0
  spent_by t (m ∷ ms) = one_spent m.type_id m.result (u64 m.spent) t + spent_by t ms

  -- The processor times of some runs, all together.
  abbrev pub cpu_sum : List OneFutureRecord → ℕ
  cpu_sum [] = 0
  cpu_sum (v ∷ vs) = v.cpu_micro + cpu_sum vs
