-- ===== src/Host/Tokio.antt =====
-- tokio::runtime, as far as the program builds runtimes, and the registry of prometheus.
use Prim.Native.String.{String}
use rs_run.Base.{ℕ, ◌<◌, ◌≡◌, Bool, Result, ok, Outcome, done, panicked}

-- Which gauge a thread of a runtime changes, for which name of threads, and if it raises it.
pub data Gauge : Type 0 where
  threads_alive : Gauge
  threads_idle : Gauge

pub record Change : Type 0 where
  pub gauge : Gauge
  pub label : String
  pub raises : Bool

-- The moments at which tokio calls the hooks of a thread.
pub data ThreadEvent : Type 0 where
  thread_start : ThreadEvent
  thread_stop : ThreadEvent
  thread_park : ThreadEvent
  thread_unpark : ThreadEvent

-- The threads of a runtime: the number of workers, the limit of the blocking threads, the time after
-- which an idle one of these ends, and the name.
pub record Crew : Type 0 where
  pub workers : ℕ
  pub blocking : ℕ
  pub keep_alive : ℕ
  pub threads : String

-- `build` is called at a time. `on_threads` is the four calls of `on_thread_start` and its like. `asked`
-- and `crew` say what a builder was asked for and what a runtime has.
pub record Tokio : Type 1 where
  pub RuntimeBuilder : Type 0
  pub Handle : Type 0
  pub IoError : Type 0
  pub new_multi_thread : RuntimeBuilder
  pub worker_threads : ℕ → RuntimeBuilder → Outcome RuntimeBuilder
  pub max_blocking_threads : ℕ → RuntimeBuilder → Outcome RuntimeBuilder
  pub thread_keep_alive : ℕ → RuntimeBuilder → RuntimeBuilder
  pub enable_all : RuntimeBuilder → RuntimeBuilder
  pub thread_name : String → RuntimeBuilder → RuntimeBuilder
  pub on_threads : (ThreadEvent → Change) → RuntimeBuilder → RuntimeBuilder
  pub build : ℕ → RuntimeBuilder → Result Handle IoError
  pub asked : RuntimeBuilder → Crew
  pub crew : Handle → Crew

-- The documented behaviour: a runtime has the threads that its builder was asked for last, each
-- setter asks for one thing, and zero workers or blocking threads are refused by a panic.
pub record IsTokio (X : Tokio) : Type 0 where
  pub worker_threads_some :
      (n : ℕ) (b : X.RuntimeBuilder)
      → 0 < n
      → (b' : X.RuntimeBuilder) × (X.worker_threads n b ≡ done b')
        × (X.asked b' ≡ record (X.asked b) { workers = n })
  pub worker_threads_zero : (b : X.RuntimeBuilder) → X.worker_threads 0 b ≡ panicked
  pub max_blocking_threads_some :
      (n : ℕ) (b : X.RuntimeBuilder)
      → 0 < n
      → (b' : X.RuntimeBuilder) × (X.max_blocking_threads n b ≡ done b')
        × (X.asked b' ≡ record (X.asked b) { blocking = n })
  pub max_blocking_threads_zero : (b : X.RuntimeBuilder) → X.max_blocking_threads 0 b ≡ panicked
  pub asked-thread_keep_alive :
      (d : ℕ) (b : X.RuntimeBuilder)
      → X.asked (X.thread_keep_alive d b) ≡ record (X.asked b) { keep_alive = d }
  pub asked-enable_all : (b : X.RuntimeBuilder) → X.asked (X.enable_all b) ≡ X.asked b
  pub asked-thread_name :
      (n : String) (b : X.RuntimeBuilder)
      → X.asked (X.thread_name n b) ≡ record (X.asked b) { threads = n }
  pub asked-on_threads :
      (hooks : ThreadEvent → Change) (b : X.RuntimeBuilder)
      → X.asked (X.on_threads hooks b) ≡ X.asked b
  pub crew-build :
      (now : ℕ) (b : X.RuntimeBuilder) (h : X.Handle) → X.build now b ≡ ok h → X.crew h ≡ X.asked b

-- prometheus::register of the collector of a runtime under a name; it has an answer.
pub record Prometheus (Handle : Type 0) : Type 1 where
  pub Registry : Type 0
  pub PromError : Type 0
  pub register : String → Handle → Registry → Result (Unit {0}) PromError × Registry
