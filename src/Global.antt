-- ===== src/Global.antt =====
-- src/global.rs: the four runtimes of the process, set up once, by hand or at their first use.
pub mod Histories
pub mod Sizes
pub mod Zero
pub mod Requests
pub mod Spawns
pub mod Defaults
pub mod Threads
mod Examples
use Prim.Native.String.{String}
use rs_run.Base.{
  ℕ, ◌/◌, Bool, true, false, Option, none, some, Result, ok, err, Outcome, done, panicked, ◌>>=◌,
  ltb, if◌then◌else◌, List, [], ◌∷◌, ◌++◌,
}
use rs_run.Host.Tokio.{Tokio}
use rs_run.Error.{Error}
use rs_run.Runtime.{
  How, spawned, spawned_blocking, blocked_on, Handed, spawn, spawn_blocking, block_on, Runtime,
  Builder, default, runtime_name, thread_name, worker_threads, build,
}

pub record RuntimeOptions : Type 0 where
  pub read_rt_size : ℕ
  pub write_rt_size : ℕ
  pub bg_rt_size : ℕ

-- `RuntimeOptions::default` on a machine with `cpus` processors.
unfoldable pub default_options : ℕ → RuntimeOptions
default_options cpus = record {
  read_rt_size = cpus;
  write_rt_size = cpus;
  bg_rt_size = if ltb (cpus / 2) 1 then 1 else cpus / 2;
}

abbrev pub read_workers : ℕ
read_workers = 8

abbrev pub write_workers : ℕ
write_workers = 8

abbrev pub bg_workers : ℕ
bg_workers = 4

abbrev pub hb_workers : ℕ
hb_workers = 2

-- What the making of one runtime reads: RUNTIME_ID and the time.
pub record Making : Type 0 where
  pub id : ℕ
  pub now : ℕ

-- The four runtimes in the order of the code.
pub record Makings : Type 0 where
  pub read : Making
  pub write : Making
  pub bg : Making
  pub hb : Making

-- The state of a `Once`.
pub data Once : Type 0 where
  incomplete : Once
  complete : Once
  failed : Once

-- The pools that a future can be spawned in.
pub data Pool : Type 0 where
  read_pool : Pool
  write_pool : Pool
  bg_pool : Pool
  hb_pool : Pool

module _ (X : Tokio) where
  expect : {E : Type 0} → Result (Runtime X) E → Outcome (Runtime X)
  expect (ok r) = done r
  expect (err _) = panicked

  unfoldable pub create_runtime : Making → String → String → ℕ → Outcome (Runtime X)
  unfolding expect
  create_runtime m name thread workers = do
    b ← worker_threads X workers (thread_name X thread (runtime_name X name (default X m.id)))
    expect (build X m.now b)

  pub record GlobalRuntimes : Type 0 where
    pub read_runtime : Runtime X
    pub write_runtime : Runtime X
    pub bg_runtime : Runtime X
    pub hb_runtime : Runtime X

  pub record ConfigRuntimes : Type 0 where
    pub read_runtime : Option (Runtime X)
    pub write_runtime : Option (Runtime X)
    pub bg_runtime : Option (Runtime X)
    pub hb_runtime : Option (Runtime X)
    pub already_init : Bool

  -- `unwrap_or_else`.
  unfoldable pub or_create : Option (Runtime X) → Outcome (Runtime X) → Outcome (Runtime X)
  or_create (some r) other = done r
  or_create none other = other

  -- `GlobalRuntimes::new`, of what the configuration has.
  unfoldable pub new : Makings → ConfigRuntimes → Outcome GlobalRuntimes
  new m c = do
    read ← or_create c.read_runtime (create_runtime m.read "global-read" "read-worker" read_workers)
    write ←
        or_create c.write_runtime
          (create_runtime m.write "global-write" "write-worker" write_workers)
    bg ← or_create c.bg_runtime (create_runtime m.bg "global-bg" "bg-worker" bg_workers)
    hb ← or_create c.hb_runtime (create_runtime m.hb "global-hb" "hb-worker" hb_workers)
    done (record { read_runtime = read; write_runtime = write; bg_runtime = bg; hb_runtime = hb })

  -- The state of GLOBAL_RUNTIMES, a `Lazy`.
  pub data Cell : Type 0 where
    unset : Cell
    set : GlobalRuntimes → Cell
    spoilt : Cell

  -- START, CONFIG_RUNTIMES, if its lock is poisoned, and GLOBAL_RUNTIMES.
  pub record Globals : Type 0 where
    pub start : Once
    pub config : ConfigRuntimes
    pub poisoned : Bool
    pub cell : Cell

  abbrev pub taken : Bool → ConfigRuntimes
  taken init = record {
    read_runtime = none;
    write_runtime = none;
    bg_runtime = none;
    hb_runtime = none;
    already_init = init;
  }

  abbrev pub initial : Globals
  initial = record { start = incomplete; config = taken false; poisoned = false; cell = unset }

  -- The closure of `init_global_runtimes`.
  unfoldable pub configure : Makings → RuntimeOptions → Globals → Outcome ConfigRuntimes
  configure m options s =
      if s.poisoned then panicked else if s.config.already_init then panicked else do
        read ← create_runtime m.read "global-read" "global-read-worker" options.read_rt_size
        write ← create_runtime m.write "global-write" "global-write-worker" options.write_rt_size
        bg ← create_runtime m.bg "global-bg" "global-bg-worker" options.bg_rt_size
        hb ← create_runtime m.hb "global-hb" "global-hb-worker" hb_workers
        done (record s.config {
          read_runtime = some read;
          write_runtime = some write;
          bg_runtime = some bg;
          hb_runtime = some hb;
        })

  -- A panic in the closure poisons the lock, so that the fields which it had set are out of reach.
  unfoldable pub configured : Globals → Outcome ConfigRuntimes → Outcome (Unit {0}) × Globals
  configured s (done c) = (done tt, record s { start = complete; config = c })
  configured s panicked = (panicked, record s { start = failed; poisoned = true })

  unfoldable pub init_global_runtimes :
      Makings → RuntimeOptions → Globals → Outcome (Unit {0}) × Globals
  init_global_runtimes m options s = elim s.start [
    | incomplete ↦ configured s (configure m options s)
    | complete ↦ (done tt, s)
    | failed ↦ (panicked, s)
  ]

  -- The closure of GLOBAL_RUNTIMES.
  unfoldable pub set_up : Makings → Globals → Outcome GlobalRuntimes
  set_up m s = if s.poisoned then panicked else new m s.config

  unfoldable pub settled : Globals → Outcome GlobalRuntimes → Outcome GlobalRuntimes × Globals
  settled s (done g) = (done g, record s { config = taken true; cell = set g })
  settled s panicked = (
    panicked,
    record s {
      config = if s.poisoned then s.config else taken true;
      poisoned = true;
      cell = spoilt;
    },
  )

  -- The dereference of GLOBAL_RUNTIMES.
  unfoldable pub force : Makings → Globals → Outcome GlobalRuntimes × Globals
  force m s = elim s.cell [
    | unset ↦ settled s (set_up m s)
    | set g ↦ (done g, s)
    | spoilt ↦ (panicked, s)
  ]

  -- The runtime in which `spawn_read` and its like spawn.
  unfoldable pub runtime_of : Pool → GlobalRuntimes → Runtime X
  runtime_of read_pool g = g.read_runtime
  runtime_of write_pool g = g.write_runtime
  runtime_of bg_pool g = g.bg_runtime
  runtime_of hb_pool g = g.hb_runtime

  unfoldable pub got : Pool → Outcome GlobalRuntimes × Globals → Outcome (Runtime X) × Globals
  got pool (done g, s) = (done (runtime_of pool g), s)
  got pool (panicked, s) = (panicked, s)

  -- `read_runtime`, `write_runtime`, `bg_runtime` and `hb_runtime`, which return a clone.
  unfoldable pub get_runtime : Pool → Makings → Globals → Outcome (Runtime X) × Globals
  get_runtime pool m s = got pool (force m s)

  -- The process: the global runtimes, and the work that they were handed.
  pub record World : Type 0 where
    pub globals : Globals
    pub handed : List (Handed X)

  -- `spawn_read`, `spawn_blocking_read` and `block_on_read`, and those of the other pools.
  unfoldable pub hand : How → Pool → ℕ → GlobalRuntimes → Handed X
  unfolding runtime_of spawn spawn_blocking block_on
  hand spawned pool work g = spawn X (runtime_of pool g) work
  hand spawned_blocking pool work g = spawn_blocking X (runtime_of pool g) work
  hand blocked_on pool work g = block_on X (runtime_of pool g) work

  unfoldable pub handed_over :
      How → Pool → ℕ → World → Outcome GlobalRuntimes × Globals → Outcome (Unit {0}) × World
  handed_over how pool work w (done g, globals) =
      (done tt, record { globals = globals; handed = w.handed ++ hand how pool work g ∷ [] })
  handed_over how pool work w (panicked, globals) = (panicked, record w { globals = globals })

  unfoldable pub spawn_in : How → Pool → ℕ → Makings → World → Outcome (Unit {0}) × World
  spawn_in how pool work m w = handed_over how pool work w (force m w.globals)
