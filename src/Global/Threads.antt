-- ===== src/Global/Threads.antt =====
-- The globals of src/global.rs as several threads call them at once.
--
-- START and GLOBAL_RUNTIMES each let one thread in and keep the others out until it has left. The two
-- that are in contend for the lock of CONFIG_RUNTIMES. A step is what a thread does between two points
-- at which another one can come in.
pub mod Sim
pub mod Start
pub mod Use
pub mod Calls
pub mod Linear
pub mod Got
pub mod Out
mod Examples
use rs_run.Base.{
  ℕ, Bool, true, false, Option, some, Outcome, done, panicked, ◌>>=◌, if◌then◌else◌, List, [], ◌∷◌,
  ◌++◌,
}
use rs_run.Host.Tokio.{Tokio}
use rs_run.Runtime.{Runtime}
use rs_run.Global.{
  RuntimeOptions, hb_workers, Makings, Once, incomplete, complete, failed, create_runtime,
  GlobalRuntimes, ConfigRuntimes, new, Cell, unset, set, spoilt, Globals, taken, initial,
  init_global_runtimes, force,
}
use rs_run.Global.Histories.{Call, init_call, use_call, after}

-- Where the thread is that runs the closure of `init_global_runtimes`: before the lock, or behind it
-- with so many of the four runtimes written, or at the end of the closure.
pub data InitStage : Type 0 where
  init_enters : InitStage
  init_locked : InitStage
  wrote_read : InitStage
  wrote_write : InitStage
  wrote_bg : InitStage
  init_leaves : Outcome (Unit {0}) → InitStage

-- How a call has ended.
pub data Event (X : Tokio) : Type 0 where
  init_event : Makings → RuntimeOptions → Outcome (Unit {0}) → Event X
  use_event : Makings → Outcome (GlobalRuntimes X) → Event X

module _ (X : Tokio) where
  -- The same for the closure of GLOBAL_RUNTIMES, with what it took from the configuration.
  pub data UseStage : Type 0 where
    use_enters : UseStage
    use_locked : UseStage
    took : ConfigRuntimes X → UseStage
    use_leaves : Outcome (GlobalRuntimes X) → UseStage

  pub data InStart : Type 0 where
    nobody : InStart
    inits : Makings → RuntimeOptions → InitStage → InStart

  pub data InLazy : Type 0 where
    no_one : InLazy
    uses : Makings → UseStage → InLazy

  -- The statics, who is in them, whether the lock is held, and the calls that have returned, the last
  -- one first.
  pub record Process : Type 0 where
    pub globals : Globals X
    pub in_start : InStart
    pub in_lazy : InLazy
    pub locked : Bool
    pub returned : List (Event X)

  -- What a thread does next. A call that has to wait is made again.
  pub data Move : Type 0 where
    calls : Call → Move
    init_goes : Move
    use_goes : Move

  -- `START.call_once`: run the closure, wait for the one who does, or go on.
  unfoldable pub enter_start : Makings → RuntimeOptions → Process → Process
  enter_start m o p = elim p.globals.start [
    | incomplete ↦ elim p.in_start [
      | nobody ↦ record p { in_start = inits m o init_enters }
      | inits m' o' stage ↦ p
    ]
    | complete ↦ record p { returned = init_event m o (done tt) ∷ p.returned }
    | failed ↦ record p { returned = init_event m o panicked ∷ p.returned }
  ]

  -- The same for a dereference of GLOBAL_RUNTIMES.
  unfoldable pub enter_lazy : Makings → Process → Process
  enter_lazy m p = elim p.globals.cell [
    | unset ↦ elim p.in_lazy [
      | no_one ↦ record p { in_lazy = uses m use_enters }
      | uses m' stage ↦ p
    ]
    | set g ↦ record p { returned = use_event m (done g) ∷ p.returned }
    | spoilt ↦ record p { returned = use_event m panicked ∷ p.returned }
  ]

  unfoldable pub call : Call → Process → Process
  unfolding enter_start enter_lazy
  call (init_call m o) p = enter_start m o p
  call (use_call m) p = enter_lazy m p

  -- A write to a field of the configuration behind the lock, of a runtime that is made first. A panic
  -- poisons the lock and frees it.
  unfoldable pub writes :
      Makings
      → RuntimeOptions
      → InitStage
      → (Runtime X → ConfigRuntimes X)
      → Outcome (Runtime X)
      → Process
      → Process
  writes m o next write (done r) p = record p {
    globals = record p.globals { config = write r };
    in_start = inits m o next;
  }
  writes m o next write panicked p = record p {
    globals = record p.globals { poisoned = true };
    in_start = inits m o (init_leaves panicked);
    locked = false;
  }

  unfoldable pub init_step : Makings → RuntimeOptions → InitStage → Process → Process
  init_step m o init_enters p =
      if p.locked then p else record p { in_start = inits m o init_locked; locked = true }
  init_step m o init_locked p =
      let made =
        if p.globals.poisoned
        then panicked
        else if p.globals.config.already_init
        then panicked
        else create_runtime X m.read "global-read" "global-read-worker" o.read_rt_size in
      writes m o wrote_read (λ r. record p.globals.config { read_runtime = some r }) made p
  init_step m o wrote_read p =
      writes m o wrote_write (λ r. record p.globals.config { write_runtime = some r })
        (create_runtime X m.write "global-write" "global-write-worker" o.write_rt_size) p
  init_step m o wrote_write p =
      writes m o wrote_bg (λ r. record p.globals.config { bg_runtime = some r })
        (create_runtime X m.bg "global-bg" "global-bg-worker" o.bg_rt_size) p
  init_step m o wrote_bg p =
      let written =
        writes m o (init_leaves (done tt)) (λ r. record p.globals.config { hb_runtime = some r })
          (create_runtime X m.hb "global-hb" "global-hb-worker" hb_workers) p in
      record written { locked = false }
  init_step m o (init_leaves (done u)) p = record p {
    globals = record p.globals { start = complete };
    in_start = nobody;
    returned = init_event m o (done u) ∷ p.returned;
  }
  init_step m o (init_leaves panicked) p = record p {
    globals = record p.globals { start = failed };
    in_start = nobody;
    returned = init_event m o panicked ∷ p.returned;
  }

  unfoldable pub makes : Makings → Outcome (GlobalRuntimes X) → Process → Process
  makes m (done g) p = record p { in_lazy = uses m (use_leaves (done g)); locked = false }
  makes m panicked p = record p {
    globals = record p.globals { poisoned = true };
    in_lazy = uses m (use_leaves panicked);
    locked = false;
  }

  unfoldable pub use_step : Makings → UseStage → Process → Process
  use_step m use_enters p =
      if p.locked then p else record p { in_lazy = uses m use_locked; locked = true }
  use_step m use_locked p = if p.globals.poisoned then makes m panicked p else record p {
    globals = record p.globals { config = taken X true };
    in_lazy = uses m (took p.globals.config);
  }
  use_step m (took c) p = makes m (new X m c) p
  use_step m (use_leaves (done g)) p = record p {
    globals = record p.globals { cell = set g };
    in_lazy = no_one;
    returned = use_event m (done g) ∷ p.returned;
  }
  use_step m (use_leaves panicked) p = record p {
    globals = record p.globals { cell = spoilt };
    in_lazy = no_one;
    returned = use_event m panicked ∷ p.returned;
  }

  unfoldable pub step : Move → Process → Process
  step (calls c) p = call c p
  step init_goes p = elim p.in_start [ nobody ↦ p | inits m o stage ↦ init_step m o stage p ]
  step use_goes p = elim p.in_lazy [ no_one ↦ p | uses m stage ↦ use_step m stage p ]

  unfoldable pub run : List Move → Process → Process
  run [] p = p
  run (mv ∷ mvs) p = run mvs (step mv p)

  abbrev pub at_start : Process
  at_start = record {
    globals = initial X;
    in_start = nobody;
    in_lazy = no_one;
    locked = false;
    returned = [];
  }

  -- One call after the other.
  unfoldable pub event : Call → Globals X → Event X
  event (init_call m o) s = init_event m o (init_global_runtimes X m o s).0
  event (use_call m) s = use_event m (force X m s).0

  unfoldable pub events : List Call → Globals X → List (Event X)
  unfolding after
  events [] s = []
  events (c ∷ cs) s = event c s ∷ events cs (after X c s)
