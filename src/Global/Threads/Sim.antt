-- ===== src/Global/Threads/Sim.antt =====
-- How the threads that use src/global.rs at once agree with calls that follow each other.
use mathlib.Core.List.{Perm}
use rs_run.Base.{
  ◌≡◌, ◌⊎◌, Bool, true, false, some, Outcome, done, panicked, ◌>>=◌, List, [], ◌∷◌, ◌++◌,
}
use rs_run.Host.Tokio.{Tokio}
use rs_run.Global.{
  RuntimeOptions, hb_workers, Makings, Once, incomplete, complete, failed, create_runtime,
  ConfigRuntimes, Cell, unset, set, spoilt, Globals, taken, configure,
}
use rs_run.Global.Histories.{Call, after}
use rs_run.Global.Threads.{
  init_enters, init_locked, wrote_read, wrote_write, wrote_bg, init_leaves, Event, init_event,
  use_event, use_enters, use_locked, took, use_leaves, InStart, nobody, inits, InLazy, no_one, uses,
  Process, event,
}

module _ (X : Tokio) where
  -- The calls whose effect is there, though they have not returned yet.
  unfoldable pub start_event : InStart X → List (Event X)
  start_event nobody = []
  start_event (inits m o init_enters) = []
  start_event (inits m o init_locked) = []
  start_event (inits m o wrote_read) = []
  start_event (inits m o wrote_write) = []
  start_event (inits m o wrote_bg) = []
  start_event (inits m o (init_leaves r)) = init_event m o r ∷ []

  unfoldable pub lazy_event : InLazy X → List (Event X)
  lazy_event no_one = []
  lazy_event (uses m use_enters) = []
  lazy_event (uses m use_locked) = []
  lazy_event (uses m (took c)) = []
  lazy_event (uses m (use_leaves r)) = use_event m r ∷ []

  abbrev pub all_events : Process X → List (Event X)
  all_events p = start_event p.in_start ++ (lazy_event p.in_lazy ++ p.returned)

  -- START as it is and as the calls one after the other have it.
  abbrev pub StartSim : InStart X → Once → Once → Type 0
  StartSim nobody s t = t ≡ s
  StartSim (inits m o init_enters) s t = (s ≡ incomplete) × (t ≡ incomplete)
  StartSim (inits m o init_locked) s t = (s ≡ incomplete) × (t ≡ incomplete)
  StartSim (inits m o wrote_read) s t = (s ≡ incomplete) × (t ≡ incomplete)
  StartSim (inits m o wrote_write) s t = (s ≡ incomplete) × (t ≡ incomplete)
  StartSim (inits m o wrote_bg) s t = (s ≡ incomplete) × (t ≡ incomplete)
  StartSim (inits m o (init_leaves (done u))) s t = (s ≡ incomplete) × (t ≡ complete)
  StartSim (inits m o (init_leaves panicked)) s t = (s ≡ incomplete) × (t ≡ failed)

  abbrev pub CellSim : InLazy X → Cell X → Cell X → Type 0
  CellSim no_one s t = t ≡ s
  CellSim (uses m use_enters) s t = (s ≡ unset) × (t ≡ unset)
  CellSim (uses m use_locked) s t = (s ≡ unset) × (t ≡ unset)
  CellSim (uses m (took c)) s t = (s ≡ unset) × (t ≡ unset)
  CellSim (uses m (use_leaves (done g))) s t = (s ≡ unset) × (t ≡ set g)
  CellSim (uses m (use_leaves panicked)) s t = (s ≡ unset) × (t ≡ spoilt)

  -- What the closure of `init_global_runtimes` has still to do.
  abbrev pub rest_bg : Makings → RuntimeOptions → ConfigRuntimes X → Outcome (ConfigRuntimes X)
  rest_bg m o c = do
    hb ← create_runtime X m.hb "global-hb" "global-hb-worker" hb_workers
    done (record c { hb_runtime = some hb })

  abbrev pub rest_write : Makings → RuntimeOptions → ConfigRuntimes X → Outcome (ConfigRuntimes X)
  rest_write m o c = do
    bg ← create_runtime X m.bg "global-bg" "global-bg-worker" o.bg_rt_size
    rest_bg m o (record c { bg_runtime = some bg })

  abbrev pub rest_read : Makings → RuntimeOptions → ConfigRuntimes X → Outcome (ConfigRuntimes X)
  rest_read m o c = do
    write ← create_runtime X m.write "global-write" "global-write-worker" o.write_rt_size
    rest_write m o (record c { write_runtime = some write })

  abbrev pub rest : Makings → RuntimeOptions → ConfigRuntimes X → Outcome (ConfigRuntimes X)
  rest m o c = do
    read ← create_runtime X m.read "global-read" "global-read-worker" o.read_rt_size
    rest_read m o (record c { read_runtime = some read })

  -- The fields behind a poisoned lock are out of reach.
  abbrev pub Same : Globals X → Globals X → Type 0
  Same g a = (a.poisoned ≡ g.poisoned) × ((g.poisoned ≡ true) ⊎ (a.config ≡ g.config))

  abbrev pub Clean : Globals X → Globals X → Type 0
  Clean g a = (a.poisoned ≡ false) × (g.poisoned ≡ false)

  -- No thread with the lock is in START, or the rest of its work comes to what the whole comes to.
  abbrev pub StartHolds : InStart X → Globals X → Globals X → Type 0
  StartHolds nobody g a = ⊥
  StartHolds (inits m o init_enters) g a = ⊥
  StartHolds (inits m o init_locked) g a = Same g a
  StartHolds (inits m o wrote_read) g a = Clean g a × (configure X m o a ≡ rest_read m o g.config)
  StartHolds (inits m o wrote_write) g a = Clean g a × (configure X m o a ≡ rest_write m o g.config)
  StartHolds (inits m o wrote_bg) g a = Clean g a × (configure X m o a ≡ rest_bg m o g.config)
  StartHolds (inits m o (init_leaves r)) g a = ⊥

  abbrev pub LazyHolds : InLazy X → Globals X → Globals X → Type 0
  LazyHolds no_one g a = ⊥
  LazyHolds (uses m use_enters) g a = ⊥
  LazyHolds (uses m use_locked) g a = Same g a
  LazyHolds (uses m (took c)) g a = Clean g a × (a.config ≡ c) × (g.config ≡ taken X true)
  LazyHolds (uses m (use_leaves r)) g a = ⊥

  abbrev pub StartFree : InStart X → Type 0
  StartFree nobody = Unit {0}
  StartFree (inits m o init_enters) = Unit {0}
  StartFree (inits m o init_locked) = ⊥
  StartFree (inits m o wrote_read) = ⊥
  StartFree (inits m o wrote_write) = ⊥
  StartFree (inits m o wrote_bg) = ⊥
  StartFree (inits m o (init_leaves r)) = Unit {0}

  abbrev pub LazyFree : InLazy X → Type 0
  LazyFree no_one = Unit {0}
  LazyFree (uses m use_enters) = Unit {0}
  LazyFree (uses m use_locked) = ⊥
  LazyFree (uses m (took c)) = ⊥
  LazyFree (uses m (use_leaves r)) = Unit {0}

  -- Who has the lock.
  pub data LockSim (i : InStart X) (u : InLazy X) (l : Bool) (g a : Globals X) : Type 0 where
    free : StartFree i → LazyFree u → l ≡ false → Same g a → LockSim i u l g a
    by_start : StartHolds i g a → LazyFree u → l ≡ true → LockSim i u l g a
    by_lazy : StartFree i → LazyHolds u g a → l ≡ true → LockSim i u l g a

  abbrev pub Sim : Process X → Globals X → Type 0
  Sim p a =
      StartSim p.in_start p.globals.start a.start
      × CellSim p.in_lazy p.globals.cell a.cell
      × LockSim p.in_start p.in_lazy p.locked p.globals a

  -- A step has no effect yet, or that of a whole call.
  abbrev pub Moved : Process X → Globals X → Process X → Type 0
  Moved p a p' =
      (Sim p' a × Perm (all_events p') (all_events p))
      ⊎ ((c : Call) × Sim p' (after X c a) × Perm (all_events p') (event X c a ∷ all_events p))
