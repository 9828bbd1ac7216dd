-- ===== src/Global/Threads/Out.antt =====
-- Threads that get out of START and GLOBAL_RUNTIMES of src/global.rs.
pub mod Lazy
pub mod Start
pub mod Drain
use rs_run.Base.{
  ℕ, zero, suc, ◌≡◌, refl, sym, subst, ◌∙◌, inl, inr, Bool, true, false, Outcome, done, panicked,
  if◌then◌else◌, List, [], ◌∷◌, ◌++◌, arith,
}
use rs_run.Host.Tokio.{Tokio}
use rs_run.Runtime.{Runtime}
use rs_run.Global.{RuntimeOptions, Makings, GlobalRuntimes, ConfigRuntimes, new, Globals, initial}
use rs_run.Global.Histories.{after_all}
use rs_run.Global.Threads.{
  InitStage, init_enters, init_locked, wrote_read, wrote_write, wrote_bg, init_leaves, Event,
  UseStage, use_enters, use_locked, took, use_leaves, InStart, nobody, inits, InLazy, no_one, uses,
  Process, Move, init_goes, use_goes, writes, init_step, makes, use_step, step, run, at_start,
}
use rs_run.Global.Threads.Sim.{
  StartFree, StartHolds, LazyFree, LazyHolds, LockSim, free, by_start, by_lazy,
}

module _ (X : Tokio) where
  abbrev pub process : Globals X → InStart X → InLazy X → Bool → List (Event X) → Process X
  process g i u l r = record { globals = g; in_start = i; in_lazy = u; locked = l; returned = r }

  unfoldable pub times : ℕ → Move X → List (Move X)
  times zero mv = []
  times (suc n) mv = mv ∷ times n mv

  -- The thread in START six times, that in GLOBAL_RUNTIMES four times, and the former again.
  abbrev pub drain : List (Move X)
  drain = times 6 init_goes ++ (times 4 use_goes ++ times 6 init_goes)

  -- GLOBAL_RUNTIMES is left, with the lock free, and START as it was.
  abbrev pub UseOut : InStart X → Process X → Type 0
  UseOut i p = (p.in_lazy ≡ no_one) × (p.in_start ≡ i) × (p.locked ≡ false)

  abbrev pub InitOut : Process X → Type 0
  InitOut p = (p.in_start ≡ nobody) × (p.locked ≡ false)
