-- ===== src/Global/Threads/Out/Lazy.antt =====
-- The thread that is in GLOBAL_RUNTIMES of src/global.rs gets out of it.
use rs_run.Base.{
  ℕ, zero, suc, refl, Bool, true, false, Outcome, done, panicked, if◌then◌else◌, List,
}
use rs_run.Host.Tokio.{Tokio}
use rs_run.Global.{Makings, GlobalRuntimes, ConfigRuntimes, new, Globals}
use rs_run.Global.Threads.{
  Event, use_enters, use_locked, took, use_leaves, InStart, InLazy, no_one, uses, use_goes, makes,
  use_step, step, run,
}
use rs_run.Global.Threads.Sim.{LazyFree}
use rs_run.Global.Threads.Out.{process, times, UseOut}

module _ (X : Tokio) where
  use_out :
      (n : ℕ) (g : Globals X) (i : InStart X) (r : List (Event X))
      → UseOut X i (run X (times X n use_goes) (process X g i no_one false r))
  unfolding run step times
  use_out zero g i r = (refl, refl, refl)
  use_out (suc n) g i r = use_out n g i r

  use_left :
      (n : ℕ) (m : Makings) (v : Outcome (GlobalRuntimes X)) (g : Globals X) (i : InStart X)
      (r : List (Event X))
      → UseOut X i
          (run X (times X (suc n) use_goes) (process X g i (uses m (use_leaves v)) false r))
  unfolding run step times use_step
  use_left n m (done made) g i r = use_out n _ i _
  use_left n m panicked g i r = use_out n _ i _

  use_made :
      (n : ℕ) (m : Makings) (u : InLazy X) (q : Outcome (GlobalRuntimes X)) (g : Globals X)
      (i : InStart X) (l : Bool) (r : List (Event X))
      → UseOut X i (run X (times X (suc n) use_goes) (makes X m q (process X g i u l r)))
  unfolding makes
  use_made n m u (done made) g i l r = use_left n m (done made) g i r
  use_made n m u panicked g i l r = use_left n m panicked (record g { poisoned = true }) i r

  use_looks :
      (n : ℕ) (b : Bool) (m : Makings) (g g' : Globals X) (i : InStart X) (l : Bool)
      (r : List (Event X)) (c : ConfigRuntimes X)
      → UseOut X i (
          run X (times X (suc (suc n)) use_goes) (
            if b
            then makes X m panicked (process X g i (uses m use_locked) l r)
            else process X g' i (uses m (took c)) l r))
  unfolding run step times use_step
  use_looks n true m g g' i l r c = use_made (suc n) m _ panicked g i l r
  use_looks n false m g g' i l r c = use_made n m _ (new X m c) g' i l r

  pub use_free :
      (u : InLazy X) (g : Globals X) (i : InStart X) (r : List (Event X))
      → UseOut X i (run X (times X 4 use_goes) (process X g i u false r))
  unfolding run step times use_step
  use_free no_one g i r = use_out 4 g i r
  use_free (uses m use_enters) g i r = use_looks 0 g.poisoned m g _ i true r g.config
  use_free (uses m use_locked) g i r = use_looks 1 g.poisoned m g _ i false r g.config
  use_free (uses m (took c)) g i r = use_made 2 m _ (new X m c) g i false r
  use_free (uses m (use_leaves v)) g i r = use_left 3 m v g i r

  pub use_holds :
      (u : InLazy X) (g : Globals X) (i : InStart X) (l : Bool) (r : List (Event X))
      → (LazyFree X u → ⊥)
      → UseOut X i (run X (times X 4 use_goes) (process X g i u l r))
  unfolding run step times use_step
  use_holds no_one g i l r h = absurd (h tt)
  use_holds (uses m use_enters) g i l r h = absurd (h tt)
  use_holds (uses m use_locked) g i l r h = use_looks 1 g.poisoned m g _ i l r g.config
  use_holds (uses m (took c)) g i l r h = use_made 2 m _ (new X m c) g i l r
  use_holds (uses m (use_leaves v)) g i l r h = absurd (h tt)
