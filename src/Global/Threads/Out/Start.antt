-- ===== src/Global/Threads/Out/Start.antt =====
-- The thread that is in START of src/global.rs gets out of it.
use rs_run.Base.{ℕ, zero, suc, refl, Bool, true, false, Outcome, done, panicked, List}
use rs_run.Host.Tokio.{Tokio}
use rs_run.Runtime.{Runtime}
use rs_run.Global.{RuntimeOptions, Makings, ConfigRuntimes, Globals}
use rs_run.Global.Threads.{
  InitStage, init_enters, init_locked, wrote_read, wrote_write, wrote_bg, init_leaves, Event,
  InStart, nobody, inits, InLazy, init_goes, writes, init_step, step, run,
}
use rs_run.Global.Threads.Sim.{StartHolds}
use rs_run.Global.Threads.Out.{process, times, InitOut}

module _ (X : Tokio) where
  init_out :
      (n : ℕ) (g : Globals X) (u : InLazy X) (r : List (Event X))
      → InitOut X (run X (times X n init_goes) (process X g nobody u false r))
  unfolding run step times
  init_out zero g u r = (refl, refl)
  init_out (suc n) g u r = init_out n g u r

  init_left :
      (n : ℕ) (m : Makings) (o : RuntimeOptions) (v : Outcome (Unit {0})) (g : Globals X)
      (u : InLazy X) (r : List (Event X))
      → InitOut X
          (run X (times X (suc n) init_goes) (process X g (inits m o (init_leaves v)) u false r))
  unfolding run step times init_step
  init_left n m o (done v) g u r = init_out n _ u _
  init_left n m o panicked g u r = init_out n _ u _

  -- A write leads to the next stage, or to the end of the closure.
  init_wrote :
      (n : ℕ) (m : Makings) (o : RuntimeOptions) (i : InStart X) (next : InitStage)
      (write : Runtime X → ConfigRuntimes X) (made : Outcome (Runtime X)) (g : Globals X)
      (u : InLazy X) (l : Bool) (r : List (Event X))
      → ((g' : Globals X)
          → InitOut X (run X (times X (suc n) init_goes) (process X g' (inits m o next) u l r)))
      → InitOut X
          (run X (times X (suc n) init_goes) (writes X m o next write made (process X g i u l r)))
  unfolding writes
  init_wrote n m o i next write (done x) g u l r later = later (record g { config = write x })
  init_wrote n m o i next write panicked g u l r later =
      init_left n m o panicked (record g { poisoned = true }) u r

  -- The last write ends the closure in either case.
  init_ended :
      (n : ℕ) (m : Makings) (o : RuntimeOptions) (i : InStart X)
      (write : Runtime X → ConfigRuntimes X) (made : Outcome (Runtime X)) (g : Globals X)
      (u : InLazy X) (l : Bool) (r : List (Event X))
      → let p = writes X m o (init_leaves (done tt)) write made (process X g i u l r) in
        InitOut X (run X (times X (suc n) init_goes) (record p { locked = false }))
  unfolding writes
  init_ended n m o i write (done x) g u l r =
      init_left n m o (done tt) (record g { config = write x }) u r
  init_ended n m o i write panicked g u l r =
      init_left n m o panicked (record g { poisoned = true }) u r

  init_last :
      (n : ℕ) (m : Makings) (o : RuntimeOptions) (g : Globals X) (u : InLazy X) (l : Bool)
      (r : List (Event X))
      → InitOut X (run X (times X (suc (suc n)) init_goes) (process X g (inits m o wrote_bg) u l r))
  unfolding run step times init_step
  init_last n m o g u l r = init_ended n m o _ _ _ g u l r

  init_writes :
      (n : ℕ) (m : Makings) (o : RuntimeOptions) (g : Globals X) (u : InLazy X) (l : Bool)
      (r : List (Event X))
      → InitOut X (
          run X (times X (suc (suc (suc n))) init_goes) (process X g (inits m o wrote_write) u l r))
  unfolding run step times init_step
  init_writes n m o g u l r =
      init_wrote (suc n) m o _ wrote_bg _ _ g u l r (λ g'. init_last n m o g' u l r)

  init_reads :
      (n : ℕ) (m : Makings) (o : RuntimeOptions) (g : Globals X) (u : InLazy X) (l : Bool)
      (r : List (Event X))
      → InitOut X (
          run X
            (times X (suc (suc (suc (suc n)))) init_goes)
            (process X g (inits m o wrote_read) u l r))
  unfolding run step times init_step
  init_reads n m o g u l r =
      init_wrote (suc (suc n)) m o _ wrote_write _ _ g u l r (λ g'. init_writes n m o g' u l r)

  init_locks :
      (n : ℕ) (m : Makings) (o : RuntimeOptions) (g : Globals X) (u : InLazy X) (l : Bool)
      (r : List (Event X))
      → InitOut X (
          run X
            (times X (suc (suc (suc (suc (suc n))))) init_goes)
            (process X g (inits m o init_locked) u l r))
  unfolding run step times init_step
  init_locks n m o g u l r =
      init_wrote (suc (suc (suc n))) m o _ wrote_read _ _ g u l r (λ g'. init_reads n m o g' u l r)

  pub init_free :
      (i : InStart X) (g : Globals X) (u : InLazy X) (r : List (Event X))
      → InitOut X (run X (times X 6 init_goes) (process X g i u false r))
  unfolding run step times init_step
  init_free nobody g u r = init_out 6 g u r
  init_free (inits m o init_enters) g u r = init_locks 0 m o g u true r
  init_free (inits m o init_locked) g u r = init_locks 1 m o g u false r
  init_free (inits m o wrote_read) g u r = init_reads 2 m o g u false r
  init_free (inits m o wrote_write) g u r = init_writes 3 m o g u false r
  init_free (inits m o wrote_bg) g u r = init_last 4 m o g u false r
  init_free (inits m o (init_leaves v)) g u r = init_left 5 m o v g u r

  pub init_holds :
      (i : InStart X) (g a : Globals X) (u : InLazy X) (l : Bool) (r : List (Event X))
      → StartHolds X i g a
      → InitOut X (run X (times X 6 init_goes) (process X g i u l r))
  unfolding run step times init_step
  init_holds nobody g a u l r h = absurd h
  init_holds (inits m o init_enters) g a u l r h = absurd h
  init_holds (inits m o init_locked) g a u l r h = init_locks 1 m o g u l r
  init_holds (inits m o wrote_read) g a u l r h = init_reads 2 m o g u l r
  init_holds (inits m o wrote_write) g a u l r h = init_writes 3 m o g u l r
  init_holds (inits m o wrote_bg) g a u l r h = init_last 4 m o g u l r
  init_holds (inits m o (init_leaves v)) g a u l r h = absurd h
