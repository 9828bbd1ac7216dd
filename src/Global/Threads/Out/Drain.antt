-- ===== src/Global/Threads/Out/Drain.antt =====
-- Nobody waits for ever at START, GLOBAL_RUNTIMES and the lock of src/global.rs.
use rs_run.Base.{
  ℕ, zero, suc, ◌≡◌, refl, sym, subst, ◌∙◌, Bool, false, Outcome, done, panicked, List, ◌++◌, arith,
}
use rs_run.Host.Tokio.{Tokio}
use rs_run.Runtime.{Runtime}
use rs_run.Global.{RuntimeOptions, Makings, ConfigRuntimes, Globals}
use rs_run.Global.Threads.{
  InitStage, init_enters, init_locked, wrote_read, wrote_write, wrote_bg, init_leaves, Event,
  use_enters, use_locked, took, use_leaves, InStart, nobody, inits, InLazy, no_one, uses, Process,
  Move, init_goes, use_goes, writes, init_step, step, run, at_start,
}
use rs_run.Global.Threads.Sim.{LazyFree, LazyHolds, LockSim, free, by_start, by_lazy}
use rs_run.Global.Threads.Linear.{run-append, run-LockSim}
use rs_run.Global.Threads.Out.{process, times, drain, UseOut, InitOut}
use rs_run.Global.Threads.Out.Lazy.{use_free, use_holds}
use rs_run.Global.Threads.Out.Start.{init_free, init_holds}

module _ (X : Tokio) where
  init_goes-free : (p : Process X) → p.locked ≡ false → InitOut X (run X (times X 6 init_goes) p)
  init_goes-free p e =
      subst (λ l. InitOut X (run X (times X 6 init_goes) (record p { locked = l }))) (sym e)
        (init_free X p.in_start p.globals p.in_lazy p.returned)

  use_goes-free :
      (p : Process X) → p.locked ≡ false → UseOut X p.in_start (run X (times X 4 use_goes) p)
  use_goes-free p e =
      subst (λ l. UseOut X p.in_start (run X (times X 4 use_goes) (record p { locked = l })))
        (sym e) (use_free X p.in_lazy p.globals p.in_start p.returned)

  writes-in_lazy :
      (m : Makings) (o : RuntimeOptions) (next : InitStage) (write : Runtime X → ConfigRuntimes X)
      (made : Outcome (Runtime X)) (p : Process X)
      → (writes X m o next write made p).in_lazy ≡ p.in_lazy
  unfolding writes
  writes-in_lazy m o next write (done x) p = refl
  writes-in_lazy m o next write panicked p = refl

  init_step-in_lazy :
      (m : Makings) (o : RuntimeOptions) (stage : InitStage) (p : Process X)
      → (init_step X m o stage p).in_lazy ≡ p.in_lazy
  unfolding init_step
  init_step-in_lazy m o init_enters p = ground arith
  init_step-in_lazy m o init_locked p = writes-in_lazy m o wrote_read _ _ p
  init_step-in_lazy m o wrote_read p = writes-in_lazy m o wrote_write _ _ p
  init_step-in_lazy m o wrote_write p = writes-in_lazy m o wrote_bg _ _ p
  init_step-in_lazy m o wrote_bg p = writes-in_lazy m o (init_leaves (done tt)) _ _ p
  init_step-in_lazy m o (init_leaves (done v)) p = refl
  init_step-in_lazy m o (init_leaves panicked) p = refl

  init_goes-in_lazy : (n : ℕ) (p : Process X) → (run X (times X n init_goes) p).in_lazy ≡ p.in_lazy
  unfolding run times step
  init_goes-in_lazy zero p = refl
  init_goes-in_lazy (suc n) p =
      init_goes-in_lazy n (step X init_goes p)
      ∙ one p.in_start p.globals p.in_lazy p.locked p.returned
    where
      one :
          (i : InStart X) (g : Globals X) (u : InLazy X) (l : Bool) (r : List (Event X))
          → (step X init_goes (process X g i u l r)).in_lazy ≡ u
      one nobody g u l r = refl
      one (inits m o stage) g u l r =
          init_step-in_lazy m o stage (process X g (inits m o stage) u l r)

  LazyHolds-not_free : (u : InLazy X) (g a : Globals X) → LazyHolds X u g a → LazyFree X u → ⊥
  LazyHolds-not_free no_one g a h f = h
  LazyHolds-not_free (uses m use_enters) g a h f = h
  LazyHolds-not_free (uses m use_locked) g a h f = f
  LazyHolds-not_free (uses m (took c)) g a h f = f
  LazyHolds-not_free (uses m (use_leaves v)) g a h f = h

  -- Nobody is in START or GLOBAL_RUNTIMES, and the lock is free.
  abbrev pub IsIdle : Process X → Type 0
  IsIdle p = (p.in_start ≡ nobody) × (p.in_lazy ≡ no_one) × (p.locked ≡ false)

  UseOut-IsIdle :
      (i : InStart X) (p : Process X)
      → UseOut X i (run X (times X 4 use_goes) p)
      → IsIdle (run X (times X 4 use_goes ++ times X 6 init_goes) p)
  UseOut-IsIdle i p (u, _, l) =
      let next = run X (times X 4 use_goes) p in
      let (s, l') = init_goes-free next l in
      rw (run-append X (times X 4 use_goes) (times X 6 init_goes) p)
        (s, init_goes-in_lazy 6 next ∙ u, l')

  drain-IsIdle :
      (p : Process X) (a : Globals X)
      → LockSim X p.in_start p.in_lazy p.locked p.globals a
      → IsIdle (run X (times X 4 use_goes ++ times X 6 init_goes) (run X (times X 6 init_goes) p))
  drain-IsIdle p a (free _ _ e _) =
      let next = run X (times X 6 init_goes) p in
      UseOut-IsIdle next.in_start next (use_goes-free next (init_goes-free p e).1)
  drain-IsIdle p a (by_start h _ _) =
      let next = run X (times X 6 init_goes) p in
      let out : InitOut X next =
        init_holds X p.in_start p.globals a p.in_lazy p.locked p.returned h in
      UseOut-IsIdle next.in_start next (use_goes-free next out.1)
  drain-IsIdle p a (by_lazy _ h _) =
      let next = run X (times X 6 init_goes) p in
      let held : LazyFree X next.in_lazy → ⊥ =
        subst (λ u. LazyFree X u → ⊥) (sym (init_goes-in_lazy 6 p))
          (LazyHolds-not_free p.in_lazy p.globals a h) in
      UseOut-IsIdle next.in_start next
        (use_holds X next.in_lazy next.globals next.in_start next.locked next.returned held)

  -- Whatever the threads have done that call `init_global_runtimes` and use the global runtimes at the
  -- same time, those that are in START and GLOBAL_RUNTIMES come out of them, by sixteen steps of theirs,
  -- and leave the lock free: they never wait for each other.
  pub threads_get_out : (mvs : List (Move X)) → IsIdle (run X (mvs ++ drain X) (at_start X))
  threads_get_out mvs =
      let (a, lock) = run-LockSim X mvs in
      rw
        (
          run-append X mvs (drain X) (at_start X),
          run-append X (times X 6 init_goes) (times X 4 use_goes ++ times X 6 init_goes)
              (run X mvs (at_start X)),
        )
        (drain-IsIdle (run X mvs (at_start X)) a lock)
