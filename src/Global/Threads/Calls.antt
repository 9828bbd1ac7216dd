-- ===== src/Global/Threads/Calls.antt =====
-- The calls by which threads come into START and GLOBAL_RUNTIMES of src/global.rs, or do not.
use mathlib.Core.List.{perm_middle}
use mathlib.Core.List.Perm
use rs_run.Base.{◌≡◌, refl, inl, Bool, Outcome, done, panicked, List, ◌∷◌, arith}
use rs_run.Host.Tokio.{Tokio}
use rs_run.Global.{
  RuntimeOptions, Makings, Once, incomplete, complete, failed, ConfigRuntimes, GlobalRuntimes, Cell,
  unset, set, spoilt, Globals, init_global_runtimes, force,
}
use rs_run.Global.Histories.{init_call, use_call, force_done, force_spoilt}
use rs_run.Global.Threads.{
  InitStage, UseStage, init_enters, init_locked, wrote_read, wrote_write, wrote_bg, init_leaves,
  Event, init_event, use_event, use_enters, use_locked, took, use_leaves, InStart, nobody, inits,
  InLazy, no_one, uses, Process, Move, calls, init_goes, use_goes, call, step,
}
use rs_run.Global.Threads.Sim.{
  start_event, lazy_event, StartSim, CellSim, LockSim, free, by_start, by_lazy, Sim, Moved,
}
use rs_run.Global.Threads.Start.{init_whole, init_step-Moved}
use rs_run.Global.Threads.Use.{use_whole, use_step-Moved}

module _ (X : Tokio) where
  abbrev pub with_globals :
      Once
      → Cell X
      → ConfigRuntimes X
      → Bool
      → InStart X
      → InLazy X
      → Bool
      → List (Event X)
      → Process X
  with_globals s cell c b i u l r = record {
    globals = record { start = s; config = c; poisoned = b; cell = cell };
    in_start = i;
    in_lazy = u;
    locked = l;
    returned = r;
  }

  -- Nobody is in START once it is decided.
  init_returns :
      (m : Makings) (o : RuntimeOptions) (v : Outcome (Unit {0})) (p : Process X) (a : Globals X)
      → p.in_start ≡ nobody
      → init_global_runtimes X m o a ≡ (v, a)
      → Sim X p a
      → Moved X p a (record p { returned = init_event m o v ∷ p.returned })
  unfolding start_event
  init_returns m o v p a e e' sim =
      init_whole X m o p (record p { returned = init_event m o v ∷ p.returned }) a (v, a) e' sim
        (rw (e) (perm_middle (lazy_event X p.in_lazy) p.returned))

  use_returns :
      (m : Makings) (v : Outcome (GlobalRuntimes X)) (p : Process X) (a : Globals X)
      → p.in_lazy ≡ no_one
      → force X m a ≡ (v, a)
      → Sim X p a
      → Moved X p a (record p { returned = use_event m v ∷ p.returned })
  unfolding lazy_event
  use_returns m v p a e e' sim =
      use_whole X m p (record p { returned = use_event m v ∷ p.returned }) a (v, a) e' sim
        (rw (e) (perm_middle (start_event X p.in_start) p.returned))

  undecided :
      (m : Makings) (o : RuntimeOptions) (stage : InitStage) (s t : Once)
      → StartSim X (inits m o stage) s t
      → s ≡ incomplete
  undecided m o init_enters s t sim = sim.0
  undecided m o init_locked s t sim = sim.0
  undecided m o wrote_read s t sim = sim.0
  undecided m o wrote_write s t sim = sim.0
  undecided m o wrote_bg s t sim = sim.0
  undecided m o (init_leaves (done v)) s t sim = sim.0
  undecided m o (init_leaves panicked) s t sim = sim.0

  not_yet :
      (m : Makings) (stage : UseStage X) (s t : Cell X) → CellSim X (uses m stage) s t → s ≡ unset
  not_yet m use_enters s t sim = sim.0
  not_yet m use_locked s t sim = sim.0
  not_yet m (took c) s t sim = sim.0
  not_yet m (use_leaves (done g)) s t sim = sim.0
  not_yet m (use_leaves panicked) s t sim = sim.0

  start_entered :
      (m : Makings) (o : RuntimeOptions) (u : InLazy X) (l : Bool) (g a : Globals X)
      → LockSim X nobody u l g a
      → LockSim X (inits m o init_enters) u l g a
  start_entered m o u l g a (free _ f e same) = free tt f e same
  start_entered m o u l g a (by_start h _ _) = absurd h
  start_entered m o u l g a (by_lazy _ h e) = by_lazy tt h e

  lazy_entered :
      (m : Makings) (i : InStart X) (l : Bool) (g a : Globals X)
      → LockSim X i no_one l g a
      → LockSim X i (uses m use_enters) l g a
  lazy_entered m i l g a (free f _ e same) = free f tt e same
  lazy_entered m i l g a (by_start h _ e) = by_start h tt e
  lazy_entered m i l g a (by_lazy _ h _) = absurd h

  init_call-Moved :
      (m : Makings) (o : RuntimeOptions) (s : Once) (cell : Cell X) (c : ConfigRuntimes X)
      (b : Bool) (i : InStart X) (u : InLazy X) (l : Bool) (r : List (Event X)) (a : Globals X)
      → let p = with_globals s cell c b i u l r in
        Sim X p a → Moved X p a (call X (init_call m o) p)
  unfolding call init_global_runtimes start_event
  init_call-Moved m o incomplete cell c b nobody u l r a (t, sim, lock) =
      inl (((refl, t), sim, start_entered m o u l _ a lock), Perm.rfl)
  init_call-Moved m o incomplete cell c b (inits m' o' stage) u l r a sim = inl (sim, Perm.rfl)
  init_call-Moved m o complete cell c b nobody u l r a (t, sim, lock) =
      init_returns m o (done tt) (with_globals complete cell c b nobody u l r) a refl
        (simp (t, init_global_runtimes)) (t, sim, lock)
  init_call-Moved m o complete cell c b (inits m' o' stage) u l r a (start, _, _) =
      let no : complete ≡ incomplete = undecided m' o' stage complete a.start start in ground arith
  init_call-Moved m o failed cell c b nobody u l r a (t, sim, lock) =
      init_returns m o panicked (with_globals failed cell c b nobody u l r) a refl
        (simp (t, init_global_runtimes)) (t, sim, lock)
  init_call-Moved m o failed cell c b (inits m' o' stage) u l r a (start, _, _) =
      let no : failed ≡ incomplete = undecided m' o' stage failed a.start start in ground arith

  use_call-Moved :
      (m : Makings) (s : Once) (cell : Cell X) (c : ConfigRuntimes X) (b : Bool) (i : InStart X)
      (u : InLazy X) (l : Bool) (r : List (Event X)) (a : Globals X)
      → let p = with_globals s cell c b i u l r in Sim X p a → Moved X p a (call X (use_call m) p)
  unfolding call lazy_event
  use_call-Moved m s unset c b i no_one l r a (start, t, lock) =
      inl ((start, (refl, t), lazy_entered m i l _ a lock), Perm.rfl)
  use_call-Moved m s unset c b i (uses m' stage) l r a sim = inl (sim, Perm.rfl)
  use_call-Moved m s (set g) c b i no_one l r a (start, t, lock) =
      use_returns m (done g) (with_globals s (set g) c b i no_one l r) a refl (force_done X m a g t)
        (start, t, lock)
  use_call-Moved m s (set g) c b i (uses m' stage) l r a (_, cell, _) =
      let no : set g ≡ unset = not_yet m' stage (set g) a.cell cell in ground arith
  use_call-Moved m s spoilt c b i no_one l r a (start, t, lock) =
      use_returns m panicked (with_globals s spoilt c b i no_one l r) a refl (force_spoilt X m a t)
        (start, t, lock)
  use_call-Moved m s spoilt c b i (uses m' stage) l r a (_, cell, _) =
      let no : spoilt ≡ unset = not_yet m' stage spoilt a.cell cell in ground arith

  init_goes-Moved :
      (g : Globals X) (i : InStart X) (u : InLazy X) (l : Bool) (r : List (Event X)) (a : Globals X)
      → let p : Process X = record {
        globals = g;
        in_start = i;
        in_lazy = u;
        locked = l;
        returned = r;
      } in
        Sim X p a → Moved X p a (step X init_goes p)
  unfolding step
  init_goes-Moved g nobody u l r a sim = inl (sim, Perm.rfl)
  init_goes-Moved g (inits m o stage) u l r a sim = init_step-Moved X m o stage g u l r a sim

  use_goes-Moved :
      (g : Globals X) (i : InStart X) (u : InLazy X) (l : Bool) (r : List (Event X)) (a : Globals X)
      → let p : Process X = record {
        globals = g;
        in_start = i;
        in_lazy = u;
        locked = l;
        returned = r;
      } in
        Sim X p a → Moved X p a (step X use_goes p)
  unfolding step
  use_goes-Moved g i no_one l r a sim = inl (sim, Perm.rfl)
  use_goes-Moved g i (uses m stage) l r a sim = use_step-Moved X m stage g i l r a sim

  pub step-Moved :
      (mv : Move X) (p : Process X) (a : Globals X) → Sim X p a → Moved X p a (step X mv p)
  unfolding step
  step-Moved (calls (init_call m o)) p a sim =
      init_call-Moved m o p.globals.start p.globals.cell p.globals.config p.globals.poisoned
        p.in_start p.in_lazy p.locked p.returned a sim
  step-Moved (calls (use_call m)) p a sim =
      use_call-Moved m p.globals.start p.globals.cell p.globals.config p.globals.poisoned p.in_start
        p.in_lazy p.locked p.returned a sim
  step-Moved init_goes p a sim =
      init_goes-Moved p.globals p.in_start p.in_lazy p.locked p.returned a sim
  step-Moved use_goes p a sim =
      use_goes-Moved p.globals p.in_start p.in_lazy p.locked p.returned a sim
