-- ===== src/Global/Threads/Got.antt =====
-- What the threads get that use the global runtimes of src/global.rs at once.
use rs_run.Base.{
  ◌≡◌, refl, Bool, true, false, Outcome, done, panicked, if◌then◌else◌, List, [], ◌∷◌, arith,
}
use rs_run.Host.Tokio.{Tokio}
use rs_run.Runtime.{Runtime}
use rs_run.Global.{
  RuntimeOptions, Makings, Once, incomplete, complete, failed, GlobalRuntimes, ConfigRuntimes, new,
  Cell, unset, set, spoilt, Globals,
}
use rs_run.Global.Histories.{init_call, use_call}
use rs_run.Global.Threads.{
  InitStage, init_enters, init_locked, wrote_read, wrote_write, wrote_bg, init_leaves, Event,
  init_event, use_event, UseStage, use_enters, use_locked, took, use_leaves, InStart, nobody, inits,
  InLazy, no_one, uses, Process, Move, calls, init_goes, use_goes, call, writes, init_step, makes,
  use_step, step, run, at_start,
}
use rs_run.Global.Threads.Calls.{with_globals}

module _ (X : Tokio) where
  -- A use that has not panicked has got the runtimes that the cell has.
  abbrev pub Agrees : Cell X → Event X → Type 0
  Agrees cell (init_event m o v) = Unit {0}
  Agrees cell (use_event m (done g)) = cell ≡ set g
  Agrees cell (use_event m panicked) = Unit {0}

  abbrev pub AllAgree : Cell X → List (Event X) → Type 0
  AllAgree cell [] = Unit {0}
  AllAgree cell (e ∷ es) = Agrees cell e × AllAgree cell es

  abbrev Inside : InLazy X → Cell X → Type 0
  Inside no_one cell = Unit {0}
  Inside (uses m stage) cell = cell ≡ unset

  abbrev Got : Process X → Type 0
  Got p = Inside p.in_lazy p.globals.cell × AllAgree p.globals.cell p.returned

  -- Nobody has got runtimes while there are none.
  Agrees-unset : (e : Event X) (c c' : Cell X) → c ≡ unset → Agrees c e → Agrees c' e
  Agrees-unset (init_event m o v) c c' u a = tt
  Agrees-unset (use_event m (done g)) c c' u a = ground arith
  Agrees-unset (use_event m panicked) c c' u a = tt

  AllAgree-unset :
      (es : List (Event X)) (c c' : Cell X) → c ≡ unset → AllAgree c es → AllAgree c' es
  AllAgree-unset [] c c' u a = tt
  AllAgree-unset (e ∷ es) c c' u (a, all) = (Agrees-unset e c c' u a, AllAgree-unset es c c' u all)

  if-Got : (b : Bool) (p q : Process X) → Got p → Got q → Got (if b then p else q)
  if-Got true p q x y = x
  if-Got false p q x y = y

  writes-Got :
      (m : Makings) (o : RuntimeOptions) (next : InitStage) (write : Runtime X → ConfigRuntimes X)
      (made : Outcome (Runtime X)) (p : Process X)
      → Got p
      → Got (writes X m o next write made p)
  unfolding writes
  writes-Got m o next write (done x) p got = got
  writes-Got m o next write panicked p got = got

  init_step-Got :
      (m : Makings) (o : RuntimeOptions) (stage : InitStage) (p : Process X)
      → Got p
      → Got (init_step X m o stage p)
  unfolding init_step
  init_step-Got m o init_enters p got = if-Got p.locked p _ got got
  init_step-Got m o init_locked p got = writes-Got m o wrote_read _ _ p got
  init_step-Got m o wrote_read p got = writes-Got m o wrote_write _ _ p got
  init_step-Got m o wrote_write p got = writes-Got m o wrote_bg _ _ p got
  init_step-Got m o wrote_bg p got = writes-Got m o (init_leaves (done tt)) _ _ p got
  init_step-Got m o (init_leaves (done v)) p (inside, got) = (inside, (tt, got))
  init_step-Got m o (init_leaves panicked) p (inside, got) = (inside, (tt, got))

  makes-Got :
      (m : Makings) (q : Outcome (GlobalRuntimes X)) (p : Process X)
      → p.globals.cell ≡ unset
      → Got p
      → Got (makes X m q p)
  unfolding makes
  makes-Got m (done g) p e (_, got) = (e, got)
  makes-Got m panicked p e (_, got) = (e, got)

  use_step-Got :
      (m : Makings) (stage : UseStage X) (p : Process X)
      → p.globals.cell ≡ unset
      → Got p
      → Got (use_step X m stage p)
  unfolding use_step
  use_step-Got m use_enters p e got = if-Got p.locked p _ got (e, got.1)
  use_step-Got m use_locked p e got =
      if-Got p.globals.poisoned _ _ (makes-Got m panicked p e got) (e, got.1)
  use_step-Got m (took c) p e got = makes-Got m (new X m c) p e got
  use_step-Got m (use_leaves (done g)) p e (_, got) =
      (tt, (refl, AllAgree-unset p.returned p.globals.cell (set g) e got))
  use_step-Got m (use_leaves panicked) p e (_, got) =
      (tt, (tt, AllAgree-unset p.returned p.globals.cell spoilt e got))

  init_call-Got :
      (m : Makings) (o : RuntimeOptions) (s : Once) (cell : Cell X) (c : ConfigRuntimes X)
      (b : Bool) (i : InStart X) (u : InLazy X) (l : Bool) (r : List (Event X))
      → let p = with_globals X s cell c b i u l r in Got p → Got (call X (init_call m o) p)
  unfolding call
  init_call-Got m o incomplete cell c b nobody u l r got = got
  init_call-Got m o incomplete cell c b (inits m' o' stage) u l r got = got
  init_call-Got m o complete cell c b i u l r (inside, got) = (inside, (tt, got))
  init_call-Got m o failed cell c b i u l r (inside, got) = (inside, (tt, got))

  use_call-Got :
      (m : Makings) (s : Once) (cell : Cell X) (c : ConfigRuntimes X) (b : Bool) (i : InStart X)
      (u : InLazy X) (l : Bool) (r : List (Event X))
      → let p = with_globals X s cell c b i u l r in Got p → Got (call X (use_call m) p)
  unfolding call
  use_call-Got m s unset c b i no_one l r (_, got) = (refl, got)
  use_call-Got m s unset c b i (uses m' stage) l r got = got
  use_call-Got m s (set g) c b i u l r (inside, got) = (inside, (refl, got))
  use_call-Got m s spoilt c b i u l r (inside, got) = (inside, (tt, got))

  init_goes-Got :
      (g : Globals X) (i : InStart X) (u : InLazy X) (l : Bool) (r : List (Event X))
      → let p : Process X = record {
        globals = g;
        in_start = i;
        in_lazy = u;
        locked = l;
        returned = r;
      } in
        Got p → Got (step X init_goes p)
  unfolding step
  init_goes-Got g nobody u l r got = got
  init_goes-Got g (inits m o stage) u l r got = init_step-Got m o stage _ got

  use_goes-Got :
      (g : Globals X) (i : InStart X) (u : InLazy X) (l : Bool) (r : List (Event X))
      → let p : Process X = record {
        globals = g;
        in_start = i;
        in_lazy = u;
        locked = l;
        returned = r;
      } in
        Got p → Got (step X use_goes p)
  unfolding step
  use_goes-Got g i no_one l r got = got
  use_goes-Got g i (uses m stage) l r got = use_step-Got m stage _ got.0 got

  step-Got : (mv : Move X) (p : Process X) → Got p → Got (step X mv p)
  unfolding step
  step-Got (calls (init_call m o)) p got =
      init_call-Got m o p.globals.start p.globals.cell p.globals.config p.globals.poisoned
        p.in_start p.in_lazy p.locked p.returned got
  step-Got (calls (use_call m)) p got =
      use_call-Got m p.globals.start p.globals.cell p.globals.config p.globals.poisoned p.in_start
        p.in_lazy p.locked p.returned got
  step-Got init_goes p got = init_goes-Got p.globals p.in_start p.in_lazy p.locked p.returned got
  step-Got use_goes p got = use_goes-Got p.globals p.in_start p.in_lazy p.locked p.returned got

  run-Got : (mvs : List (Move X)) (p : Process X) → Got p → Got (run X mvs p)
  unfolding run
  run-Got [] p got = got
  run-Got (mv ∷ mvs) p got = run-Got mvs (step X mv p) (step-Got mv p got)

  -- However threads call `init_global_runtimes` and use the global runtimes at the same time, each use
  -- that has returned without a panic has got the runtimes that are in GLOBAL_RUNTIMES: all of them have
  -- got the same.
  pub uses_agree :
      (mvs : List (Move X)) → let p = run X mvs (at_start X) in AllAgree p.globals.cell p.returned
  uses_agree mvs = (run-Got mvs (at_start X) (tt, tt)).1
