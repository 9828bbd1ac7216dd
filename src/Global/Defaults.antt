-- ===== src/Global/Defaults.antt =====
-- The default options of src/global.rs.
use rs_run.Base.{ℕ, ◌/◌, ◌<◌, ◌≡◌, List, ◌∷◌, ok, done, Returns, max, arith}
use rs_run.Host.Tokio.{Tokio, IsTokio}
use rs_run.Global.{default_options, Makings, initial, init_global_runtimes, force}
use rs_run.Global.Histories.{Call, init_call, after_all}
use rs_run.Global.Sizes.{Sized, IsUsable, AllInit, first_init_sizes}

module _ (X : Tokio) (tokio : IsTokio X)
    (builds : (now : ℕ) (b : X.RuntimeBuilder) → (h : X.Handle) × (X.build now b ≡ ok h)) where
  default-IsUsable : (cpus : ℕ) → 0 < cpus → IsUsable X tokio builds (default_options cpus)
  unfolding default_options
  default-IsUsable cpus some_cpus = (some_cpus, some_cpus, ground arith)

  -- On a machine with any number of processors, one included, the default options set up the runtimes,
  -- if tokio builds them: no size is zero. Reading and writing get as many workers as there are
  -- processors, background work half of them, at least one; later calls of `init_global_runtimes`
  -- change nothing.
  pub default_sizes :
      (m m' : Makings) (cpus : ℕ) (cs : List Call)
      → 0 < cpus
      → AllInit X tokio builds cs
      → let o = default_options cpus in
        ((init_global_runtimes X m o (initial X)).0 ≡ done tt)
        × Returns
            (force X m' (after_all X (init_call m o ∷ cs) (initial X))).0
            (Sized X tokio builds cpus cpus (max (cpus / 2) 1))
  unfolding default_options
  default_sizes m m' cpus cs some_cpus only =
      first_init_sizes X tokio builds m m' (default_options cpus) cs
        (default-IsUsable cpus some_cpus) only
