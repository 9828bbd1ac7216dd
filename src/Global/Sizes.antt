-- ===== src/Global/Sizes.antt =====
-- Which runtimes src/global.rs makes.
use Prim.Native.String.{String}
use rs_run.Base.{
  ℕ, ◌<◌, ◌≡◌, refl, sym, ap, subst, ◌∙◌, true, false, some, List, [], ◌∷◌, ok, done, panicked,
  Returns, arith,
}
use rs_run.Host.Tokio.{Tokio, IsTokio}
use rs_run.Runtime.{
  Runtime, default, runtime_name, thread_name, worker_threads, build, built, hooks,
}
use rs_run.Global.{
  RuntimeOptions, read_workers, write_workers, bg_workers, hb_workers, Making, Makings, incomplete,
  complete, read_pool, write_pool, bg_pool, hb_pool, create_runtime, GlobalRuntimes, or_create, new,
  unset, set, Globals, taken, initial, configure, configured, init_global_runtimes, set_up, settled,
  force, runtime_of,
}
use rs_run.Global.Histories.{Call, init_call, use_call, after, after_all}

module _ (X : Tokio) (tokio : IsTokio X)
    (builds : (now : ℕ) (b : X.RuntimeBuilder) → (h : X.Handle) × (X.build now b ≡ ok h)) where
  -- A runtime of a name with a number of workers.
  abbrev pub Is : String → ℕ → Runtime X → Type 0
  Is name n r = (r.name ≡ name) × ((X.crew r.handle).workers ≡ n)

  create_runtime_done :
      (m : Making) (name thread : String) (n : ℕ)
      → 0 < n
      → (r : Runtime X) × (create_runtime X m name thread n ≡ done r) × Is name n r
  unfolding create_runtime worker_threads runtime_name thread_name default build built
  create_runtime_done m name thread n some_workers =
      let (b, e, size) = tokio.worker_threads_some n X.new_multi_thread some_workers in
      let (h, e') =
        builds m.now (X.on_threads (hooks thread) (X.thread_name thread (X.enable_all b))) in
      (
        record { name = name; handle = h },
        rw (e, e') refl,
        (
          refl,
          ap (λ c. c.workers)
                (tokio.crew-build m.now _ h e' ∙ tokio.asked-on_threads (hooks thread) _)
              ∙ ap (λ c. c.workers) (tokio.asked-thread_name thread _)
              ∙ ap (λ c. c.workers) (tokio.asked-enable_all b ∙ size),
        ),
      )

  -- The four runtimes have their names and these numbers of workers.
  abbrev pub Sized : ℕ → ℕ → ℕ → GlobalRuntimes X → Type 0
  Sized read write bg g =
      Is "global-read" read (runtime_of X read_pool g)
      × Is "global-write" write (runtime_of X write_pool g)
      × Is "global-bg" bg (runtime_of X bg_pool g)
      × Is "global-hb" hb_workers (runtime_of X hb_pool g)

  -- Only calls of `init_global_runtimes`.
  abbrev pub AllInit : List Call → Type 0
  AllInit [] = Unit {0}
  AllInit (init_call m o ∷ cs) = AllInit cs
  AllInit (use_call m ∷ cs) = ⊥

  after_all-complete :
      (cs : List Call) (s : Globals X) → AllInit cs → s.start ≡ complete → after_all X cs s ≡ s
  unfolding after_all after init_global_runtimes
  after_all-complete [] s only e = refl
  after_all-complete (init_call m o ∷ cs) s only e =
      let same : (init_global_runtimes X m o s).1 ≡ s = simp (e, init_global_runtimes) in
      ap (after_all X cs) same ∙ after_all-complete cs s only e
  after_all-complete (use_call m ∷ cs) s only e = absurd only

  -- As a first call of `init_global_runtimes` leaves it.
  abbrev pub configured_with : GlobalRuntimes X → Globals X
  configured_with g = record {
    start = complete;
    config = record {
      read_runtime = some g.read_runtime;
      write_runtime = some g.write_runtime;
      bg_runtime = some g.bg_runtime;
      hb_runtime = some g.hb_runtime;
      already_init = false;
    };
    poisoned = false;
    cell = unset;
  }

  abbrev pub IsUsable : RuntimeOptions → Type 0
  IsUsable o = (0 < o.read_rt_size) × (0 < o.write_rt_size) × (0 < o.bg_rt_size)

  abbrev pub SizedBy : RuntimeOptions → GlobalRuntimes X → Type 0
  SizedBy o g = Sized o.read_rt_size o.write_rt_size o.bg_rt_size g

  pub first_init_done :
      (m : Makings) (o : RuntimeOptions)
      → IsUsable o
      → (g : GlobalRuntimes X) × SizedBy o g
        × (init_global_runtimes X m o (initial X) ≡ (done tt, configured_with g))
  unfolding init_global_runtimes configure configured runtime_of
  first_init_done m o (r, w, b) =
      let (read, e₁, is₁) =
        create_runtime_done m.read "global-read" "global-read-worker" o.read_rt_size r in
      let (write, e₂, is₂) =
        create_runtime_done m.write "global-write" "global-write-worker" o.write_rt_size w in
      let (bg, e₃, is₃) = create_runtime_done m.bg "global-bg" "global-bg-worker" o.bg_rt_size b in
      let (hb, e₄, is₄) =
        create_runtime_done m.hb "global-hb" "global-hb-worker" hb_workers (omega arith) in
      (
        record { read_runtime = read; write_runtime = write; bg_runtime = bg; hb_runtime = hb },
        (is₁, is₂, is₃, is₄),
        rw (e₁, e₂, e₃, e₄) refl,
      )

  pub set_up-configured_with :
      (m : Makings) (g : GlobalRuntimes X) → set_up X m (configured_with g) ≡ done g
  unfolding set_up new or_create
  set_up-configured_with m g = refl

  -- The first call of `init_global_runtimes`, before any use and with no size zero, succeeds, if tokio
  -- builds the runtimes. Later calls change nothing, and the runtimes that are used afterwards have
  -- the sizes of the first call's options.
  pub first_init_sizes :
      (m m' : Makings) (o : RuntimeOptions) (cs : List Call)
      → IsUsable o
      → AllInit cs
      → ((init_global_runtimes X m o (initial X)).0 ≡ done tt)
        × Returns (force X m' (after_all X (init_call m o ∷ cs) (initial X))).0 (SizedBy o)
  unfolding after_all after force settled
  first_init_sizes m m' o cs usable only =
      let (g, sized, set_by) = first_init_done m o usable in
      let later : after_all X (init_call m o ∷ cs) (initial X) ≡ configured_with g =
        ap (λ p. after_all X cs p.1) set_by ∙ after_all-complete cs (configured_with g) only refl in
      (
        ap (λ p. p.0) set_by,
        subst (λ t. Returns (force X m' t).0 (SizedBy o)) (sym later)
            (rw (set_up-configured_with m' g) sized),
      )

  -- A use before any call of `init_global_runtimes` gets runtimes of the constant sizes, if tokio
  -- builds them. A call of `init_global_runtimes` after that panics, and leaves the runtimes to the
  -- uses after it.
  pub init_after_use :
      (m m' m'' : Makings) (o : RuntimeOptions)
      → let used = force X m (initial X) in
        let late = init_global_runtimes X m' o used.1 in
        (g : GlobalRuntimes X) × (used.0 ≡ done g)
        × Sized read_workers write_workers bg_workers g
        × (late.0 ≡ panicked)
        × ((force X m'' late.1).0 ≡ done g)
  unfolding init_global_runtimes configure configured force set_up new or_create settled runtime_of
  init_after_use m m' m'' o =
      let (read, e₁, is₁) =
        create_runtime_done m.read "global-read" "read-worker" read_workers (omega arith) in
      let (write, e₂, is₂) =
        create_runtime_done m.write "global-write" "write-worker" write_workers (omega arith) in
      let (bg, e₃, is₃) =
        create_runtime_done m.bg "global-bg" "bg-worker" bg_workers (omega arith) in
      let (hb, e₄, is₄) =
        create_runtime_done m.hb "global-hb" "hb-worker" hb_workers (omega arith) in
      let g : GlobalRuntimes X = record {
        read_runtime = read;
        write_runtime = write;
        bg_runtime = bg;
        hb_runtime = hb;
      } in
      let made : force X m (initial X) ≡ (
        done g,
        record { start = incomplete; config = taken X true; poisoned = false; cell = set g },
      ) =
        rw (e₁, e₂, e₃, e₄) refl in
      (
        g,
        ap (λ p. p.0) made,
        (is₁, is₂, is₃, is₄),
        ap (λ p. (init_global_runtimes X m' o p.1).0) made,
        ap (λ p. (force X m'' (init_global_runtimes X m' o p.1).1).0) made,
      )
