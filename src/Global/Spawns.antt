-- ===== src/Global/Spawns.antt =====
-- Where the work goes that is spawned by src/global.rs.
use mathlib.Core.List.{append-nil, append_assoc, map-append}
use rs_run.Base.{
  ℕ, ◌≡◌, refl, sym, ap, subst, ◌∙◌, ◌⊎◌, inl, inr, List, [], ◌∷◌, ◌++◌, map, ok, Outcome, done,
  panicked,
}
use rs_run.Host.Tokio.{Tokio, IsTokio}
use rs_run.Runtime.{How, spawned, spawned_blocking, blocked_on, spawn, spawn_blocking, block_on}
use rs_run.Global.{
  RuntimeOptions, Makings, complete, Pool, read_pool, write_pool, bg_pool, hb_pool, GlobalRuntimes,
  unset, set, Globals, initial, init_global_runtimes, set_up, settled, force, runtime_of, World,
  hand, handed_over, spawn_in, got, get_runtime,
}
use rs_run.Global.Requests.{
  Request, init, spawns, gets, size_of, name_of, arrivals, give, given_to, serve, serve_all,
  arrived, at_first,
}
use rs_run.Global.Histories.{force_unset, force_done}
use rs_run.Global.Sizes.{SizedBy, IsUsable, first_init_done, set_up-configured_with}

module _ (X : Tokio) where
  -- The runtimes are there, or a use will get them.
  abbrev Ready : GlobalRuntimes X → Globals X → Type 0
  Ready g s =
      (s.start ≡ complete)
      × ((s.cell ≡ set g) ⊎ ((s.cell ≡ unset) × ((m : Makings) → set_up X m s ≡ done g)))

  init-Ready :
      (m : Makings) (o : RuntimeOptions) (g : GlobalRuntimes X) (s : Globals X)
      → Ready g s
      → (init_global_runtimes X m o s).1 ≡ s
  unfolding init_global_runtimes
  init-Ready m o g s (e, _) = simp (e, init_global_runtimes)

  force-Ready :
      (m : Makings) (g : GlobalRuntimes X) (s : Globals X)
      → Ready g s
      → (s' : Globals X) × (force X m s ≡ (done g, s')) × Ready g s'
  unfolding settled
  force-Ready m g s (e, inl c) = (s, force_done X m s g c, (e, inl c))
  force-Ready m g s (e, inr (c, u)) =
      ((settled X s (done g)).1, force_unset X m s c ∙ ap (settled X s) (u m), (e, inl refl))

  module _ (tokio : IsTokio X)
      (builds : (now : ℕ) (b : X.RuntimeBuilder) → (h : X.Handle) × (X.build now b ≡ ok h))
      (o : RuntimeOptions) (g : GlobalRuntimes X) (sized : SizedBy X tokio builds o g) where
    is_sized :
        (pool : Pool)
        → ((runtime_of X pool g).name ≡ name_of pool)
          × ((X.crew (runtime_of X pool g).handle).workers ≡ size_of o pool)
    unfolding size_of name_of
    is_sized read_pool = sized.0
    is_sized write_pool = sized.1
    is_sized bg_pool = sized.2
    is_sized hb_pool = sized.3

    arrived-hand :
        (how : How) (pool : Pool) (work : ℕ)
        → arrived X (hand X how pool work g) ≡ (name_of pool, size_of o pool, how, work)
    unfolding hand spawn spawn_blocking block_on
    arrived-hand spawned pool work = let (n, k) = is_sized pool in rw (n, k) refl
    arrived-hand spawned_blocking pool work = let (n, k) = is_sized pool in rw (n, k) refl
    arrived-hand blocked_on pool work = let (n, k) = is_sized pool in rw (n, k) refl

    arrived-spawn_in :
        (how : How) (pool : Pool) (work : ℕ) (m : Makings) (w : World X)
        → Ready g w.globals
        → let w' = (spawn_in X how pool work m w).1 in
          Ready g w'.globals
          × (map (arrived X) w'.handed
              ≡ map (arrived X) w.handed ++ (name_of pool, size_of o pool, how, work) ∷ [])
    unfolding spawn_in handed_over
    arrived-spawn_in how pool work m w ready =
        let (s', e, ready') = force-Ready m g w.globals ready in
        rw (e) (
          ready',
          map-append (arrived X) w.handed _
              ∙ ap (λ a. map (arrived X) w.handed ++ a ∷ []) (arrived-hand how pool work),
        )

    -- Both ways hand over the same work to the same runtime.
    given_to-got :
        (how : How) (pool : Pool) (work : ℕ) (w : World X)
        (p : Outcome (GlobalRuntimes X) × Globals X)
        → given_to X how work w (got X pool p) ≡ (handed_over X how pool work w p).1
    unfolding given_to got give handed_over hand
    given_to-got spawned pool work w (done g, s) = refl
    given_to-got spawned_blocking pool work w (done g, s) = refl
    given_to-got blocked_on pool work w (done g, s) = refl
    given_to-got how pool work w (panicked, s) = refl

    arrived-given_to :
        (how : How) (pool : Pool) (work : ℕ) (m : Makings) (w : World X)
        → Ready g w.globals
        → let w' = given_to X how work w (get_runtime X pool m w.globals) in
          Ready g w'.globals
          × (map (arrived X) w'.handed
              ≡ map (arrived X) w.handed ++ (name_of pool, size_of o pool, how, work) ∷ [])
    unfolding get_runtime spawn_in
    arrived-given_to how pool work m w ready =
        subst
          (λ w'.
            Ready g w'.globals
            × (map (arrived X) w'.handed
                ≡ map (arrived X) w.handed ++ (name_of pool, size_of o pool, how, work) ∷ []))
          (sym (given_to-got how pool work w (force X m w.globals)))
          (arrived-spawn_in how pool work m w ready)

    arrived-serve_all :
        (qs : List Request) (w : World X)
        → Ready g w.globals
        → map (arrived X) (serve_all X qs w).handed ≡ map (arrived X) w.handed ++ arrivals o qs
    unfolding serve_all serve arrivals
    arrived-serve_all [] w ready = sym (append-nil (map (arrived X) w.handed))
    arrived-serve_all (init m o' ∷ qs) w ready =
        let same : serve X (init m o') w ≡ w =
          ap (λ s. record w { globals = s }) (init-Ready m o' g w.globals ready) in
        ap (λ w'. map (arrived X) (serve_all X qs w').handed) same ∙ arrived-serve_all qs w ready
    arrived-serve_all (spawns how pool work m ∷ qs) w ready =
        let (ready', e) = arrived-spawn_in how pool work m w ready in
        arrived-serve_all qs _ ready'
        ∙ ap (λ hs. hs ++ arrivals o qs) e
        ∙ append_assoc (map (arrived X) w.handed) _ (arrivals o qs)
    arrived-serve_all (gets how pool work m ∷ qs) w ready =
        let (ready', e) = arrived-given_to how pool work m w ready in
        arrived-serve_all qs _ ready'
        ∙ ap (λ hs. hs ++ arrivals o qs) e
        ∙ append_assoc (map (arrived X) w.handed) _ (arrivals o qs)

  -- If the process starts with a call of `init_global_runtimes` with no size zero, and tokio builds
  -- the runtimes, then all that it spawns afterwards, in any of the three ways, by the functions for a
  -- pool or by those of the runtime that `bg_runtime` and its like return, and in whatever order,
  -- later calls of `init_global_runtimes` between, is handed over once and in order, each to the
  -- runtime named after its pool, which has the workers that the first options ask for.
  pub spawns_arrive :
      (tokio : IsTokio X)
      (builds : (now : ℕ) (b : X.RuntimeBuilder) → (h : X.Handle) × (X.build now b ≡ ok h))
      (m : Makings) (o : RuntimeOptions) (qs : List Request)
      → IsUsable X tokio builds o
      → map (arrived X) (serve_all X (init m o ∷ qs) (at_first X)).handed ≡ arrivals o qs
  unfolding serve_all serve
  spawns_arrive tokio builds m o qs usable =
      let (g, sized, e) = first_init_done X tokio builds m o usable in
      let ready : Ready g (init_global_runtimes X m o (initial X)).1 =
        subst (λ p. Ready g p.1) (sym e)
          (refl, inr (refl, λ m'. set_up-configured_with X tokio builds m' g)) in
      arrived-serve_all tokio builds o g sized qs _ ready
