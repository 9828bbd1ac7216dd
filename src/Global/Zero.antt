-- ===== src/Global/Zero.antt =====
-- A call of `init_global_runtimes` of src/global.rs that fails.
use Prim.Native.String.{String}
use rs_run.Base.{
  ◌≡◌, refl, sym, ap, subst, ◌⊎◌, inl, inr, true, List, [], ◌∷◌, Outcome, done, panicked,
}
use rs_run.Host.Tokio.{Tokio, IsTokio}
use rs_run.Runtime.{Runtime, default, runtime_name, thread_name, worker_threads}
use rs_run.Global.{
  RuntimeOptions, Making, Makings, failed, create_runtime, unset, spoilt, Globals, initial,
  configure, configured, init_global_runtimes, set_up, settled, force,
}
use rs_run.Global.Histories.{Call, init_call, use_call, after, after_all, force_unset, force_spoilt}

module _ (X : Tokio) (tokio : IsTokio X) where
  create_runtime_zero :
      (m : Making) (name thread : String) → create_runtime X m name thread 0 ≡ panicked
  unfolding create_runtime worker_threads runtime_name thread_name default
  create_runtime_zero m name thread = rw (tokio.worker_threads_zero X.new_multi_thread) refl

  abbrev pub HasZero : RuntimeOptions → Type 0
  HasZero o = (o.read_rt_size ≡ 0) ⊎ (o.write_rt_size ≡ 0) ⊎ (o.bg_rt_size ≡ 0)

  configure_zero :
      (m : Makings) (o : RuntimeOptions) → HasZero o → configure X m o (initial X) ≡ panicked
  unfolding configure
  configure_zero m o (inl e) =
      rw (e, create_runtime_zero m.read "global-read" "global-read-worker") refl
  configure_zero m o (inr (inl e)) =
      go (create_runtime X m.read "global-read" "global-read-worker" o.read_rt_size) refl
    where
      go :
          (a : Outcome (Runtime X))
          → create_runtime X m.read "global-read" "global-read-worker" o.read_rt_size ≡ a
          → configure X m o (initial X) ≡ panicked
      go panicked e' = rw (e', configure) refl
      go (done r) e' =
          rw (e', configure, e, create_runtime_zero m.write "global-write" "global-write-worker")
            refl
  configure_zero m o (inr (inr e)) =
      go (create_runtime X m.read "global-read" "global-read-worker" o.read_rt_size)
        (create_runtime X m.write "global-write" "global-write-worker" o.write_rt_size) refl refl
    where
      go :
          (a b : Outcome (Runtime X))
          → create_runtime X m.read "global-read" "global-read-worker" o.read_rt_size ≡ a
          → create_runtime X m.write "global-write" "global-write-worker" o.write_rt_size ≡ b
          → configure X m o (initial X) ≡ panicked
      go panicked b e' e'' = rw (e', configure) refl
      go (done r) panicked e' e'' = rw (e', configure, e'') refl
      go (done r) (done w) e' e'' =
          rw (e', configure, e'', e, create_runtime_zero m.bg "global-bg" "global-bg-worker") refl

  abbrev Dead : Globals X → Type 0
  Dead s = (s.start ≡ failed) × (s.poisoned ≡ true) × ((s.cell ≡ unset) ⊎ (s.cell ≡ spoilt))

  force-Dead :
      (m : Makings) (s : Globals X) → Dead s → ((force X m s).0 ≡ panicked) × Dead (force X m s).1
  unfolding set_up settled
  force-Dead m s (a, b, inl e) =
      subst (λ p. (p.0 ≡ panicked) × Dead p.1) (sym (force_unset X m s e))
        (subst (λ o. ((settled X s o).0 ≡ panicked) × Dead (settled X s o).1) (sym (dead_set_up b))
          (refl, (a, refl, inr refl)))
    where
      dead_set_up : s.poisoned ≡ true → set_up X m s ≡ panicked
      dead_set_up b' = simp (b', set_up)
  force-Dead m s (a, b, inr e) =
      subst (λ p. (p.0 ≡ panicked) × Dead p.1) (sym (force_spoilt X m s e)) (refl, (a, b, inr e))

  init-Dead :
      (m : Makings) (o : RuntimeOptions) (s : Globals X)
      → Dead s
      → init_global_runtimes X m o s ≡ (panicked, s)
  unfolding init_global_runtimes
  init-Dead m o s (a, b, c) = simp (a, init_global_runtimes)

  after_all-Dead : (cs : List Call) (s : Globals X) → Dead s → Dead (after_all X cs s)
  unfolding after_all after
  after_all-Dead [] s h = h
  after_all-Dead (init_call m o ∷ cs) s h =
      after_all-Dead cs _ (subst (λ p. Dead p.1) (sym (init-Dead m o s h)) h)
  after_all-Dead (use_call m ∷ cs) s h = after_all-Dead cs _ (force-Dead m s h).1

  -- A first call of `init_global_runtimes` with a size of zero panics, and whatever is called after
  -- that, every use of the global runtimes panics, and every further call of `init_global_runtimes`.
  pub zero_size_spoils :
      (m m' m'' : Makings) (o o' : RuntimeOptions) (cs : List Call)
      → HasZero o
      → let first = init_global_runtimes X m o (initial X) in
        let s = after_all X cs first.1 in
        (first.0 ≡ panicked)
        × ((force X m' s).0 ≡ panicked)
        × ((init_global_runtimes X m'' o' s).0 ≡ panicked)
  unfolding init_global_runtimes configured
  zero_size_spoils m m' m'' o o' cs zero_size =
      let fails : init_global_runtimes X m o (initial X)
          ≡ (panicked, record (initial X) { start = failed; poisoned = true }) =
        ap (configured X (initial X)) (configure_zero m o zero_size) in
      let dead = after_all-Dead cs _ (subst (λ p. Dead p.1) (sym fails) (refl, refl, inl refl)) in
      (ap (λ p. p.0) fails, (force-Dead m' _ dead).0, ap (λ p. p.0) (init-Dead m'' o' _ dead))
