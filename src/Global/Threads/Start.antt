-- ===== src/Global/Threads/Start.antt =====
-- The steps of the thread that is in START of src/global.rs.
use mathlib.Core.List.{Perm, perm_middle}
use mathlib.Core.List.Perm
use rs_run.Base.{
  ◌≡◌, refl, sym, ◌∙◌, ◌⊎◌, inl, inr, Bool, true, false, some, Outcome, done, panicked, ◌>>=◌,
  if◌then◌else◌, List, [], ◌∷◌, arith,
}
use rs_run.Host.Tokio.{Tokio}
use rs_run.Runtime.{Runtime}
use rs_run.Global.{
  RuntimeOptions, Makings, Once, incomplete, complete, failed, create_runtime, ConfigRuntimes,
  Globals, configure, configured, init_global_runtimes,
}
use rs_run.Global.Histories.{init_call, after}
use rs_run.Global.Threads.{
  InitStage, init_enters, init_locked, wrote_read, wrote_write, wrote_bg, init_leaves, Event,
  init_event, nobody, inits, uses, no_one, use_enters, use_locked, took, use_leaves, InStart,
  InLazy, Process, writes, init_step, event,
}
use rs_run.Global.Threads.Sim.{
  start_event, lazy_event, all_events, StartSim, CellSim, rest_read, rest_write, rest_bg, Same,
  Clean, StartHolds, LazyFree, LazyHolds, LockSim, free, by_start, by_lazy, Sim, Moved,
}

bind_later :
    {A B : Type 0} (b : Bool) (mk : Outcome A) (f : A → Outcome B)
    → (if b then panicked else (mk >>= f)) ≡ ((if b then panicked else mk) >>= f)
bind_later true mk f = refl
bind_later false mk f = refl

module _ (X : Tokio) where
  init_panics :
      (m : Makings) (o : RuntimeOptions) (a : Globals X)
      → a.start ≡ incomplete
      → configure X m o a ≡ panicked
      → init_global_runtimes X m o a ≡ (panicked, record a { start = failed; poisoned = true })
  unfolding init_global_runtimes configured
  init_panics m o a e e' = rw (e, init_global_runtimes) (rw (e') refl)

  init_ends :
      (m : Makings) (o : RuntimeOptions) (a : Globals X) (c : ConfigRuntimes X)
      → a.start ≡ incomplete
      → configure X m o a ≡ done c
      → init_global_runtimes X m o a ≡ (done tt, record a { start = complete; config = c })
  unfolding init_global_runtimes configured
  init_ends m o a c e e' = rw (e, init_global_runtimes) (rw (e') refl)

  pub init_whole :
      (m : Makings) (o : RuntimeOptions) (p p' : Process X) (a : Globals X)
      (q : Outcome (Unit {0}) × Globals X)
      → init_global_runtimes X m o a ≡ q
      → Sim X p' q.1
      → Perm (all_events X p') (init_event m o q.0 ∷ all_events X p)
      → Moved X p a p'
  unfolding after event
  init_whole m o p p' a q e sim events =
      let whole : Sim X p' (init_global_runtimes X m o a).1
          × Perm (all_events X p')
              (init_event m o (init_global_runtimes X m o a).0 ∷ all_events X p) =
        rw (e) (sim, events) in
      inr (init_call m o, whole.0, whole.1)

  abbrev with_start : Globals X → InStart X → InLazy X → Bool → List (Event X) → Process X
  with_start g i u l r = record { globals = g; in_start = i; in_lazy = u; locked = l; returned = r }

  panics-Moved :
      (m : Makings) (o : RuntimeOptions) (stage : InitStage) (g : Globals X) (u : InLazy X)
      (l : Bool) (r : List (Event X)) (a : Globals X)
      → start_event X (inits m o stage) ≡ []
      → g.start ≡ incomplete
      → a.start ≡ incomplete
      → CellSim X u g.cell a.cell
      → LazyFree X u
      → configure X m o a ≡ panicked
      → Moved X
          (with_start g (inits m o stage) u l r)
          a
          (with_start (record g { poisoned = true }) (inits m o (init_leaves panicked)) u false r)
  unfolding start_event
  panics-Moved m o stage g u l r a none_yet s t cell unlocked e =
      init_whole m o (with_start g (inits m o stage) u l r)
        (with_start (record g { poisoned = true }) (inits m o (init_leaves panicked)) u false r) a _
        (init_panics m o a t e) ((s, refl), cell, free tt unlocked refl (refl, inl refl))
        (rw (none_yet) Perm.rfl)

  -- The write of one field, behind which the closure goes on as `rest` says.
  writes-Moved :
      (m : Makings) (o : RuntimeOptions) (stage next : InitStage)
      (write : Runtime X → ConfigRuntimes X) (later : ConfigRuntimes X → Outcome (ConfigRuntimes X))
      (made : Outcome (Runtime X)) (g : Globals X) (u : InLazy X) (l : Bool) (r : List (Event X))
      (a : Globals X)
      → start_event X (inits m o stage) ≡ []
      → start_event X (inits m o next) ≡ []
      → g.start ≡ incomplete
      → a.start ≡ incomplete
      → StartSim X (inits m o next) g.start a.start
      → CellSim X u g.cell a.cell
      → LazyFree X u
      → l ≡ true
      → configure X m o a ≡ (made >>= λ x. later (write x))
      → ((x : Runtime X)
          → made ≡ done x
          → configure X m o a ≡ later (write x)
          → StartHolds X (inits m o next) (record g { config = write x }) a)
      → let p = with_start g (inits m o stage) u l r in Moved X p a (writes X m o next write made p)
  unfolding writes
  writes-Moved m o stage next write later (done x) g u l r a none_yet none s t sim cell unlocked
        locked e holds =
      inl ((sim, cell, by_start (holds x refl e) unlocked locked), rw (none_yet, none) Perm.rfl)
  writes-Moved m o stage next write later panicked g u l r a none_yet none s t sim cell unlocked
        locked e holds =
      panics-Moved m o stage g u l r a none_yet s t cell unlocked e

  -- The last write.
  last-Moved :
      (m : Makings) (o : RuntimeOptions) (write : Runtime X → ConfigRuntimes X)
      (made : Outcome (Runtime X)) (g : Globals X) (u : InLazy X) (l : Bool) (r : List (Event X))
      (a : Globals X)
      → g.start ≡ incomplete
      → a.start ≡ incomplete
      → CellSim X u g.cell a.cell
      → LazyFree X u
      → Clean X g a
      → configure X m o a ≡ (made >>= λ x. done (write x))
      → let p = with_start g (inits m o wrote_bg) u l r in
        Moved X p a (record (writes X m o (init_leaves (done tt)) write made p) { locked = false })
  unfolding writes start_event
  last-Moved m o write (done x) g u l r a s t cell unlocked (pa, pg) e =
      init_whole m o (with_start g (inits m o wrote_bg) u l r) _ a _ (init_ends m o a (write x) t e)
        ((s, refl), cell, free tt unlocked refl (pa ∙ sym pg, inr refl)) Perm.rfl
  last-Moved m o write panicked g u l r a s t cell unlocked clean e =
      panics-Moved m o wrote_bg g u l r a refl s t cell unlocked e

  -- What the closure makes first, and what it does afterwards.
  abbrev first : Makings → RuntimeOptions → Globals X → Outcome (Runtime X)
  first m o g =
      if g.poisoned
      then panicked
      else if g.config.already_init
      then panicked
      else create_runtime X m.read "global-read" "global-read-worker" o.read_rt_size

  configure-first :
      (m : Makings) (o : RuntimeOptions) (g a : Globals X)
      → Same X g a
      → configure X m o a
        ≡ (first m o g >>= λ x. rest_read X m o (record g.config { read_runtime = some x }))
  unfolding configure
  configure-first m o g a (p, q) = go g.poisoned refl q
    where
      go :
          (b : Bool)
          → g.poisoned ≡ b
          → ((g.poisoned ≡ true) ⊎ (a.config ≡ g.config))
          → configure X m o a
            ≡ (first m o g >>= λ x. rest_read X m o (record g.config { read_runtime = some x }))
      go true e _ = rw (p, e) refl
      go false e (inl e') = ground arith
      go false e (inr c) = rw (p, e, c) (bind_later g.config.already_init _ _)

  first-Clean :
      (m : Makings) (o : RuntimeOptions) (g a : Globals X) (x : Runtime X)
      → Same X g a
      → first m o g ≡ done x
      → Clean X g a
  first-Clean m o g a x (p, _) e = go g.poisoned refl e
    where
      go : (b : Bool) → g.poisoned ≡ b → first m o g ≡ done x → Clean X g a
      go true e' e = ground arith
      go false e' e = (p ∙ e', e')

  -- START is not behind the lock.
  pub LazyHolds-start :
      (u : InLazy X) (g a : Globals X) (s t : Once)
      → LazyHolds X u g a
      → LazyHolds X u (record g { start = s }) (record a { start = t })
  LazyHolds-start no_one g a s t h = h
  LazyHolds-start (uses m use_enters) g a s t h = h
  LazyHolds-start (uses m use_locked) g a s t h = h
  LazyHolds-start (uses m (took c)) g a s t h = h
  LazyHolds-start (uses m (use_leaves r)) g a s t h = h

  left :
      (m : Makings) (o : RuntimeOptions) (v : Outcome (Unit {0})) (u : InLazy X) (l : Bool)
      (g a : Globals X) (s : Once)
      → LockSim X (inits m o (init_leaves v)) u l g a
      → LockSim X nobody u l (record g { start = s }) a
  left m o v u l g a s (free _ unlocked e same) = free tt unlocked e same
  left m o v u l g a s (by_start h _ _) = absurd h
  left m o v u l g a s (by_lazy _ h e) = by_lazy tt (LazyHolds-start u g a s a.start h) e

  pub init_step-Moved :
      (m : Makings) (o : RuntimeOptions) (stage : InitStage) (g : Globals X) (u : InLazy X)
      (l : Bool) (r : List (Event X)) (a : Globals X)
      → let p = with_start g (inits m o stage) u l r in
        Sim X p a → Moved X p a (init_step X m o stage p)
  unfolding init_step start_event
  init_step-Moved m o init_enters g u true r a sim = inl (sim, Perm.rfl)
  init_step-Moved m o init_enters g u false r a (start, cell, free _ unlocked e same) =
      inl ((start, cell, by_start same unlocked refl), Perm.rfl)
  init_step-Moved m o init_enters g u false r a (start, cell, by_start h _ _) = absurd h
  init_step-Moved m o init_enters g u false r a (start, cell, by_lazy _ _ e) = ground arith
  init_step-Moved m o init_locked g u l r a (start, cell, free f _ _ _) = absurd f
  init_step-Moved m o init_locked g u l r a ((s, t), cell, by_start same unlocked e) =
      writes-Moved m o init_locked wrote_read (λ x. record g.config { read_runtime = some x })
        (rest_read X m o) (first m o g) g u l r a refl refl s t (s, t) cell unlocked e
        (configure-first m o g a same) (λ x made e'. (first-Clean m o g a x same made, e'))
  init_step-Moved m o init_locked g u l r a (start, cell, by_lazy f _ _) = absurd f
  init_step-Moved m o wrote_read g u l r a (start, cell, free f _ _ _) = absurd f
  init_step-Moved m o wrote_read g u l r a ((s, t), cell, by_start (clean, e') unlocked e) =
      writes-Moved m o wrote_read wrote_write (λ x. record g.config { write_runtime = some x })
        (rest_write X m o) _ g u l r a refl refl s t (s, t) cell unlocked e e'
        (λ x made e'. (clean, e'))
  init_step-Moved m o wrote_read g u l r a (start, cell, by_lazy f _ _) = absurd f
  init_step-Moved m o wrote_write g u l r a (start, cell, free f _ _ _) = absurd f
  init_step-Moved m o wrote_write g u l r a ((s, t), cell, by_start (clean, e') unlocked e) =
      writes-Moved m o wrote_write wrote_bg (λ x. record g.config { bg_runtime = some x })
        (rest_bg X m o) _ g u l r a refl refl s t (s, t) cell unlocked e e'
        (λ x made e'. (clean, e'))
  init_step-Moved m o wrote_write g u l r a (start, cell, by_lazy f _ _) = absurd f
  init_step-Moved m o wrote_bg g u l r a (start, cell, free f _ _ _) = absurd f
  init_step-Moved m o wrote_bg g u l r a ((s, t), cell, by_start (clean, e') unlocked e) =
      last-Moved m o (λ x. record g.config { hb_runtime = some x }) _ g u l r a s t cell unlocked
        clean e'
  init_step-Moved m o wrote_bg g u l r a (start, cell, by_lazy f _ _) = absurd f
  init_step-Moved m o (init_leaves (done v)) g u l r a ((s, t), cell, lock) =
      inl ((t, cell, left m o (done v) u l g a complete lock), perm_middle (lazy_event X u) r)
  init_step-Moved m o (init_leaves panicked) g u l r a ((s, t), cell, lock) =
      inl ((t, cell, left m o panicked u l g a failed lock), perm_middle (lazy_event X u) r)
