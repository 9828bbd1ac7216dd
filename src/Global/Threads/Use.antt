-- ===== src/Global/Threads/Use.antt =====
-- The steps of the thread that is in GLOBAL_RUNTIMES of src/global.rs.
use mathlib.Core.List.{Perm, perm_middle}
use mathlib.Core.List.Perm
use rs_run.Base.{
  ◌≡◌, refl, sym, ap, subst, ◌∙◌, ◌⊎◌, inl, inr, Bool, true, false, Outcome, done, panicked,
  if◌then◌else◌, List, [], ◌∷◌, arith,
}
use rs_run.Host.Tokio.{Tokio}
use rs_run.Global.{
  Makings, GlobalRuntimes, new, Cell, unset, set, spoilt, Globals, taken, set_up, settled, force,
}
use rs_run.Global.Histories.{use_call, after, force_unset}
use rs_run.Global.Threads.{
  init_enters, init_locked, wrote_read, wrote_write, wrote_bg, init_leaves, Event, use_event,
  UseStage, use_enters, use_locked, took, use_leaves, InStart, nobody, inits, InLazy, no_one, uses,
  Process, makes, use_step, event,
}
use rs_run.Global.Threads.Sim.{
  start_event, lazy_event, all_events, StartSim, Clean, StartHolds, StartFree, LockSim, free,
  by_start, by_lazy, Sim, Moved,
}

module _ (X : Tokio) where
  pub use_whole :
      (m : Makings) (p p' : Process X) (a : Globals X) (q : Outcome (GlobalRuntimes X) × Globals X)
      → force X m a ≡ q
      → Sim X p' q.1
      → Perm (all_events X p') (use_event m q.0 ∷ all_events X p)
      → Moved X p a p'
  unfolding after event
  use_whole m p p' a q e sim events =
      let whole : Sim X p' (force X m a).1
          × Perm (all_events X p') (use_event m (force X m a).0 ∷ all_events X p) =
        rw (e) (sim, events) in
      inr (use_call m, whole.0, whole.1)

  abbrev with_lazy : Globals X → InStart X → InLazy X → Bool → List (Event X) → Process X
  with_lazy g i u l r = record { globals = g; in_start = i; in_lazy = u; locked = l; returned = r }

  -- The end of the closure, with runtimes or a panic.
  makes-Moved :
      (m : Makings) (stage : UseStage X) (q : Outcome (GlobalRuntimes X)) (g : Globals X)
      (i : InStart X) (l : Bool) (r : List (Event X)) (a : Globals X)
      → lazy_event X (uses m stage) ≡ []
      → StartSim X i g.start a.start
      → g.cell ≡ unset
      → a.cell ≡ unset
      → StartFree X i
      → set_up X m a ≡ q
      → ((made : GlobalRuntimes X) → q ≡ done made → Clean X g a × (g.config ≡ taken X true))
      → let p = with_lazy g i (uses m stage) l r in Moved X p a (makes X m q p)
  unfolding makes settled lazy_event
  makes-Moved m stage (done made) g i l r a none start s t unlocked e clean =
      let ((pa, pg), c) = clean made refl in
      let p = with_lazy g i (uses m stage) l r in
      use_whole m p (makes X m (done made) p) a _ (force_unset X m a t ∙ ap (settled X a) e)
        (start, (s, refl), free unlocked tt refl (pa ∙ sym pg, inr (sym c)))
        (rw (none) (perm_middle (start_event X i) r))
  makes-Moved m stage panicked g i l r a none start s t unlocked e clean =
      let p = with_lazy g i (uses m stage) l r in
      use_whole m p (makes X m panicked p) a _ (force_unset X m a t ∙ ap (settled X a) e)
        (start, (s, refl), free unlocked tt refl (refl, inl refl))
        (rw (none) (perm_middle (start_event X i) r))

  -- GLOBAL_RUNTIMES is not behind the lock.
  StartHolds-cell :
      (i : InStart X) (g a : Globals X) (s : Cell X)
      → StartHolds X i g a
      → StartHolds X i (record g { cell = s }) a
  StartHolds-cell nobody g a s h = h
  StartHolds-cell (inits m o init_enters) g a s h = h
  StartHolds-cell (inits m o init_locked) g a s h = h
  StartHolds-cell (inits m o wrote_read) g a s h = h
  StartHolds-cell (inits m o wrote_write) g a s h = h
  StartHolds-cell (inits m o wrote_bg) g a s h = h
  StartHolds-cell (inits m o (init_leaves r)) g a s h = h

  left :
      (m : Makings) (v : Outcome (GlobalRuntimes X)) (i : InStart X) (l : Bool) (g a : Globals X)
      (s : Cell X)
      → LockSim X i (uses m (use_leaves v)) l g a
      → LockSim X i no_one l (record g { cell = s }) a
  left m v i l g a s (free f _ e same) = free f tt e same
  left m v i l g a s (by_start h _ e) = by_start (StartHolds-cell i g a s h) tt e
  left m v i l g a s (by_lazy _ h _) = absurd h

  pub use_step-Moved :
      (m : Makings) (stage : UseStage X) (g : Globals X) (i : InStart X) (l : Bool)
      (r : List (Event X)) (a : Globals X)
      → let p = with_lazy g i (uses m stage) l r in Sim X p a → Moved X p a (use_step X m stage p)
  unfolding use_step lazy_event set_up
  use_step-Moved m use_enters g i true r a sim = inl (sim, Perm.rfl)
  use_step-Moved m use_enters g i false r a (start, cell, free f _ e same) =
      inl ((start, cell, by_lazy f same refl), Perm.rfl)
  use_step-Moved m use_enters g i false r a (start, cell, by_start _ _ e) = ground arith
  use_step-Moved m use_enters g i false r a (start, cell, by_lazy _ h _) = absurd h
  use_step-Moved m use_locked g i l r a (start, cell, free _ f _ _) = absurd f
  use_step-Moved m use_locked g i l r a (start, cell, by_start _ f _) = absurd f
  use_step-Moved m use_locked g i l r a (start, (s, t), by_lazy unlocked (p, q) e) =
      go g.poisoned refl q
    where
      before : Process X
      before = with_lazy g i (uses m use_locked) l r

      found : Bool → Process X
      found b = if b then makes X m panicked before else record before {
        globals = record g { config = taken X true };
        in_lazy = uses m (took g.config);
      }

      go :
          (b : Bool)
          → g.poisoned ≡ b
          → (g.poisoned ≡ true) ⊎ (a.config ≡ g.config)
          → Moved X before a (use_step X m use_locked before)
      go true e' _ =
          subst (λ b. Moved X before a (found b)) (sym e')
            (makes-Moved m use_locked panicked g i l r a refl start s t unlocked (rw (p, e') refl)
              (λ made no. ground arith))
      go false e' (inl e'') = ground arith
      go false e' (inr c) =
          subst (λ b. Moved X before a (found b)) (sym e')
            (inl ((start, (s, t), by_lazy unlocked ((p ∙ e', e'), c, refl) e), Perm.rfl))
  use_step-Moved m (took c) g i l r a (start, cell, free _ f _ _) = absurd f
  use_step-Moved m (took c) g i l r a (start, cell, by_start _ f _) = absurd f
  use_step-Moved m (took c) g i l r a (start, (s, t), by_lazy unlocked ((pa, pg), e', e'') e) =
      makes-Moved m (took c) (new X m c) g i l r a refl start s t unlocked (rw (pa, e') refl)
        (λ made _. ((pa, pg), e''))
  use_step-Moved m (use_leaves (done made)) g i l r a (start, (s, t), lock) =
      inl ((start, t, left m (done made) i l g a (set made) lock), Perm.rfl)
  use_step-Moved m (use_leaves panicked) g i l r a (start, (s, t), lock) =
      inl ((start, t, left m panicked i l g a spoilt lock), Perm.rfl)
