-- ===== src/Global/Histories.antt =====
-- Calls of `init_global_runtimes` and uses of the global runtimes of src/global.rs, in any order.
use rs_run.Base.{◌≡◌, refl, sym, subst, List, [], ◌∷◌, Outcome, done, panicked, arith}
use rs_run.Host.Tokio.{Tokio}
use rs_run.Global.{
  RuntimeOptions, Makings, Once, incomplete, complete, failed, GlobalRuntimes, ConfigRuntimes, Cell,
  unset, set, spoilt, Globals, configure, configured, init_global_runtimes, set_up, settled, force,
}

pub data Call : Type 0 where
  init_call : Makings → RuntimeOptions → Call
  use_call : Makings → Call

module _ (X : Tokio) where
  -- A call that panics leaves the state to the calls after it.
  unfoldable pub after : Call → Globals X → Globals X
  after (init_call m options) s = (init_global_runtimes X m options s).1
  after (use_call m) s = (force X m s).1

  unfoldable pub after_all : List Call → Globals X → Globals X
  after_all [] s = s
  after_all (c ∷ cs) s = after_all cs (after c s)

  pub force_unset :
      (m : Makings) (s : Globals X) → s.cell ≡ unset → force X m s ≡ settled X s (set_up X m s)
  unfolding force
  force_unset m s e = simp (e, force)

  pub force_done :
      (m : Makings) (s : Globals X) (g : GlobalRuntimes X)
      → s.cell ≡ set g
      → force X m s ≡ (done g, s)
  unfolding force
  force_done m s g e = simp (e, force)

  pub force_spoilt : (m : Makings) (s : Globals X) → s.cell ≡ spoilt → force X m s ≡ (panicked, s)
  unfolding force
  force_spoilt m s e = simp (e, force)

  after-cell :
      (c : Call) (s : Globals X) (g : GlobalRuntimes X) → s.cell ≡ set g → (after c s).cell ≡ set g
  unfolding after init_global_runtimes force configured
  after-cell (init_call m options) s g e = go s.start refl
    where
      ends : (o : Outcome (ConfigRuntimes X)) → (configured X s o).1.cell ≡ set g
      ends (done c) = e
      ends panicked = e

      go : (o : Once) → s.start ≡ o → (init_global_runtimes X m options s).1.cell ≡ set g
      go incomplete e' = rw (e', init_global_runtimes) (ends (configure X m options s))
      go complete e' = simp (e', init_global_runtimes) e
      go failed e' = simp (e', init_global_runtimes) e
  after-cell (use_call m) s g e = subst (λ p. p.1.cell ≡ set g) (sym (force_done m s g e)) e

  pub after_all-cell :
      (cs : List Call) (s : Globals X) (g : GlobalRuntimes X)
      → s.cell ≡ set g
      → (after_all cs s).cell ≡ set g
  unfolding after_all
  after_all-cell [] s g e = e
  after_all-cell (c ∷ cs) s g e = after_all-cell cs (after c s) g (after-cell c s g e)

  pub force-set :
      (m : Makings) (s : Globals X) (g : GlobalRuntimes X)
      → s.cell ≡ set g
      → (force X m s).0 ≡ done g
  unfolding force
  force-set m s g e = simp (e, force)

  pub force-cell :
      (m : Makings) (s : Globals X) (g : GlobalRuntimes X)
      → (force X m s).0 ≡ done g
      → (force X m s).1.cell ≡ set g
  unfolding force settled
  force-cell m s g e = go s.cell refl
    where
      ends :
          (o : Outcome (GlobalRuntimes X))
          → (settled X s o).0 ≡ done g
          → (settled X s o).1.cell ≡ set g
      ends (done g') e' = ground arith
      ends panicked e' = absurd (ground arith)

      go : (c : Cell X) → s.cell ≡ c → (force X m s).1.cell ≡ set g
      go unset e' =
          subst (λ p. p.0 ≡ done g → p.1.cell ≡ set g) (sym (force_unset m s e'))
            (ends (set_up X m s)) e
      go (set g') e' =
          subst (λ p. p.0 ≡ done g → p.1.cell ≡ set g) (sym (force_done m s g' e'))
            (λ d. ground arith) e
      go spoilt e' =
          subst (λ p. p.0 ≡ done g → p.1.cell ≡ set g) (sym (force_spoilt m s e'))
            (λ d. absurd (ground arith)) e

  -- The global runtimes stay what they are: once a use has got them, every later use gets the same
  -- ones, whatever other uses and calls of `init_global_runtimes` come in between.
  pub force_keeps :
      (m m' : Makings) (cs : List Call) (s : Globals X) (g : GlobalRuntimes X)
      → (force X m s).0 ≡ done g
      → (force X m' (after_all cs (force X m s).1)).0 ≡ done g
  force_keeps m m' cs s g e =
      force-set m' _ g (after_all-cell cs (force X m s).1 g (force-cell m s g e))
