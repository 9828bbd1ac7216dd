-- ===== src/Global/Threads/Linear.antt =====
-- Threads that use src/global.rs at once, against calls that follow each other.
use mathlib.Core.List.{Perm, perm_append_singleton, append-nil, append_assoc}
use mathlib.Core.List.Perm
use rs_run.Base.{◌≡◌, refl, sym, ap, subst, inl, inr, List, [], ◌∷◌, ◌++◌}
use rs_run.Host.Tokio.{Tokio}
use rs_run.Global.{Globals, initial}
use rs_run.Global.Histories.{Call, after, after_all}
use rs_run.Global.Threads.{Event, Process, Move, step, run, at_start, event, events}
use rs_run.Global.Threads.Sim.{start_event, lazy_event, all_events, LockSim, free, Sim, Moved}
use rs_run.Global.Threads.Calls.{step-Moved}

module _ (X : Tokio) where
  after_all-append :
      (h h' : List Call) (s : Globals X)
      → after_all X (h ++ h') s ≡ after_all X h' (after_all X h s)
  unfolding after_all
  after_all-append [] h' s = refl
  after_all-append (c ∷ h) h' s = after_all-append h h' (after X c s)

  events-append :
      (h h' : List Call) (s : Globals X)
      → events X (h ++ h') s ≡ events X h s ++ events X h' (after_all X h s)
  unfolding events after_all
  events-append [] h' s = refl
  events-append (c ∷ h) h' s = ap (λ es. event X c s ∷ es) (events-append h h' (after X c s))

  -- The process is where these calls, one after the other, have brought it, and they have ended so.
  abbrev IsAfter : Process X → List Call → Type 0
  IsAfter p h = Sim X p (after_all X h (initial X)) × Perm (all_events X p) (events X h (initial X))

  one_more :
      (p : Process X) (h : List Call) (c : Call) (es : List (Event X))
      → Sim X p (after X c (after_all X h (initial X)))
      → Perm es (events X h (initial X))
      → Perm (all_events X p) (event X c (after_all X h (initial X)) ∷ es)
      → IsAfter p (h ++ c ∷ [])
  unfolding after_all events
  one_more p h c es sim old new =
      let e = event X c (after_all X h (initial X)) in
      rw (after_all-append h (c ∷ []) (initial X), events-append h (c ∷ []) (initial X))
        (
          sim,
          Perm.trans new (
              Perm.trans (Perm.cons e old)
                (Perm.symm (perm_append_singleton e (events X h (initial X))))),
        )

  Moved-IsAfter :
      (p p' : Process X) (h : List Call)
      → Perm (all_events X p) (events X h (initial X))
      → Moved X p (after_all X h (initial X)) p'
      → (h' : List Call) × IsAfter p' (h ++ h')
  Moved-IsAfter p p' h old (inl (sim, same)) =
      ([], subst (IsAfter p') (sym (append-nil h)) (sim, Perm.trans same old))
  Moved-IsAfter p p' h old (inr (c, sim, new)) =
      (c ∷ [], one_more p' h c (all_events X p) sim old new)

  run-IsAfter :
      (mvs : List (Move X)) (p : Process X) (h : List Call)
      → IsAfter p h
      → (h' : List Call) × IsAfter (run X mvs p) (h ++ h')
  unfolding run
  run-IsAfter [] p h at = ([], subst (IsAfter p) (sym (append-nil h)) at)
  run-IsAfter (mv ∷ mvs) p h (sim, old) =
      let moved = step-Moved X mv p (after_all X h (initial X)) sim in
      let (new, at) = Moved-IsAfter p (step X mv p) h old moved in
      let (newer, at') = run-IsAfter mvs (step X mv p) (h ++ new) at in
      (new ++ newer, subst (IsAfter (run X mvs (step X mv p))) (append_assoc h new newer) at')

  pub run-append :
      (now later : List (Move X)) (p : Process X)
      → run X (now ++ later) p ≡ run X later (run X now p)
  unfolding run
  run-append [] later p = refl
  run-append (mv ∷ now) later p = run-append now later (step X mv p)

  -- Who has the lock after any moves.
  pub run-LockSim :
      (mvs : List (Move X))
      → let p = run X mvs (at_start X) in
        (a : Globals X) × LockSim X p.in_start p.in_lazy p.locked p.globals a
  unfolding start_event lazy_event events after_all
  run-LockSim mvs =
      let (h, at) =
        run-IsAfter mvs (at_start X) []
          ((refl, refl, free tt tt refl (refl, inr refl)), Perm.rfl) in
      (after_all X h (initial X), at.0.2)

  -- However threads call `init_global_runtimes` and use the global runtimes at the same time, there is
  -- an order of calls, one after the other, in which each ends as it does here: those that have
  -- returned, and those whose effect is there already. What is called later comes later in that order.
  pub calls_linear :
      (now later : List (Move X))
      → (h h' : List Call) × Perm (all_events X (run X now (at_start X))) (events X h (initial X))
        × Perm (all_events X (run X (now ++ later) (at_start X))) (events X (h ++ h') (initial X))
  unfolding start_event lazy_event events after_all
  calls_linear now later =
      let (h, at) =
        run-IsAfter now (at_start X) []
          ((refl, refl, free tt tt refl (refl, inr refl)), Perm.rfl) in
      let (h', at') = run-IsAfter later (run X now (at_start X)) h at in
      (h, h', at.1, rw (run-append now later (at_start X)) at'.1)
