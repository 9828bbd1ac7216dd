-- ===== src/PendingFuture/Course.antt =====
-- The course that an inner future takes below a wrapper: some of the polls of the wrapper poll it, once
-- each, until it is ready.
use rs_run.Base.{
  ℕ, List, [], ◌∷◌, ◌≡◌, refl, sym, subst, ◌⊎◌, inl, inr, ◌∙◌, Outcome, done, Returns, Returns-map,
  arith,
}
use rs_run.Host.{Poll, ready, pending, Context, Future}
use rs_run.PendingFuture.Drive.{drive, drive_step}

module _ {Output : Type 0} (F : Future Output) {Reading : Type 0} (at : Reading → ℕ) where
  -- From a state, over polls of the wrapper with these readings, to a result and a state. The contexts
  -- are those that the wrapper hands on.
  pub data Course : List Reading → F.State → Poll Output → F.State → Type 0 where
    stays : (s : F.State) → Course [] s pending s
    skips :
        (r : Reading) (rs : List Reading) (s : F.State) (res : Poll Output) (s' : F.State)
        → Course rs s res s'
        → Course (r ∷ rs) s res s'
    polls :
        (r : Reading) (rs : List Reading) (s : F.State) (cx : Context) (res : Poll Output)
        (s' : F.State)
        → (F.poll (at r) s cx).0 ≡ pending
        → Course rs (F.poll (at r) s cx).1 res s'
        → Course (r ∷ rs) s res s'
    ends :
        (r : Reading) (rs : List Reading) (s : F.State) (cx : Context) (out : Output)
        → (F.poll (at r) s cx).0 ≡ ready out
        → Course (r ∷ rs) s (ready out) (F.poll (at r) s cx).1

  module _ {Task : Type 0} (result : Task → Poll Output) (future : Task → F.State)
      (step : Reading → Task → Outcome Task) where
    -- One poll of the wrapper leaves the inner future as it is and is pending, or it polls it once and
    -- returns what that returned.
    abbrev pub Seen : Reading → F.State → Task → Type 0
    Seen r s w =
        ((result w ≡ pending) × (future w ≡ s))
        ⊎ ((cx : Context) × ((F.poll (at r) s cx).0 ≡ result w)
            × (future w ≡ (F.poll (at r) s cx).1))

    drive_over :
        (rs : List Reading) (v : Task) (out : Output)
        → result v ≡ ready out
        → drive result step rs v ≡ done v
    unfolding drive
    drive_over [] v out e = refl
    drive_over (r ∷ rs) v out e = rw (e, drive) refl

    abbrev Goes : List Reading → F.State → Task → Type 0
    Goes rs s w = Course rs s (result w) (future w)

    -- A run below the round that polls the inner future, or does not.
    after_round :
        (r : Reading) (rs : List Reading) (s : F.State) (w : Task)
        → Seen r s w
        → (result w ≡ pending → Returns (drive result step rs w) (Goes rs (future w)))
        → Returns (drive result step rs w) (Goes (r ∷ rs) s)
    after_round r rs s w (inl (e, same)) rest =
        Returns-map (drive result step rs w)
          (λ u c. skips r rs s (result u) (future u) (subst (λ t. Goes rs t u) same c)) (rest e)
    after_round r rs s w (inr (cx, e, same)) rest = go (result w) refl
      where
        go :
            (res : Poll Output)
            → result w ≡ res
            → Returns (drive result step rs w) (Goes (r ∷ rs) s)
        go pending e' =
            Returns-map (drive result step rs w)
              (λ u c.
                polls r rs s cx (result u) (future u) (e ∙ e') (subst (λ t. Goes rs t u) same c))
              (rest e')
        go (ready out) e' = rw (drive_over rs w out e') (
            subst (λ t. Course (r ∷ rs) s (result w) t) (sym same)
              (subst (λ res. Course (r ∷ rs) s res (F.poll (at r) s cx).1) (sym e')
                (ends r rs s cx out (e ∙ e'))))

    -- So the inner future takes its course below each run of the executor.
    pub drive-Course :
        ((r : Reading) (v : Task) → Returns (step r v) (Seen r (future v)))
        → (rs : List Reading) (v : Task) → result v ≡ pending
        → Returns (drive result step rs v) (Goes rs (future v))
    unfolding drive
    drive-Course seen [] v e =
        subst (λ res. Course [] (future v) res (future v)) (sym e) (stays (future v))
    drive-Course seen (r ∷ rs) v e =
        drive_step result step _ r rs v (λ out e'. absurd (ground arith))
          (λ _.
            Returns-map (step r v) (λ w h. after_round r rs (future v) w h (drive-Course seen rs w))
              (seen r v))
