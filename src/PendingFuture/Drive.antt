-- ===== src/PendingFuture/Drive.antt =====
-- An executor that polls a task again and again, as long as it is pending. The task is any state with
-- a result, and one poll is any step of it that may panic.
use rs_run.Base.{
  ℕ, suc, List, [], ◌∷◌, ◌≡◌, refl, ap, ◌∙◌, Outcome, done, ◌>>=◌, Returns, Returns-map,
  Returns-bind, length,
}
use rs_run.Host.{Poll, ready, pending}

-- A future that is polled without a wrapper.
module _ {Reading State Output : Type 0} (poll : Reading → State → State)
    (over : State → Poll Output) where
  unfoldable pub drive_bare : List Reading → State → State
  drive_bare [] s = s
  drive_bare (r ∷ rs) s = elim (over s) [ ready _ ↦ s | pending ↦ drive_bare rs (poll r s) ]

module _ {Reading Task Output : Type 0} (result : Task → Poll Output)
    (step : Reading → Task → Outcome Task) where
  -- One poll for each of the readings, up to the first that is ready.
  unfoldable pub drive : List Reading → Task → Outcome Task
  drive [] v = done v
  drive (r ∷ rs) v = elim (result v) [ ready _ ↦ done v | pending ↦ step r v >>= λ w. drive rs w ]

  -- One round: a task that is ready is left alone, another is polled and the rounds go on.
  pub drive_step :
      (P : Task → Type 0) (r : Reading) (rs : List Reading) (v : Task)
      → ((out : Output) → result v ≡ ready out → P v)
      → (result v ≡ pending → Returns (step r v) (λ w. Returns (drive rs w) P))
      → Returns (drive (r ∷ rs) v) P
  unfolding drive
  drive_step P r rs v stop on = go (result v) refl
    where
      go : (res : Poll Output) → result v ≡ res → Returns (drive (r ∷ rs) v) P
      go (ready out) e = rw (e, drive) (stop out e)
      go pending e = rw (e, drive) (Returns-bind P (step r v) (drive rs) (on e) (λ w h. h))

  -- A run of no rounds is over if the task cannot be pending.
  pub drive_none :
      (v : Task)
      → ¬ (result v ≡ pending)
      → Returns (drive [] v) (λ w. (out : Output) × (result w ≡ ready out))
  unfolding drive
  drive_none v over = go (result v) refl
    where
      go : (res : Poll Output) → result v ≡ res → (out : Output) × (result v ≡ ready out)
      go (ready out) e = (out, e)
      go pending e = absurd (over e)

  -- A property that each poll hands on, with one round less to go, holds at the end.
  pub drive_inv :
      (I : ℕ → Task → Type 0)
      → ((n : ℕ) (r : Reading) (v : Task)
          → result v ≡ pending
          → I (suc n) v
          → Returns (step r v) (I n))
      → (rs : List Reading) (v : Task) → I (length rs) v
      → Returns (drive rs v) (λ w. (n : ℕ) × I n w)
  unfolding drive
  drive_inv I keep [] v h = (0, h)
  drive_inv I keep (r ∷ rs) v h =
      drive_step _ r rs v (λ out e. (suc (length rs), h))
        (λ e. Returns-map (step r v) (drive_inv I keep rs) (keep (length rs) r v e h))

  -- So does one that speaks of the rounds that are left.
  pub drive_all :
      (I : List Reading → Task → Type 0)
      → ((r : Reading) (rs : List Reading) (v : Task)
          → result v ≡ pending
          → I (r ∷ rs) v
          → Returns (step r v) (I rs))
      → (rs : List Reading) (v : Task) → I rs v
      → Returns (drive rs v) (λ w. (rest : List Reading) × I rest w)
  unfolding drive
  drive_all I keep [] v h = ([], h)
  drive_all I keep (r ∷ rs) v h =
      drive_step _ r rs v (λ out e. (r ∷ rs, h))
        (λ e. Returns-map (step r v) (drive_all I keep rs) (keep r rs v e h))

  -- A bare future, polled by `poll` at the same readings, whose state `view` finds in the task.
  module _ {State : Type 0} (poll : Reading → State → State) (over : State → Poll Output)
      (view : Task → State) where
    -- If each poll of the task is, seen through `view`, a poll of the bare future, so is each run.
    pub drive_view :
        (Plain : Task → Type 0)
        → ((v : Task) → over (view v) ≡ result v)
        → ((r : Reading) (v : Task)
            → Plain v
            → Returns (step r v) (λ w. Plain w × (view w ≡ poll r (view v))))
        → (rs : List Reading) (v : Task) → Plain v
        → Returns (drive rs v) (λ w. view w ≡ drive_bare poll over rs (view v))
    unfolding drive drive_bare
    drive_view Plain same seen [] v plain = refl
    drive_view Plain same seen (r ∷ rs) v plain =
        drive_step _ r rs v (λ out e. let at_end = same v ∙ e in rw (at_end, drive_bare))
          (λ e.
            let going = same v ∙ e in
            Returns-map (step r v)
              (λ w (plain', round).
                Returns-map (drive rs w)
                  (λ u h. rw (going, drive_bare) (h ∙ ap (drive_bare poll over rs) round))
                  (drive_view Plain same seen rs w plain'))
              (seen r v plain))
