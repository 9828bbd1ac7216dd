-- ===== src/RepeatedTask/Delays.antt =====
-- The time before the first call of src/repeated_task.rs and between two calls.
use rs_run.Base.{
  ℕ, ◌+◌, ◌≤◌, ◌<◌, ◌≡◌, ◌≢◌, refl, ◌∙◌, ◌⊎◌, inl, inr, Bool, true, false, List, [], ◌∷◌, ok, arith,
}
use rs_run.Host.{pending, Timer, IsTimer, max_sleep}
use rs_run.Host.Tasks.{Tokens}
use rs_run.RepeatedTask.{
  TaskFunction, at_head, asleep, calling, over, Worker, Reading, select, after_select, turn,
}
use rs_run.RepeatedTask.Stops.{due, turns, turn_over}

module _ (T : Timer) (timer : IsTimer T) (K : Tokens) {E : Type 0} (F : TaskFunction E) where
  -- All turns come before a time.
  abbrev pub AllBefore : ℕ → List Reading → Type 0
  AllBefore end [] = Unit {0}
  AllBefore end (r ∷ rs) = (r.now < end) × AllBefore end rs

  abbrev Quiet : F.State → ℕ → Worker T F → Type 0
  Quiet f end w =
      (w.task_fn ≡ f)
      × (((s : T.Sleep) × (w.stage ≡ asleep s) × (T.deadline s ≡ end)) ⊎ (w.stage ≡ over (ok tt)))

  turn-Quiet :
      (stop : Bool) (f : F.State) (end : ℕ) (r : Reading) (w : Worker T F)
      → r.now < end
      → Quiet f end w
      → Quiet f end (turn T K F stop r w)
  unfolding turn after_select select
  turn-Quiet stop f end r w early (same, inr e) =
      rw (turn_over T K F stop r w (ok tt) e) (same, inr e)
  turn-Quiet stop f end r w early (same, inl (s, e, dl)) = go stop r.token_first refl
    where
      early_poll : (T.poll r.now s r.cx).0 ≡ pending
      early_poll = timer.not_early r.now s r.cx (omega arith)

      go : (b first : Bool) → r.token_first ≡ first → Quiet f end (turn T K F b r w)
      go true true e' = rw (e, turn, early_poll, e') (same, inr refl)
      go true false e' = rw (e, turn, early_poll, e') (same, inr refl)
      go false true e' =
          rw (e, turn, early_poll, e') (same, inl (_, refl, timer.deadline-poll r.now s r.cx ∙ dl))
      go false false e' =
          rw (e, turn, early_poll, e') (same, inl (_, refl, timer.deadline-poll r.now s r.cx ∙ dl))

  turns-Quiet :
      (stop : Bool) (f : F.State) (end : ℕ) (rs : List Reading) (w : Worker T F)
      → AllBefore end rs
      → Quiet f end w
      → Quiet f end (turns T K F stop rs w)
  unfolding turns
  turns-Quiet stop f end [] w early h = h
  turns-Quiet stop f end (r ∷ rs) w (a, early) h =
      turns-Quiet stop f end rs _ early (turn-Quiet stop f end r w a h)

  -- From the head of the loop, with the delay of the first turn and later with the interval, the task
  -- waits that long before it calls: in any turns that come before that time is over, before or after
  -- the token has been cancelled, the function is not called and the task has not begun to call it.
  pub turns_wait :
      (stop later : Bool) (r : Reading) (rs rs' : List Reading) (w : Worker T F)
      → w.stage ≡ at_head
      → 0 < due T K F w
      → due T K F w ≤ max_sleep
      → AllBefore (r.now + due T K F w) rs
      → AllBefore (r.now + due T K F w) rs'
      → let w' = turns T K F later rs' (turns T K F stop rs (turn T K F stop r w)) in
        (w'.task_fn ≡ w.task_fn) × (w'.stage ≢ calling)
  unfolding turn
  turns_wait stop later r rs rs' w head long short early early' =
      let end = r.now + due T K F w in
      let first : Quiet w.task_fn end (turn T K F stop r w) =
        rw (head, turn)
          (
            refl,
            inl (
              T.sleep r.now (due T K F w),
              ground arith,
              timer.deadline-sleep r.now (due T K F w) short,
            ),
          ) in
      let (same, at) =
        turns-Quiet later w.task_fn end rs' _ early'
          (turns-Quiet stop w.task_fn end rs _ early first) in
      (same, λ e. ground arith)
