-- ===== src/RepeatedTask/Owned/Results.antt =====
-- What `stop` of src/repeated_task.rs returns for a task in a runtime of src/global.rs.
use Prim.Native.String.{String}
use rs_run.Base.{
  ℕ, ◌≡◌, refl, subst, sym, ◌∙◌, ◌⊎◌, inl, inr, Bool, true, Option, some, List, Result, ok, err,
  panicked, Returns, Returns-map, Returns-both, arith,
}
use rs_run.Host.{Timer}
use rs_run.Host.Tasks.{panic, cancelled, Tokens, IsTokens}
use rs_run.Error.{Error, wait_gc_task_stop}
use rs_run.Runtime.{shared, is_up}
use rs_run.Runtime.Shutdown.{is_up-IsOpen}
use rs_run.RepeatedTask.{
  TaskFunction, Stage, at_head, asleep, calling, over, Worker, new, with_initial_delay, joined,
}
use rs_run.RepeatedTask.Loop.Made.{HasCause, Held, AllMade, step-Held}
use rs_run.RepeatedTask.Owned.{Move, Owner, move, move_inv}
use rs_run.RepeatedTask.Owned.Kept.{IsCancelled, Cancelled, Keeps, move-Keeps}
use rs_run.RepeatedTask.Owned.Pinned.{
  GlobalMove, Pinned, global_moves, pinned, IsPinned, global_moves-IsPinned,
}

module _ (T : Timer) (K : Tokens) (tokens : IsTokens K) {E : Type 0} (F : TaskFunction E)
    (IoError : Type 0) where
  -- The runtime is up, and the spawned task makes its calls.
  abbrev pub Lives : F.State → Owner T K F IoError → Type 0
  Lives f o = Keeps T K F IoError true o × Held T K tokens F IoError f o.system

  pub move-Lives :
      (f : F.State) (mv : Move) (o : Owner T K F IoError)
      → Lives f o
      → Returns (move T K F IoError mv o) (Lives f)
  move-Lives f mv o (k, h) =
      Returns-both (move T K F IoError mv o) (λ o' k' h'. (k', h'))
        (move-Keeps T K F IoError true mv o k)
        (move_inv T K F IoError (Held T K tokens F IoError f) (step-Held T K tokens F IoError f) mv
          o h)

  -- What the await in `stop` returns for a task that is not cancelled by its runtime.
  pub result_of :
      {stop : Bool} (name : String) (w : Worker T F) (res : Result (Unit {0}) (Error IoError))
      → (IsCancelled T K F IoError w.stage → ⊥)
      → HasCause T K F stop w.task_fn w.stage
      → joined T K F name w ≡ some res
      → ((res ≡ ok tt) × (stop ≡ true))
        ⊎ ((res ≡ err (wait_gc_task_stop name panic)) × (F.call w.task_fn ≡ panicked))
  unfolding joined
  result_of {stop = stop} name w res going cause e = go w.stage refl
    where
      go :
          (st : Stage T.Sleep)
          → w.stage ≡ st
          → ((res ≡ ok tt) × (stop ≡ true))
            ⊎ ((res ≡ err (wait_gc_task_stop name panic)) × (F.call w.task_fn ≡ panicked))
      go at_head e' = let x = rw (e', joined) at e in absurd (ground arith)
      go (asleep s) e' = let x = rw (e', joined) at e in absurd (ground arith)
      go calling e' = let x = rw (e', joined) at e in absurd (ground arith)
      go (over (ok v)) e' =
          let x = rw (e', joined) at e in let c = rw (e') at cause in inl (ground arith, c)
      go (over (err cancelled)) e' = let g = rw (e') at going in absurd (g tt)
      go (over (err panic)) e' =
          let x = rw (e', joined) at e in let c = rw (e') at cause in inr (ground arith, c)

  -- Let a global runtime be set up, with the thread that keeps it. Whatever clones of it are got, cloned,
  -- dropped and passed to `start`, in any order with calls of `stop` and turns of the spawned task: no
  -- unwrap panics, the runtime is up, and the await in `stop` returns `Ok`, only if the token is
  -- cancelled, or the error WaitGcTaskStop with a panic, only if the function panics in the call that
  -- is next after those that it has made. The runtime cancels no task.
  pub global_stop_result :
      (mvs : List GlobalMove) (interval : ℕ) (delay : Option ℕ) (f : F.State)
      → Returns (global_moves T K F IoError mvs (pinned T K F IoError interval delay f)) (λ p.
        (is_up p.owner.shared ≡ true)
        × ((w : Worker T F) (name : String) (res : Result (Unit {0}) (Error IoError))
            → p.owner.system.worker ≡ some w
            → joined T K F name w ≡ some res
            → ((res ≡ ok tt) × (K.is_cancelled p.owner.system.task.cancel_token ≡ true))
              ⊎ ((res ≡ err (wait_gc_task_stop name panic)) × (F.call w.task_fn ≡ panicked))))
  unfolding shared new with_initial_delay
  global_stop_result mvs interval delay f =
      Returns-map (global_moves T K F IoError mvs (pinned T K F IoError interval delay f))
        (λ p h. lives p h)
        (global_moves-IsPinned T K F IoError (Lives f) (move-Lives f) mvs
          (pinned T K F IoError interval delay f)
          ((((refl, refl), refl, λ c. absurd c), inl (refl, refl)), refl))
    where
      lives :
          (p : Pinned T K F IoError)
          → IsPinned T K F IoError (Lives f) (move-Lives f) p
          → (is_up p.owner.shared ≡ true)
            × ((w : Worker T F) (name : String) (res : Result (Unit {0}) (Error IoError))
                → p.owner.system.worker ≡ some w
                → joined T K F name w ≡ some res
                → ((res ≡ ok tt) × (K.is_cancelled p.owner.system.task.cancel_token ≡ true))
                  ⊎ ((res ≡ err (wait_gc_task_stop name panic)) × (F.call w.task_fn ≡ panicked)))
      lives p (((open', same, gone), inl (a, b)), count) = (
        is_up-IsOpen p.owner.shared open' ∙ ground (arith, same, count),
        λ w name res e e'. absurd (ground arith),
      )
      lives p (((open', same, gone), inr (w', a, b, m)), count) = (
        is_up-IsOpen p.owner.shared open' ∙ ground (arith, same, count),
        λ w name res e e'.
            result_of name w res
              (λ c.
                let none_left = gone (subst (Cancelled T K F IoError) (sym e) c) refl in
                omega (arith, none_left, count))
              (subst
                (AllMade T K tokens F IoError f (K.is_cancelled p.owner.system.task.cancel_token))
                (sym b ∙ e) m).1
              e',
      )
