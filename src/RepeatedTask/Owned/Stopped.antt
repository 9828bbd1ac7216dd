-- ===== src/RepeatedTask/Owned/Stopped.antt =====
-- `stop` of src/repeated_task.rs for a running task in a runtime of src/global.rs.
use rs_run.Base.{
  ℕ, ◌≤◌, ◌<◌, ◌≡◌, ◌≢◌, refl, ap, subst, sym, ◌∙◌, ◌⊎◌, inl, inr, true, Option, some, List, [],
  ◌∷◌, map, length, Result, ok, err, done, panicked, Returns, Returns-both, arith,
}
use Prim.Native.String.{String}
use rs_run.Error.{Error, wait_gc_task_stop}
use rs_run.Host.{Timer, IsTimer}
use rs_run.Host.Tasks.{JoinHandle, panic, Tokens, IsTokens}
use rs_run.Runtime.{shared}
use rs_run.RepeatedTask.{
  TaskFunction, Worker, Reading, new, with_initial_delay, turn, stop_lock, joined,
}
use rs_run.RepeatedTask.History.{step}
use rs_run.RepeatedTask.Stops.{turns, AllHeard, turns_end}
use rs_run.RepeatedTask.Returns.{HasInterval, Paced, step-Paced}
use rs_run.RepeatedTask.Loop.Made.{AllMade}
use rs_run.RepeatedTask.Owned.{Move, Owner, move, move_inv}
use rs_run.RepeatedTask.Owned.Kept.{Cancelled}
use rs_run.RepeatedTask.Owned.Pinned.{
  GlobalMove, stops_it, turns_it, Pinned, moved, global_move, global_moves, pinned, IsPinned,
  global_moves-IsPinned,
}
use rs_run.RepeatedTask.Owned.Results.{Lives, move-Lives, result_of}

module _ (T : Timer) (timer : IsTimer T) (K : Tokens) (tokens : IsTokens K) {E : Type 0}
    (F : TaskFunction E) (IoError : Type 0) where
  abbrev Runs : F.State → ℕ → Owner T K F IoError → Type 0
  Runs f interval o = Lives T K tokens F IoError f o × Paced T K tokens F IoError interval o.system

  move-Runs :
      (f : F.State) (interval : ℕ) (mv : Move) (o : Owner T K F IoError)
      → Runs f interval o
      → Returns (move T K F IoError mv o) (Runs f interval)
  move-Runs f interval mv o (l, p) =
      Returns-both (move T K F IoError mv o) (λ o' l' p'. (l', p'))
        (move-Lives T K tokens F IoError f mv o l)
        (move_inv T K F IoError (Paced T K tokens F IoError interval)
          (step-Paced T K tokens F IoError interval) mv o p)

  global-turns :
      (rs : List Reading) (p : Pinned T K F IoError) (w : Worker T F)
      → p.owner.system.worker ≡ some w
      → K.is_cancelled p.owner.system.task.cancel_token ≡ true
      → Returns
          (global_moves T K F IoError (map turns_it rs) p)
          (λ p'. p'.owner.system.worker ≡ some (turns T K F true rs w))
  unfolding global_moves global_move moved move turns step
  global-turns [] p w e c = e
  global-turns (r ∷ rs) p w e c = global-turns rs _ (turn T K F true r w) (rw (e, c) refl) c

  global-stop :
      (rs : List Reading) (p : Pinned T K F IoError) (w : Worker T F) (h : JoinHandle)
      → p.owner.system.task.task_handle ≡ some h
      → p.owner.system.worker ≡ some w
      → Returns
          (global_moves T K F IoError (stops_it ∷ map turns_it rs) p)
          (λ p'. p'.owner.system.worker ≡ some (turns T K F true rs w))
  unfolding global_moves global_move moved move step stop_lock
  global-stop rs p w h has is =
      rw (has, stop_lock, has) (global-turns rs _ w is (tokens.is_cancelled-cancel _))

  -- A task that is over in a global runtime, and whose function does not panic.
  joined_ok :
      (f : F.State) (interval : ℕ) (p : Pinned T K F IoError) (w : Worker T F) (name : String)
      (res : Result (Unit {0}) (Error IoError))
      → ((g : F.State) → F.call g ≢ panicked)
      → IsPinned T K F IoError (Runs f interval) (move-Runs f interval) p
      → p.owner.system.worker ≡ some w
      → joined T K F name w ≡ some res
      → joined T K F {IoError = IoError} name w ≡ some (ok tt)
  joined_ok f interval p w name res calm ((((o, k, gone), inl (a, b)), paced), count) e over_w =
      absurd (ground arith)
  joined_ok f interval p w name res calm ((((o, k, gone), inr (w', a, b, m)), paced), count) e
        over_w =
      go (
        result_of T K tokens F IoError name w res
          (λ c.
            let none_left = gone (subst (Cancelled T K F IoError) (sym e) c) refl in
            omega (arith, none_left, count))
          (subst (AllMade T K tokens F IoError f (K.is_cancelled p.owner.system.task.cancel_token))
            (sym b ∙ e) m).1
          over_w)
    where
      go :
          ((res ≡ ok tt) × (K.is_cancelled p.owner.system.task.cancel_token ≡ true))
            ⊎ ((res ≡ err (wait_gc_task_stop name panic)) × (F.call w.task_fn ≡ panicked))
          → joined T K F {IoError = IoError} name w ≡ some (ok tt)
      go (inl (fine, _)) = over_w ∙ ap some fine
      go (inr (_, panics)) = absurd (calm w.task_fn panics)

  -- Let a global runtime be set up, with the thread that keeps it, and let a history of its clones and of
  -- a repeated task end with the task running in it, with an interval that is not zero and a function
  -- that never panics. A call of `stop` then returns `Ok`, after five turns of the spawned task, if each
  -- time that `select!` is reached in them the sleep is not over, or the token is polled first, and each
  -- time that a call of the function is awaited in them it is over.
  pub global_stop_ok :
      (mvs : List GlobalMove) (interval : ℕ) (delay : Option ℕ) (f : F.State)
      (p : Pinned T K F IoError) (h : JoinHandle) (w : Worker T F) (rs : List Reading)
      → 0 < interval
      → ((g : F.State) → F.call g ≢ panicked)
      → global_moves T K F IoError mvs (pinned T K F IoError interval delay f) ≡ done p
      → p.owner.system.task.task_handle ≡ some h
      → p.owner.system.worker ≡ some w
      → 5 ≤ length rs
      → AllHeard T K F timer rs w
      → Returns (global_moves T K F IoError (stops_it ∷ map turns_it rs) p) (λ p'.
        (w' : Worker T F) × (p'.owner.system.worker ≡ some w')
        × (joined T K F {IoError = IoError} p'.owner.system.task.name w' ≡ some (ok tt)))
  unfolding shared new with_initial_delay
  global_stop_ok mvs interval delay f p h w rs long calm here has is enough heard =
      let inv =
        subst (λ m. Returns m (IsPinned T K F IoError (Runs f interval) (move-Runs f interval)))
          here
          (global_moves-IsPinned T K F IoError (Runs f interval) (move-Runs f interval) mvs
            (pinned T K F IoError interval delay f)
            (((((refl, refl), refl, λ c. absurd c), inl (refl, refl)), (refl, tt)), refl)) in
      let same : w.interval ≡ interval =
        subst (HasInterval T K tokens F IoError interval) is inv.0.1.1 in
      Returns-both (global_moves T K F IoError (stops_it ∷ map turns_it rs) p)
        (λ p' i e.
          let name = p'.owner.system.task.name in
          let (res, ends) =
            turns_end T K F {IoError = IoError} timer rs name w (omega arith) enough heard in
          (
            turns T K F true rs w,
            e,
            joined_ok f interval p' (turns T K F true rs w) name res calm i e ends,
          ))
        (global_moves-IsPinned T K F IoError (Runs f interval) (move-Runs f interval)
          (stops_it ∷ map turns_it rs) p inv)
        (global-stop rs p w h has is)
