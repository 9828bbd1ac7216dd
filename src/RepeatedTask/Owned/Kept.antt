-- ===== src/RepeatedTask/Owned/Kept.antt =====
-- What a repeated task of src/repeated_task.rs sees of the end of the runtime of src/runtime.rs in which
-- it runs.
use Prim.Native.String.{String}
use rs_run.Base.{
  ℕ, ◌≡◌, refl, Bool, true, Option, none, some, List, [], ◌∷◌, ok, err, Outcome, done, panicked,
  Result, false, Returns, Returns-bind, Returns-map, sym, subst, ◌∙◌, ◌==◌, if◌then◌else◌, arith,
}
use rs_run.Host.{Timer}
use rs_run.Host.Tasks.{JoinHandle, cancelled, panic, Tokens}
use rs_run.Error.{wait_gc_task_stop}
use rs_run.Runtime.{Shared, shared, is_up, drop_dropper, drop_runtime}
use rs_run.Runtime.Shutdown.{
  Use, cloned, dropped, use_runtime, IsOpen, use_runtime-IsOpen, use_runtime_kept, is_up-IsOpen,
}
use rs_run.RepeatedTask.{
  TaskFunction, RepeatedTask, Stage, at_head, asleep, calling, over, Worker, Reading, Branch, slept,
  stopped, waits, after_call, await_call, after_select, turn, start, stop_lock, joined,
}
use rs_run.RepeatedTask.History.{on_worker, spawned, start_call, stop_call, step}
use rs_run.RepeatedTask.Owned.{
  Move, uses, starts, stops, turns, shuts, Owner, move, moves, at_first,
}

module _ (T : Timer) (K : Tokens) {E : Type 0} (F : TaskFunction E) (IoError : Type 0) where
  -- The runtime has cancelled what it ran.
  abbrev pub IsCancelled : Stage T.Sleep → Type 0
  IsCancelled at_head = ⊥
  IsCancelled (asleep s) = ⊥
  IsCancelled calling = ⊥
  IsCancelled (over (ok _)) = ⊥
  IsCancelled (over (err panic)) = ⊥
  IsCancelled (over (err cancelled)) = Unit {0}

  abbrev pub Cancelled : Option (Worker T F) → Type 0
  Cancelled none = ⊥
  Cancelled (some w) = IsCancelled w.stage

  -- Without the thread that keeps it, the runtime can go at any time.
  abbrev pub Gone : Bool → Shared → Type 0
  Gone kept s = kept ≡ true → s.strong ≡ 0

  abbrev pub Keeps : Bool → Owner T K F IoError → Type 0
  Keeps kept o =
      IsOpen o.shared × (o.shared.kept ≡ kept) × (Cancelled o.system.worker → Gone kept o.shared)

  after_select_going :
      (w : Worker T F) (s : T.Sleep) (b : Branch) → IsCancelled (after_select T K F w s b).stage → ⊥
  unfolding after_select
  after_select_going w s slept c = c
  after_select_going w s stopped c = c
  after_select_going w s waits c = c

  after_call_going :
      (w : Worker T F) (m : Outcome (Result (Unit {0}) E × F.State))
      → IsCancelled (after_call T K F w m).stage
      → ⊥
  unfolding after_call
  after_call_going w (done (ok v, f)) c = c
  after_call_going w (done (err e, f)) c = c
  after_call_going w panicked c = c

  await_call_going :
      (b : Bool) (w : Worker T F) → w.stage ≡ calling → IsCancelled (await_call T K F b w).stage → ⊥
  unfolding await_call
  await_call_going true w e c = after_call_going w (F.call w.task_fn) c
  await_call_going false w e c = rw (e) at c

  asleep_going : (b : Bool) (s : T.Sleep) → IsCancelled (if b then asleep s else calling) → ⊥
  asleep_going true s c = c
  asleep_going false s c = c

  turn-IsCancelled :
      (stop : Bool) (r : Reading) (st : Stage T.Sleep) (w : Worker T F)
      → w.stage ≡ st
      → IsCancelled (turn T K F stop r w).stage
      → IsCancelled w.stage
  unfolding turn
  turn-IsCancelled stop r at_head w e c = let c' = rw (e, turn) at c in absurd (asleep_going _ _ c')
  turn-IsCancelled stop r (asleep s) w e c =
      let c' = rw (e, turn) at c in absurd (after_select_going w _ _ c')
  turn-IsCancelled stop r calling w e c =
      let c' = rw (e, turn) at c in absurd (await_call_going r.call_over w e c')
  turn-IsCancelled stop r (over v) w e c = rw (e, turn) at c

  on_worker-Cancelled :
      (stop : Bool) (r : Reading) (w : Option (Worker T F))
      → Cancelled (on_worker T K F IoError (turn T K F stop r) w)
      → Cancelled w
  on_worker-Cancelled stop r none c = c
  on_worker-Cancelled stop r (some w) c = turn-IsCancelled stop r w.stage w refl c

  start_fresh :
      (handle : JoinHandle) (t : RepeatedTask K F)
      → Returns (start T K F {IoError = IoError} handle t) (λ v. Cancelled v.2 → ⊥)
  unfolding start
  start_fresh handle t = go t.task_fn refl
    where
      go :
          (f : Option F.State)
          → t.task_fn ≡ f
          → Returns (start T K F {IoError = IoError} handle t) (λ v. Cancelled v.2 → ⊥)
      go none e = rw (e, start) (λ c. c)
      go (some f) e = rw (e, start) (rw (e) (λ c. c))

  stop_lock_done : (t : RepeatedTask K F) → Returns (stop_lock T K F t) (λ v. Unit {0})
  unfolding stop_lock
  stop_lock_done t = go t.task_handle refl
    where
      go : (h : Option JoinHandle) → t.task_handle ≡ h → Returns (stop_lock T K F t) (λ v. Unit {0})
      go none e = rw (e, stop_lock) tt
      go (some h) e = rw (e, stop_lock) (rw (e) tt)

  spawned-Cancelled :
      (new old : Option (Worker T F))
      → (Cancelled new → ⊥)
      → Cancelled (spawned T K F IoError new old)
      → Cancelled old
  spawned-Cancelled none old fresh c = c
  spawned-Cancelled (some w) old fresh c = absurd (fresh c)

  use_gone : (u : Use) (s : Shared) → s.strong ≡ 0 → (use_runtime u s).strong ≡ 0
  unfolding use_runtime
  use_gone cloned s e = ground arith
  use_gone dropped s e = ground arith

  drop-IsOpen : (s : Shared) → (s.strong == 0) ≡ false → IsOpen s → IsOpen (drop_runtime s)
  unfolding use_runtime
  drop-IsOpen s e h = let h' = use_runtime-IsOpen dropped s h in rw (e) at h'

  drop_kept : (s : Shared) → (drop_runtime s).kept ≡ s.kept
  unfolding drop_runtime drop_dropper
  drop_kept s = ground arith

  not_up : (s : Shared) → IsOpen s → is_up s ≡ false → s.kept ≡ true → s.strong ≡ 0
  not_up s h down kept = let e = is_up-IsOpen s h in ground arith

  pub move-Keeps :
      (kept : Bool) (mv : Move) (o : Owner T K F IoError)
      → Keeps kept o
      → Returns (move T K F IoError mv o) (Keeps kept)
  unfolding move step
  move-Keeps kept (uses u) o (open', same, gone) = (
    use_runtime-IsOpen u o.shared open',
    use_runtime_kept u o.shared ∙ same,
    λ c k. use_gone u o.shared (gone c k),
  )
  move-Keeps kept (starts handle) o (open', same, gone) = go (o.shared.strong == 0) refl
    where
      go :
          (b : Bool)
          → (o.shared.strong == 0) ≡ b
          → Returns (move T K F IoError (starts handle) o) (Keeps kept)
      go true e = rw (e) (open', same, gone)
      go false e = rw (e) (
          Returns-bind (Keeps kept) (step T K F IoError (start_call handle) o.system) _
            (Returns-bind (λ y. Cancelled y.worker → Gone kept o.shared)
              (start T K F {IoError = IoError} handle o.system.task) _
              (start_fresh handle o.system.task)
              (λ v fresh c. gone (spawned-Cancelled v.2 o.system.worker fresh c)))
            (λ y still. (
              drop-IsOpen o.shared e open',
              drop_kept o.shared ∙ same,
              λ c k. let none = still c k in ground arith,
            )))
  move-Keeps kept stops o (open', same, gone) =
      Returns-bind (Keeps kept) (step T K F IoError stop_call o.system) _
        (Returns-bind (λ y. Cancelled y.worker → Gone kept o.shared) (stop_lock T K F o.system.task)
          _ (stop_lock_done o.system.task) (λ v _ c. gone c))
        (λ y still. (open', same, still))
  move-Keeps kept (turns r) o (open', same, gone) =
      (open', same, λ c. gone (on_worker-Cancelled _ r o.system.worker c))
  move-Keeps kept shuts o (open', same, gone) = go (is_up o.shared) refl
    where
      go : (b : Bool) → is_up o.shared ≡ b → Returns (move T K F IoError shuts o) (Keeps kept)
      go true e = rw (e) (open', same, gone)
      go false e = rw (e) (open', same, λ _ k. not_up o.shared open' e (same ∙ k))

  pub joined-IsCancelled :
      (st : Stage T.Sleep) (name : String) (w : Worker T F)
      → w.stage ≡ st
      → joined T K F {IoError = IoError} name w ≡ some (err (wait_gc_task_stop name cancelled))
      → IsCancelled w.stage
  unfolding joined
  joined-IsCancelled at_head name w e e' = let e'' = rw (e, joined) at e' in absurd (ground arith)
  joined-IsCancelled (asleep s) name w e e' =
      let e'' = rw (e, joined) at e' in absurd (ground arith)
  joined-IsCancelled calling name w e e' = let e'' = rw (e, joined) at e' in absurd (ground arith)
  joined-IsCancelled (over (ok v)) name w e e' =
      let e'' = rw (e, joined) at e' in absurd (ground arith)
  joined-IsCancelled (over (err panic)) name w e e' =
      let e'' = rw (e, joined) at e' in absurd (ground arith)
  joined-IsCancelled (over (err cancelled)) name w e e' = rw (e) tt

  moves-Keeps :
      (kept : Bool) (mvs : List Move) (o : Owner T K F IoError)
      → Keeps kept o
      → Returns (moves T K F IoError mvs o) (Keeps kept)
  unfolding moves
  moves-Keeps kept [] o h = h
  moves-Keeps kept (mv ∷ mvs) o h =
      Returns-bind (Keeps kept) (move T K F IoError mv o) (moves T K F IoError mvs)
        (move-Keeps kept mv o h) (moves-Keeps kept mvs)

  -- Let a runtime be built, with the thread that keeps it, and its clones be cloned, dropped and passed
  -- to `start`, in any order with calls of `stop` and turns of the spawned task. No unwrap panics, and
  -- the await in `stop` returns the error WaitGcTaskStop with a task that was cancelled only if no clone
  -- of the runtime is left.
  pub cancel_needs_drop :
      (mvs : List Move) (interval : ℕ) (delay : Option ℕ) (f : F.State)
      → Returns (moves T K F IoError mvs (at_first T K F IoError true interval delay f)) (λ o.
        (w : Worker T F) (name : String)
        → o.system.worker ≡ some w
        → joined T K F {IoError = IoError} name w ≡ some (err (wait_gc_task_stop name cancelled))
        → o.shared.strong ≡ 0)
  unfolding shared
  cancel_needs_drop mvs interval delay f =
      let first = at_first T K F IoError true interval delay f in
      Returns-map (moves T K F IoError mvs first)
        (λ o h w name e e'.
          h.2 (subst Cancelled (sym e) (joined-IsCancelled w.stage name w refl e')) refl)
        (moves-Keeps true mvs first ((refl, refl), refl, λ c. absurd c))
