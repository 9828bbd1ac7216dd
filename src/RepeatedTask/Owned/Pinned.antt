-- ===== src/RepeatedTask/Owned/Pinned.antt =====
-- A repeated task of src/repeated_task.rs in a runtime of src/global.rs, of which the static
-- GLOBAL_RUNTIMES holds a clone that is never dropped.
use rs_run.Base.{
  ℕ, suc, ◌-◌, ◌<◌, ◌≡◌, refl, ◌∙◌, Bool, true, false, Option, List, [], ◌∷◌, Outcome, done, ◌>>=◌,
  Returns, Returns-bind, Returns-both, Returns-instead, ◌==◌, if◌then◌else◌, arith,
}
use rs_run.Host.{Timer}
use rs_run.Host.Tasks.{JoinHandle, Tokens}
use rs_run.Runtime.{Shared, is_up, clone, drop_dropper, drop_runtime}
use rs_run.Runtime.Shutdown.{cloned, dropped, use_runtime}
use rs_run.RepeatedTask.{TaskFunction, Reading}
use rs_run.RepeatedTask.History.{start_call, stop_call, step}
use rs_run.RepeatedTask.Owned.{Move, uses, starts, stops, turns, shuts, Owner, move, at_first}

-- `gets` is a call of `bg_runtime` or its like; what is cloned, dropped or passed to `start` after that
-- is a clone that somebody has got.
pub data GlobalMove : Type 0 where
  gets : GlobalMove
  clones : GlobalMove
  drops : GlobalMove
  starts_in : JoinHandle → GlobalMove
  stops_it : GlobalMove
  turns_it : Reading → GlobalMove
  shuts_down : GlobalMove

module _ (T : Timer) (K : Tokens) {E : Type 0} (F : TaskFunction E) (IoError : Type 0) where
  -- The runtime with its task, and how many clones of it others hold than the static.
  pub record Pinned : Type 0 where
    pub owner : Owner T K F IoError
    pub held : ℕ

  unfoldable pub moved : Move → ℕ → Pinned → Outcome Pinned
  moved mv held p = do o ← move T K F IoError mv p.owner; done (record { owner = o; held = held })

  unfoldable pub global_move : GlobalMove → Pinned → Outcome Pinned
  global_move gets p = moved (uses cloned) (suc p.held) p
  global_move clones p = if p.held == 0 then done p else moved (uses cloned) (suc p.held) p
  global_move drops p = if p.held == 0 then done p else moved (uses dropped) (p.held - 1) p
  global_move (starts_in handle) p =
      if p.held == 0 then done p else moved (starts handle) (p.held - 1) p
  global_move stops_it p = moved stops p.held p
  global_move (turns_it r) p = moved (turns r) p.held p
  global_move shuts_down p = moved shuts p.held p

  unfoldable pub global_moves : List GlobalMove → Pinned → Outcome Pinned
  global_moves [] p = done p
  global_moves (mv ∷ mvs) p = do p' ← global_move mv p; global_moves mvs p'

  abbrev pub pinned : ℕ → Option ℕ → F.State → Pinned
  pinned interval delay f = record {
    owner = at_first T K F IoError true interval delay f;
    held = 0;
  }

  -- What a move makes of the number of clones.
  abbrev left : Move → Shared → ℕ
  left (uses u) s = (use_runtime u s).strong
  left (starts handle) s = s.strong - 1
  left stops s = s.strong
  left (turns r) s = s.strong
  left shuts s = s.strong

  drop_strong : (s : Shared) → (drop_runtime s).strong ≡ s.strong - 1
  unfolding drop_runtime drop_dropper
  drop_strong s = ground arith

  move-left :
      (mv : Move) (o : Owner T K F IoError) (P : Owner T K F IoError → Type 0)
      → 0 < o.shared.strong
      → Returns (move T K F IoError mv o) P
      → Returns (move T K F IoError mv o) (λ o'. o'.shared.strong ≡ left mv o.shared)
  unfolding move step
  move-left (uses u) o P there h = refl
  move-left (starts handle) o P there h =
      let some_left : (o.shared.strong == 0) ≡ false = ground arith in
      let h' = rw (some_left) at h in
      rw (some_left) (
        Returns-instead P (λ o'. o'.shared.strong ≡ o.shared.strong - 1)
          (step T K F IoError (start_call handle) o.system) _ _ h' (λ y _. drop_strong o.shared))
  move-left stops o P there h =
      Returns-instead P (λ o'. o'.shared.strong ≡ o.shared.strong)
        (step T K F IoError stop_call o.system) _ _ h (λ y _. refl)
  move-left (turns r) o P there h = refl
  move-left shuts o P there h = go (is_up o.shared) refl
    where
      go :
          (b : Bool)
          → is_up o.shared ≡ b
          → Returns (move T K F IoError shuts o) (λ o'. o'.shared.strong ≡ o.shared.strong)
      go true e = rw (e) refl
      go false e = rw (e) refl

  cloned_strong : (s : Shared) → 0 < s.strong → (use_runtime cloned s).strong ≡ suc s.strong
  unfolding use_runtime clone
  cloned_strong s there = ground arith

  dropped_strong : (s : Shared) → (use_runtime dropped s).strong ≡ s.strong - 1
  unfolding use_runtime drop_runtime drop_dropper
  dropped_strong s = ground arith

  -- The static keeps its clone, and what each move keeps holds.
  module _ (P : Owner T K F IoError → Type 0)
      (keeps : (mv : Move) (o : Owner T K F IoError)
        → P o
        → Returns (move T K F IoError mv o) P) where
    abbrev pub IsPinned : Pinned → Type 0
    IsPinned p = P p.owner × (p.owner.shared.strong ≡ suc p.held)

    moved-IsPinned :
        (mv : Move) (held : ℕ) (p : Pinned)
        → IsPinned p
        → left mv p.owner.shared ≡ suc held
        → Returns (moved mv held p) IsPinned
    unfolding moved
    moved-IsPinned mv held p (h, count) e =
        let still = keeps mv p.owner h in
        Returns-bind {P = λ o. P o × (o.shared.strong ≡ left mv p.owner.shared)} IsPinned
          (move T K F IoError mv p.owner) _
          (Returns-both (move T K F IoError mv p.owner) (λ o h' c. (h', c)) still
            (move-left mv p.owner P (omega (arith, count)) still))
          (λ o (h', c). (h', c ∙ e))

    global_move-IsPinned :
        (mv : GlobalMove) (p : Pinned) → IsPinned p → Returns (global_move mv p) IsPinned
    unfolding global_move
    global_move-IsPinned gets p (k, c) =
        moved-IsPinned (uses cloned) (suc p.held) p (k, c)
          (omega (arith, cloned_strong p.owner.shared (omega arith), c))
    global_move-IsPinned clones p (k, c) = go (p.held == 0) refl
      where
        go : (b : Bool) → (p.held == 0) ≡ b → Returns (global_move clones p) IsPinned
        go true e = rw (e) (k, c)
        go false e = rw (e) (
            moved-IsPinned (uses cloned) (suc p.held) p (k, c)
              (omega (arith, cloned_strong p.owner.shared (omega arith), c)))
    global_move-IsPinned drops p (k, c) = go (p.held == 0) refl
      where
        go : (b : Bool) → (p.held == 0) ≡ b → Returns (global_move drops p) IsPinned
        go true e = rw (e) (k, c)
        go false e = rw (e) (
            moved-IsPinned (uses dropped) (p.held - 1) p (k, c)
              (ground (arith, dropped_strong p.owner.shared, c)))
    global_move-IsPinned (starts_in handle) p (k, c) = go (p.held == 0) refl
      where
        go : (b : Bool) → (p.held == 0) ≡ b → Returns (global_move (starts_in handle) p) IsPinned
        go true e = rw (e) (k, c)
        go false e =
            rw (e) (moved-IsPinned (starts handle) (p.held - 1) p (k, c) (ground (arith, c)))
    global_move-IsPinned stops_it p (k, c) = moved-IsPinned stops p.held p (k, c) c
    global_move-IsPinned (turns_it r) p (k, c) = moved-IsPinned (turns r) p.held p (k, c) c
    global_move-IsPinned shuts_down p (k, c) = moved-IsPinned shuts p.held p (k, c) c

    pub global_moves-IsPinned :
        (mvs : List GlobalMove) (p : Pinned) → IsPinned p → Returns (global_moves mvs p) IsPinned
    unfolding global_moves
    global_moves-IsPinned [] p h = h
    global_moves-IsPinned (mv ∷ mvs) p h =
        Returns-bind IsPinned (global_move mv p) (global_moves mvs) (global_move-IsPinned mv p h)
          (global_moves-IsPinned mvs)
