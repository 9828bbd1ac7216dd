-- ===== src/RepeatedTask/Loop/Progress.antt =====
-- How often the loop of src/repeated_task.rs calls the function.
use rs_run.Base.{
  ℕ, zero, suc, ◌+◌, ◌≤◌, ◌<◌, ◌≡◌, refl, ◌∙◌, ap, sym, subst, Bool, true, false, Option, none,
  some, ltb, if◌then◌else◌, List, [], ◌∷◌, length, map, Result, ok, err, Outcome, done, panicked,
  Returns, Returns-map, arith,
}
use rs_run.Host.{Timer, IsTimer, max_sleep, from_millis}
use rs_run.Host.Tasks.{JoinHandle, Tokens, IsTokens}
use rs_run.RepeatedTask.{
  TaskFunction, at_head, asleep, calling, Worker, Reading, select, sleep_time, after_call,
  await_call, after_select, turn, new, with_initial_delay, start,
}
use rs_run.RepeatedTask.History.{start_call, worker_turn, System, initial, step, run}
use rs_run.RepeatedTask.Stops.{turns, due}
use rs_run.RepeatedTask.Loop.{noted, called}

-- Each turn comes as long after the one before.
abbrev pub Apart : ℕ → List Reading → Type 0
Apart gap [] = Unit {0}
Apart gap (a ∷ []) = Unit {0}
Apart gap (a ∷ b ∷ rs) = (a.now + gap ≤ b.now) × Apart gap (b ∷ rs)

Apart-tail : (gap : ℕ) (a : Reading) (rs : List Reading) → Apart gap (a ∷ rs) → Apart gap rs
Apart-tail gap a [] apart = tt
Apart-tail gap a (b ∷ rs) (_, apart) = apart

-- No turn meets a call that is not over yet.
abbrev pub AllOver : List Reading → Type 0
AllOver [] = Unit {0}
AllOver (r ∷ rs) = (r.call_over ≡ true) × AllOver rs

-- The turns of a number of rounds.
unfoldable pub rounds : Option ℕ → ℕ → ℕ → ℕ
rounds delay interval zero = 0
rounds delay interval (suc n) =
    (if ltb 0 (sleep_time delay interval) then 3 else 2) + rounds none interval n

module _ (T : Timer) (timer : IsTimer T) (K : Tokens) {E : Type 0} (F : TaskFunction E) where
  abbrev head_of : Worker T F → F.State → List E → Worker T F
  head_of w g log = record {
    stage = at_head;
    task_fn = g;
    interval = w.interval;
    initial_delay = none;
    failures = log;
  }

  falls_asleep :
      (r : Reading) (w : Worker T F)
      → w.stage ≡ at_head
      → 0 < due T K F w
      → turn T K F false r w
        ≡ record (head_of w w.task_fn w.failures) { stage = asleep (T.sleep r.now (due T K F w)) }
  unfolding turn
  falls_asleep r w head long = rw (head, turn) (ground arith)

  wakes_up :
      (r : Reading) (w : Worker T F) (s : T.Sleep)
      → w.stage ≡ asleep s
      → T.deadline s + from_millis 1 ≤ r.now
      → turn T K F false r w ≡ record w { stage = calling }
  unfolding turn select after_select
  wakes_up r w s at late = go r.token_first refl
    where
      go : (b : Bool) → r.token_first ≡ b → turn T K F false r w ≡ record w { stage = calling }
      go true e = rw (at, turn, timer.on_time r.now s r.cx late, e) refl
      go false e = rw (at, turn, timer.on_time r.now s r.cx late, e) refl

  calls_once :
      (r : Reading) (w : Worker T F) (g : F.State) (res : Result (Unit {0}) E)
      → w.stage ≡ calling
      → r.call_over ≡ true
      → F.call w.task_fn ≡ done (res, g)
      → turn T K F false r w
        ≡ record w { stage = at_head; task_fn = g; failures = noted F w.failures res }
  unfolding turn await_call after_call
  calls_once r w g (ok v) at now calls = rw (at, turn, now, calls) refl
  calls_once r w g (err e) at now calls = rw (at, turn, now, calls) refl

  -- A round of the loop: its turns at the head, in `select!` when the sleep is over, and in the call.
  round :
      (a b c : Reading) (w : Worker T F) (g : F.State) (res : Result (Unit {0}) E)
      → w.stage ≡ at_head
      → 0 < due T K F w
      → due T K F w ≤ max_sleep
      → a.now + due T K F w + from_millis 1 ≤ b.now
      → c.call_over ≡ true
      → F.call w.task_fn ≡ done (res, g)
      → turn T K F false c (turn T K F false b (turn T K F false a w))
        ≡ head_of w g (noted F w.failures res)
  round a b c w g res head long short late now calls =
      ap (λ v. turn T K F false c (turn T K F false b v)) (falls_asleep a w head long)
      ∙ ap (turn T K F false c) (
          wakes_up b _ (T.sleep a.now (due T K F w)) refl
            (rw (timer.deadline-sleep a.now (due T K F w) short) late))
      ∙ calls_once c _ g res refl now calls

  goes_on :
      (r : Reading) (w : Worker T F)
      → w.stage ≡ at_head
      → due T K F w ≡ 0
      → turn T K F false r w ≡ record (head_of w w.task_fn w.failures) { stage = calling }
  unfolding turn
  goes_on r w head none_due = rw (head, turn) (ground arith)

  -- Without a time to wait, a round has no turn in `select!`.
  short_round :
      (a c : Reading) (w : Worker T F) (g : F.State) (res : Result (Unit {0}) E)
      → w.stage ≡ at_head
      → due T K F w ≡ 0
      → c.call_over ≡ true
      → F.call w.task_fn ≡ done (res, g)
      → turn T K F false c (turn T K F false a w) ≡ head_of w g (noted F w.failures res)
  short_round a c w g res head none_due now calls =
      ap (turn T K F false c) (goes_on a w head none_due) ∙ calls_once c _ g res refl now calls

  abbrev Went : F.State → List E → Worker T F → Type 0
  Went g log w = (w.stage ≡ at_head) × (w.task_fn ≡ g) × (w.failures ≡ log)

  turns-Went :
      (n gap : ℕ) (rs : List Reading) (w : Worker T F) (g : F.State) (log : List E)
      → w.stage ≡ at_head
      → due T K F w ≤ max_sleep
      → w.interval ≤ max_sleep
      → due T K F w + from_millis 1 ≤ gap
      → w.interval + from_millis 1 ≤ gap
      → Apart gap rs
      → AllOver rs
      → length rs ≡ rounds w.initial_delay w.interval n
      → called F w.failures n w.task_fn ≡ done (g, log)
      → Went g log (turns T K F false rs w)
  unfolding turns rounds called sleep_time
  turns-Went zero gap [] w g log head short short' late late' apart over size e = (
    head,
    ap (λ o. elim o [ done v ↦ v.0 | panicked ↦ w.task_fn ]) e,
    ap (λ o. elim o [ done v ↦ v.1 | panicked ↦ [] ]) e,
  )
  turns-Went zero gap (r ∷ rs) w g log head short short' late late' apart over size e =
      absurd (omega (arith, size))
  turns-Went (suc n) gap rs w g log head short short' late late' apart over size e =
      go
        (λ rs' g' res.
          turns-Went n gap rs' (head_of w g' (noted F w.failures res)) g log refl short' short'
            late' late')
        (F.call w.task_fn) refl (ltb 0 (due T K F w)) refl rs apart over size
    where
      go :
          ((rs' : List Reading) (g' : F.State) (res : Result (Unit {0}) E)
            → Apart gap rs'
            → AllOver rs'
            → length rs' ≡ rounds none w.interval n
            → called F (noted F w.failures res) n g' ≡ done (g, log)
            → Went g log (turns T K F false rs' (head_of w g' (noted F w.failures res))))
          → (m : Outcome (Result (Unit {0}) E × F.State)) → F.call w.task_fn ≡ m
          → (b : Bool) → ltb 0 (due T K F w) ≡ b
          → (rs : List Reading) → Apart gap rs
          → AllOver rs
          → length rs ≡ rounds w.initial_delay w.interval (suc n)
          → Went g log (turns T K F false rs w)
      go more panicked e' b f rs apart over size = let e'' = rw (e') at e in absurd (ground arith)
      go more (done (res, g')) e' true f (a ∷ b ∷ c ∷ rs) (ab, apart) (_, (_, (now, over))) size =
          let e'' = rw (e') at e in
          subst (λ v. Went g log (turns T K F false rs v))
            (sym (round a b c w g' res head (ground arith) short (omega (arith, late, ab)) now e'))
            (more rs g' res (Apart-tail gap c rs (Apart-tail gap b (c ∷ rs) apart)) over
              (ground (arith, size)) e'')
      go more (done (res, g')) e' false f (a ∷ c ∷ rs) (ab, apart) (_, (now, over)) size =
          let e'' = rw (e') at e in
          subst (λ v. Went g log (turns T K F false rs v))
            (sym (short_round a c w g' res head (ground arith) now e'))
            (more rs g' res (Apart-tail gap c rs apart) over (ground (arith, size)) e'')
      go more (done (res, g')) e' true f [] apart over size = absurd (ground (arith, size))
      go more (done (res, g')) e' true f (a ∷ []) apart over size = absurd (ground (arith, size))
      go more (done (res, g')) e' true f (a ∷ b ∷ []) apart over size =
          absurd (ground (arith, size))
      go more (done (res, g')) e' false f [] apart over size = absurd (ground (arith, size))
      go more (done (res, g')) e' false f (a ∷ []) apart over size = absurd (ground (arith, size))

module _ (T : Timer) (timer : IsTimer T) (K : Tokens) (tokens : IsTokens K) {E : Type 0}
    (F : TaskFunction E) (IoError : Type 0) where
  run-turns :
      (rs : List Reading) (y : System T K F IoError) (w : Worker T F)
      → y.worker ≡ some w
      → K.is_cancelled y.task.cancel_token ≡ false
      → Returns
          (run T K F IoError (map worker_turn rs) y)
          (λ z. z.worker ≡ some (turns T K F false rs w))
  unfolding run turns step
  run-turns [] y w e c = e
  run-turns (r ∷ rs) y w e c = run-turns rs _ (turn T K F false r w) (rw (e, c) refl) c

  -- Let a task be started, and the spawned task have turns that come as long after each other as a
  -- sleep takes and a millisecond, and let none of a number of calls of the function panic, each of
  -- them being over at the turn behind the one that reached it. Then the
  -- turns of as many rounds make just these calls, one after the other, whether they end with errors or
  -- not; the errors are logged. A round has three turns, and two when there is no time to wait.
  pub calls_made :
      (n gap : ℕ) (handle : JoinHandle) (rs : List Reading) (interval : ℕ) (delay : Option ℕ)
      (f g : F.State) (log : List E)
      → sleep_time delay interval ≤ max_sleep
      → interval ≤ max_sleep
      → sleep_time delay interval + from_millis 1 ≤ gap
      → interval + from_millis 1 ≤ gap
      → Apart gap rs
      → AllOver rs
      → length rs ≡ rounds delay interval n
      → called F [] n f ≡ done (g, log)
      → Returns
          (run T K F IoError
            (start_call handle ∷ map worker_turn rs)
            (initial T K F IoError interval delay f))
          (λ y.
            (w : Worker T F) × (y.worker ≡ some w)
            × (w.stage ≡ at_head)
            × (w.task_fn ≡ g)
            × (w.failures ≡ log))
  unfolding run step start new with_initial_delay
  calls_made n gap handle rs interval delay f g log short short' late late' apart over size e =
      let w : Worker T F = record {
        stage = at_head;
        task_fn = f;
        interval = interval;
        initial_delay = delay;
        failures = [];
      } in
      Returns-map (run T K F IoError (map worker_turn rs) _)
        (λ y is.
          let (at, same, logged) =
            turns-Went T timer K F n gap rs w g log refl short short' late late' apart over size
              e in
          (turns T K F false rs w, is, at, same, logged))
        (run-turns rs _ w refl tokens.is_cancelled-new)
