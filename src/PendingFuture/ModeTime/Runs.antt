-- ===== src/PendingFuture/ModeTime/Runs.antt =====
-- Runs of a future wrapped by mode_time.rs.
use rs_run.Base.{
  ℕ, suc, ◌+◌, ◌*◌, ◌^◌, ◌≤◌, ◌<◌, ◌≡◌, List, [], ◌∷◌, Outcome, Returns, Returns-map, Returns-both,
  length, ltb, if◌then◌else◌, arith,
}
use rs_run.Host.{Poll, ready, pending, Context, Future, Timer, IsTimer, from_millis}
use rs_run.PendingFuture.Drive
use rs_run.PendingFuture.Drive.{drive_none, drive_step, drive_inv, drive_bare, drive_view}
use rs_run.PendingFuture.RuntimeHandle.{CommonRuntimeHandle}
use rs_run.PendingFuture.Backoff.{backoff, asleep_not_late}
use rs_run.PendingFuture.ModeTime.Cases.{poll_paths}
use rs_run.PendingFuture.ModeTime.{PendingFuture, Readings, inter, Polled, new, poll}

module _ (T : Timer) {Output : Type 0} (F : Future Output) where
  -- A wrapped future that has not been polled.
  abbrev pub fresh : CommonRuntimeHandle → F.State → Context → Polled T F
  fresh handle future cx = record { result = pending; this = new T F handle future; cx = cx }

  abbrev pub result : Polled T F → Poll Output
  result v = v.result

  abbrev pub round : Readings → Polled T F → Outcome (Polled T F)
  round r v = poll T F r v.this v.cx

  abbrev pub drive : List Readings → Polled T F → Outcome (Polled T F)
  drive = Drive.drive result round

-- One if the poll was the last.
abbrev pub finished : {Output : Type 0} → Poll Output → ℕ
finished (ready _) = 1
finished pending = 0

-- One if the future owes enough for a pause.
abbrev owes : ℕ → ℕ
owes debt = if ltb inter debt then 1 else 0

module _ (T : Timer) {Output : Type 0} (F : Future Output) (polls : F.State → ℕ)
    (counted : (now : ℕ) (s : F.State) (cx : Context)
      → polls (F.poll now s cx).1 ≡ suc (polls s)) where
  abbrev Going : ℕ → Polled T F → Type 0
  Going n v =
      (polls v.this.future ≡ v.this.pend_cnt + finished v.result)
      × (v.this.inserted_pend_cnt + owes v.this.adding_up_time ≤ v.this.pend_cnt)
      × (v.this.pend_cnt + n < 2 ^ 32)

  poll-Going :
      (n : ℕ) (r : Readings) (v : Polled T F)
      → v.result ≡ pending
      → Going (suc n) v
      → Returns (poll T F r v.this v.cx) (Going n)
  poll-Going n r v e (all, paid, room) =
      let before : polls v.this.future ≡ v.this.pend_cnt = ground arith in
      poll_paths T F (Going n) r v.this v.cx (record {
        sleeping = λ s cx' _. (omega arith, paid, omega arith);
        pausing = λ cx' period st cx'' _ _ debt _. (omega arith, ground arith, omega arith);
        finishing = λ cx' out _ _ _.
            let one = counted r.polled v.this.future cx' in (omega arith, paid, omega arith);
        waiting = λ cx' _ free _.
            let one = counted r.polled v.this.future cx' in
            (omega arith, ground arith, omega arith);
      })

  -- `polls` counts the polls of the inner future; let it be 0 at the start. After any run of polls,
  -- shorter than the counters are wide, `pend_cnt` is the number of polls of the inner future that
  -- were pending, and no more pauses have been inserted than that. No run panics.
  pub drive_counts :
      (rs : List Readings) (handle : CommonRuntimeHandle) (s : F.State) (cx : Context)
      → polls s ≡ 0
      → length rs < 2 ^ 32
      → Returns (drive T F rs (fresh T F handle s cx)) (λ v.
        (polls v.this.future ≡ v.this.pend_cnt + finished v.result)
        × (v.this.inserted_pend_cnt ≤ v.this.pend_cnt))
  unfolding new
  drive_counts rs handle s cx none_yet short =
      let start = fresh T F handle s cx in
      Returns-map (drive T F rs start)
        (λ (v : Polled T F) (w : (n : ℕ) × Going n v). (w.1.0, omega arith))
        (drive_inv (result T F) (round T F) Going poll-Going rs start
          (omega arith, omega arith, omega arith))

module _ (T : Timer) (timer : IsTimer T) {Output : Type 0} (F : Future Output) where
  -- The poll comes a millisecond after the deadline of the pause, if there is one.
  abbrev pub IsLate : Readings → PendingFuture T F → Type 0
  IsLate r p = (s : T.Sleep) → p.state ≡ backoff s → T.deadline s + from_millis 1 ≤ r.resumed

  -- Each poll of the run is late in that sense.
  abbrev pub AllLate : List Readings → Polled T F → Type 0
  AllLate [] v = Unit {0}
  AllLate (r ∷ rs) v = IsLate r v.this × Returns (poll T F r v.this v.cx) (λ w. AllLate rs w)

  module _ (left : F.State → ℕ)
      (falls : (now : ℕ) (s : F.State) (cx : Context)
        → (F.poll now s cx).0 ≡ pending
        → left (F.poll now s cx).1 < left s) where
    -- A bound on the polls that are still needed.
    abbrev gauge : PendingFuture T F → ℕ
    gauge p = 2 * left p.future + owes p.adding_up_time

    gauge-poll :
        (r : Readings) (v : Polled T F)
        → IsLate r v.this
        → Returns (poll T F r v.this v.cx) (λ w. w.result ≡ pending → gauge w.this < gauge v.this)
    gauge-poll r v late = poll_paths T F _ r v.this v.cx (record {
      sleeping =
          λ s cx' e. absurd (asleep_not_late T timer r.resumed v.this.state v.cx s cx' late e);
      pausing = λ cx' period st cx'' _ _ debt _ _. ground arith;
      finishing = λ cx' out _ _ _ e. absurd (ground arith);
      waiting = λ cx' _ _ e _. let less = falls r.polled v.this.future cx' e in ground arith;
    })

    drive_ends :
        (rs : List Readings) (v : Polled T F)
        → (v.result ≡ pending → gauge v.this < length rs)
        → AllLate rs v
        → Returns (drive T F rs v) (λ w. (out : Output) × (w.result ≡ ready out))
    drive_ends [] v enough late =
        drive_none (result T F) (round T F) v (λ e. omega (arith, enough e))
    drive_ends (r ∷ rs) v enough late =
        drive_step (result T F) (round T F) _ r rs v (λ out e. (out, e))
          (λ e.
            Returns-both (poll T F r v.this v.cx)
              (λ w less later. drive_ends rs w (λ e'. omega (arith, less e', enough e)) later)
              (gauge-poll r v late.0) late.1)

    -- Let `left` bound the polls that the inner future still needs. If the executor polls late enough
    -- for each pause to be over, a run of more than twice as many polls brings a new wrapped future to
    -- its end: it does not panic and returns a result.
    pub drive_time_finishes :
        (rs : List Readings) (handle : CommonRuntimeHandle) (s : F.State) (cx : Context)
        → 2 * left s < length rs
        → AllLate rs (fresh T F handle s cx)
        → Returns
            (drive T F rs (fresh T F handle s cx))
            (λ w. (out : Output) × (w.result ≡ ready out))
    unfolding new
    drive_time_finishes rs handle s cx enough late =
        drive_ends rs (fresh T F handle s cx) (λ _. omega arith) late
