-- ===== src/PendingFuture/ModeCount/Cadence.antt =====
-- How often mode_count.rs inserts a pause.
use rs_run.Base.{
  ℕ, suc, ◌+◌, ◌/◌, ◌^◌, ◌<◌, ◌≡◌, inl, inr, some, List, Returns, length, Returns-map, arith,
}
use rs_run.Host.{Poll, ready, pending, Context, Future, Timer, Float}
use rs_run.Priority.{fixed_interval_count}
use rs_run.PendingFuture.Drive.{drive_inv}
use rs_run.PendingFuture.RuntimeHandle.{CommonRuntimeHandle}
use rs_run.PendingFuture.ModeCount.Records.{Registry}
use rs_run.PendingFuture.ModeCount.Cases.{poll_paths}
use rs_run.PendingFuture.ModeCount.Drive.{fresh, result, round, drive}
use rs_run.PendingFuture.ModeCount.{Readings, Polled, new, poll}

-- One if the poll was the last.
abbrev pub finished : {Output : Type 0} → Poll Output → ℕ
finished (ready _) = 1
finished pending = 0

module _ (T : Timer) (f : Float) {Output : Type 0} (F : Future Output) (polls : F.State → ℕ)
    (counted : (now : ℕ) (s : F.State) (cx : Context) → polls (F.poll now s cx).1 ≡ suc (polls s))
    (type_id period : ℕ) where
  -- Of the pauses counted so far, each fifth was inserted and the others were the inner future's.
  abbrev Balanced : Polled T f F → Type 0
  Balanced v = polls v.this.future + v.this.pend_cnt / 5 ≡ v.this.pend_cnt + finished v.result

  abbrev Going : ℕ → Polled T f F → Type 0
  Going n v =
      Balanced v
      × (v.this.pend_cnt + n < 2 ^ 32)
      × (fixed_interval_count v.this.handle.priority ≡ some period)

  poll-Going :
      (n : ℕ) (r : Readings) (v : Polled T f F)
      → v.result ≡ pending
      → Going (suc n) v
      → Returns (poll T f F type_id r v.this v.cx v.registry) (Going n)
  poll-Going n r v e (b, room, prio) =
      let before : polls v.this.future + v.this.pend_cnt / 5 ≡ v.this.pend_cnt = ground arith in
      poll_paths T f F (Going n) type_id r v.this v.cx v.registry (record {
        sleeping = λ s cx' _. (omega arith, omega arith, prio);
        pausing = λ cx' _ st cx'' _ due _. (omega arith, omega arith, prio);
        finishing = λ cx' begin out _ _ _.
            let one = counted r.polled v.this.future cx' in (omega arith, omega arith, prio);
        waiting = λ cx' _ free _.
            let one = counted r.polled v.this.future cx' in
            elim free [
              | inl early ↦ (omega arith, omega arith, prio)
              | inr never ↦ absurd (ground arith)
            ];
      })

  -- `polls` counts the polls of the inner future; let it be 0 at the start, and let the priority have
  -- a period. Then after any run of polls, shorter than the counter is wide, the inner future has been
  -- polled once for each pause counted except every fifth, which the wrapper inserted, and once more
  -- if it has finished. No run panics.
  pub drive_cadence :
      (rs : List Readings) (handle : CommonRuntimeHandle) (s : F.State) (cx : Context)
      (registry : Registry f)
      → fixed_interval_count handle.priority ≡ some period
      → polls s ≡ 0
      → length rs < 2 ^ 32
      → Returns
          (drive T f F type_id rs (fresh T f F handle s cx registry))
          (λ v. polls v.this.future + v.this.pend_cnt / 5 ≡ v.this.pend_cnt + finished v.result)
  unfolding new
  drive_cadence rs handle s cx registry prio none_yet short =
      let start = fresh T f F handle s cx registry in
      Returns-map (drive T f F type_id rs start)
        (λ (v : Polled T f F) (w : (n : ℕ) × Going n v). w.1.0)
        (drive_inv (result T f F) (round T f F type_id) Going poll-Going rs start
          (omega arith, omega arith, prio))
