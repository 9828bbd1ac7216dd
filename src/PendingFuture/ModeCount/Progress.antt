-- ===== src/PendingFuture/ModeCount/Progress.antt =====
-- How many polls a future wrapped by mode_count.rs needs.
use rs_run.Base.{
  ℕ, ◌+◌, ◌*◌, ◌%◌, ◌^◌, ◌≤◌, ◌<◌, ◌≡◌, List, [], ◌∷◌, Returns, length, Returns-both, arith,
  if◌then◌else◌, ◌==◌,
}
use rs_run.Host.{ready, pending, Context, Future, Timer, IsTimer, Float, from_millis}
use rs_run.PendingFuture.Drive.{drive_none, drive_step}
use rs_run.PendingFuture.RuntimeHandle.{CommonRuntimeHandle}
use rs_run.PendingFuture.Backoff.{backoff, asleep_not_late}
use rs_run.PendingFuture.ModeCount.Records.{Registry}
use rs_run.PendingFuture.ModeCount.Cases.{poll_paths}
use rs_run.PendingFuture.ModeCount.Drive.{fresh, result, round, drive}
use rs_run.PendingFuture.ModeCount.{PendingFuture, Readings, Polled, new, poll}

module _ (T : Timer) (timer : IsTimer T) (f : Float) {Output : Type 0} (F : Future Output)
    (type_id : ℕ) where
  -- The poll comes a millisecond after the deadline of the pause, if there is one.
  abbrev pub IsLate : Readings → PendingFuture T F → Type 0
  IsLate r p = (s : T.Sleep) → p.state ≡ backoff s → T.deadline s + from_millis 1 ≤ r.resumed

  -- Each poll of the run is late in that sense.
  abbrev pub AllLate : List Readings → Polled T f F → Type 0
  AllLate [] v = Unit {0}
  AllLate (r ∷ rs) v =
      IsLate r v.this × Returns (poll T f F type_id r v.this v.cx v.registry) (λ w. AllLate rs w)

  module _ (left : F.State → ℕ)
      (falls : (now : ℕ) (s : F.State) (cx : Context)
        → (F.poll now s cx).0 ≡ pending
        → left (F.poll now s cx).1 < left s) where
    -- A bound on the polls that are still needed.
    abbrev gauge : PendingFuture T F → ℕ
    gauge p = 2 * left p.future + (if (p.pend_cnt + 1) % 5 == 0 then 1 else 0)

    gauge-poll :
        (r : Readings) (v : Polled T f F)
        → IsLate r v.this
        → v.this.pend_cnt + 1 < 2 ^ 32
        → Returns (poll T f F type_id r v.this v.cx v.registry) (λ w.
          (w.result ≡ pending → gauge w.this < gauge v.this)
          × (w.this.pend_cnt ≤ v.this.pend_cnt + 1))
    gauge-poll r v late room = poll_paths T f F _ type_id r v.this v.cx v.registry (record {
      sleeping =
          λ s cx' e. absurd (asleep_not_late T timer r.resumed v.this.state v.cx s cx' late e);
      pausing = λ cx' _ st cx'' _ due _. (λ _. ground arith, omega arith);
      finishing = λ cx' begin out _ _ _. (λ e. absurd (ground arith), omega arith);
      waiting = λ cx' _ _ e.
          let less = falls r.polled v.this.future cx' e in (λ _. ground arith, omega arith);
    })

    drive_ends :
        (rs : List Readings) (v : Polled T f F)
        → (v.result ≡ pending → gauge v.this < length rs)
        → v.this.pend_cnt + length rs < 2 ^ 32
        → AllLate rs v
        → Returns (drive T f F type_id rs v) (λ w. (out : Output) × (w.result ≡ ready out))
    drive_ends [] v enough room late =
        drive_none (result T f F) (round T f F type_id) v (λ e. omega (arith, enough e))
    drive_ends (r ∷ rs) v enough room late =
        drive_step (result T f F) (round T f F type_id) _ r rs v (λ out e. (out, e))
          (λ e.
            Returns-both (poll T f F type_id r v.this v.cx v.registry)
              (λ w (less, cnt) later.
                drive_ends rs w (λ e'. omega (arith, less e', enough e)) (omega arith) later)
              (gauge-poll r v late.0 (omega arith)) late.1)

    -- Let `left` bound the polls that the inner future still needs. If the executor polls late enough
    -- for each pause to be over, and the counter does not wrap around, a run of more than twice as many
    -- polls brings a new wrapped future to its end: it does not panic and returns a result.
    pub drive_finishes :
        (rs : List Readings) (handle : CommonRuntimeHandle) (s : F.State) (cx : Context)
        (registry : Registry f)
        → 2 * left s < length rs
        → length rs < 2 ^ 32
        → AllLate rs (fresh T f F handle s cx registry)
        → Returns
            (drive T f F type_id rs (fresh T f F handle s cx registry))
            (λ w. (out : Output) × (w.result ≡ ready out))
    unfolding new
    drive_finishes rs handle s cx registry enough room late =
        drive_ends rs (fresh T f F handle s cx registry) (λ _. omega arith) (omega arith) late
