-- ===== src/PendingFuture/ModeTime/Transparent.antt =====
-- The wrapper of mode_time.rs at the highest priority, beside the inner future alone.
use rs_run.Base.{◌≡◌, refl, sym, ap, ◌∙◌, inl, inr, List, Returns, arith}
use rs_run.Host.{Poll, ready, pending, Context, Future, Timer}
use rs_run.Priority.{very_high, fixed_interval_time_ms}
use rs_run.PendingFuture.Drive.{drive_bare, drive_view}
use rs_run.PendingFuture.Bare.{Bare, bare_poll, bare_result}
use rs_run.PendingFuture.Backoff.{common, resume-common}
use rs_run.PendingFuture.ModeTime.Cases.{IsAwake, poll_paths}
use rs_run.PendingFuture.ModeTime.Runs.{fresh, result, round, drive}
use rs_run.PendingFuture.ModeTime.{PendingFuture, Readings, Polled, new, poll}

module _ (T : Timer) {Output : Type 0} (F : Future Output) where
  abbrev pub bare : Polled T F → Bare F
  bare v = (v.result, v.this.future, v.cx)

  abbrev Plain : PendingFuture T F → Type 0
  Plain p = (p.state ≡ common) × (p.handle.priority ≡ very_high)

  same :
      (r : Readings) (v : Polled T F) (cx' : Context) (res : Poll Output)
      → v.this.state ≡ common
      → IsAwake T F r v.this v.cx cx'
      → (F.poll r.polled v.this.future cx').0 ≡ res
      → ◌≡◌ {A = Bare F}
          (res, (F.poll r.polled v.this.future cx').1, (F.poll r.polled v.this.future cx').2)
          (F.poll r.polled v.this.future v.cx)
  same r v cx' res st (inl rested) e = absurd (ground (arith, resume-common T r.resumed v.cx))
  same r v cx' res st (inr (_, here)) e =
      let polled = F.poll r.polled v.this.future cx' in
      ◌∙◌ {A = Bare F} (λ i. (sym e i, polled.1, polled.2))
        (ap (F.poll r.polled v.this.future) here)

  poll-Plain :
      (r : Readings) (v : Polled T F)
      → Plain v.this
      → Returns
          (poll T F r v.this v.cx)
          (λ w. Plain w.this × (bare w ≡ F.poll r.polled v.this.future v.cx))
  unfolding fixed_interval_time_ms
  poll-Plain r v (st, top) = poll_paths T F _ r v.this v.cx (record {
    sleeping = λ s cx' e. absurd (ground (arith, resume-common T r.resumed v.cx));
    pausing = λ cx' period st cx'' _ has _ _. absurd (ground arith);
    finishing = λ cx' out awake _ e. ((refl, top), same r v cx' (ready out) st awake e);
    waiting = λ cx' awake _ e. ((refl, top), same r v cx' pending st awake e);
  })

  -- Driving a new future of priority VeryHigh gives, round by round, the result, the inner future and
  -- the context that driving the inner future alone gives, at the same times.
  pub drive_time_transparent :
      (rs : List Readings) (s : F.State) (cx : Context)
      → let start = fresh T F (record { priority = very_high }) s cx in
        Returns (drive T F rs start) (λ w.
          bare w
          ≡ drive_bare
              (bare_poll F (λ (r : Readings). r.polled))
              (bare_result F)
              rs
              (pending, s, cx))
  unfolding new
  drive_time_transparent rs s cx =
      drive_view (result T F) (round T F) (bare_poll F (λ (r : Readings). r.polled)) (bare_result F)
        bare (λ v. Plain v.this) (λ v. refl) poll-Plain rs
        (fresh T F (record { priority = very_high }) s cx) (refl, refl)
