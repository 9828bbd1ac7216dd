-- ===== src/PendingFuture/ModeCount/Transparent.antt =====
-- The wrapper of mode_count.rs at the highest priority, beside the inner future alone.
use rs_run.Base.{ℕ, ◌≡◌, refl, sym, ap, ◌∙◌, inl, inr, List, Returns, arith}
use rs_run.Host.{Poll, ready, pending, Context, Future, Timer, Float}
use rs_run.Priority.{very_high, fixed_interval_count}
use rs_run.PendingFuture.Drive.{drive_bare, drive_view}
use rs_run.PendingFuture.Bare.{Bare, bare_poll, bare_result}
use rs_run.PendingFuture.Backoff.{common, resume-common}
use rs_run.PendingFuture.ModeCount.Records.{Registry}
use rs_run.PendingFuture.ModeCount.Cases.{IsAwake, poll_paths}
use rs_run.PendingFuture.ModeCount.Drive.{fresh, result, round, drive}
use rs_run.PendingFuture.ModeCount.{PendingFuture, Readings, Polled, new, poll}

module _ (T : Timer) (f : Float) {Output : Type 0} (F : Future Output) (type_id : ℕ) where
  abbrev pub bare : Polled T f F → Bare F
  bare v = (v.result, v.this.future, v.cx)

  abbrev Plain : PendingFuture T F → Type 0
  Plain p = (p.state ≡ common) × (p.handle.priority ≡ very_high)

  same :
      (r : Readings) (v : Polled T f F) (cx' : Context) (res : Poll Output)
      → v.this.state ≡ common
      → IsAwake T f F r v.this v.cx cx'
      → (F.poll r.polled v.this.future cx').0 ≡ res
      → ◌≡◌ {A = Bare F}
          (res, (F.poll r.polled v.this.future cx').1, (F.poll r.polled v.this.future cx').2)
          (F.poll r.polled v.this.future v.cx)
  same r v cx' res st (inl rested) e = absurd (ground (arith, resume-common T r.resumed v.cx))
  same r v cx' res st (inr (_, here)) e =
      let polled = F.poll r.polled v.this.future cx' in
      ◌∙◌ {A = Bare F} (λ i. (sym e i, polled.1, polled.2))
        (ap (F.poll r.polled v.this.future) here)

  poll-Plain :
      (r : Readings) (v : Polled T f F)
      → Plain v.this
      → Returns
          (poll T f F type_id r v.this v.cx v.registry)
          (λ w. Plain w.this × (bare w ≡ F.poll r.polled v.this.future v.cx))
  unfolding fixed_interval_count
  poll-Plain r v (st, top) = poll_paths T f F _ type_id r v.this v.cx v.registry (record {
    sleeping = λ s cx' e. absurd (ground (arith, resume-common T r.resumed v.cx));
    pausing = λ cx' period st cx'' _ due _. absurd (ground arith);
    finishing = λ cx' _ out awake _ e. ((refl, top), same r v cx' (ready out) st awake e);
    waiting = λ cx' awake _ e. ((refl, top), same r v cx' pending st awake e);
  })

  -- Driving a new future of priority VeryHigh gives, round by round, the result, the inner future and
  -- the context that driving the inner future alone gives, at the same times.
  pub drive_transparent :
      (rs : List Readings) (s : F.State) (cx : Context) (registry : Registry f)
      → let start = fresh T f F (record { priority = very_high }) s cx registry in
        Returns (drive T f F type_id rs start) (λ w.
          bare w
          ≡ drive_bare
              (bare_poll F (λ (r : Readings). r.polled))
              (bare_result F)
              rs
              (pending, s, cx))
  unfolding new
  drive_transparent rs s cx registry =
      drive_view (result T f F) (round T f F type_id) (bare_poll F (λ (r : Readings). r.polled))
        (bare_result F) bare (λ v. Plain v.this) (λ v. refl) poll-Plain rs
        (fresh T f F (record { priority = very_high }) s cx registry) (refl, refl)
