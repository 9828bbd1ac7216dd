-- ===== src/PendingFuture/ModeRatelimiter/Transparent.antt =====
-- The wrapper of mode_ratelimiter.rs without a limiter, beside the inner future alone.
use rs_run.Base.{ℕ, ◌≡◌, refl, sym, ap, ◌∙◌, none, List, Returns, arith}
use rs_run.Host.{Poll, ready, pending, Context, Future, Timer}
use rs_run.Host.Limiter.{Limiter}
use rs_run.PendingFuture.Drive.{drive_bare, drive_view}
use rs_run.PendingFuture.Bare.{Bare, bare_poll, bare_result}
use rs_run.PendingFuture.RuntimeHandle.{RateLimiterRuntimeHandle}
use rs_run.PendingFuture.Backoff.{common, resume-common}
use rs_run.PendingFuture.ModeRatelimiter.Cases.{
  IsAwake, from_pause, from_common, IsLetIn, unlimited, for_token, poll_paths,
}
use rs_run.PendingFuture.ModeRatelimiter.Runs.{fresh, result, round, drive}
use rs_run.PendingFuture.ModeRatelimiter.{PendingFuture, Readings, Polled, new, poll}

module _ (T : Timer) (L : Limiter) {Output : Type 0} (F : Future Output) where
  abbrev pub bare : Polled T L F → Bare F
  bare v = (v.result, v.this.future, v.cx)

  abbrev Plain : Polled T L F → Type 0
  Plain v = (v.this.state ≡ common) × (v.handle.limiter ≡ none)

  same_poll :
      (r : Readings) (v : Polled T L F) (h' : RateLimiterRuntimeHandle L) (cx' : Context)
      (res : Poll Output)
      → v.this.state ≡ common
      → IsAwake T L F r v.this v.handle v.cx h' cx'
      → (F.poll r.polled v.this.future cx').0 ≡ res
      → ◌≡◌ {A = Bare F}
          (res, (F.poll r.polled v.this.future cx').1, (F.poll r.polled v.this.future cx').2)
          (F.poll r.polled v.this.future v.cx)
  same_poll r v h' cx' res st (from_pause rested _) e =
      absurd (ground (arith, resume-common T r.resumed v.cx))
  same_poll r v h' cx' res st (from_common _ here _) e =
      let polled = F.poll r.polled v.this.future cx' in
      ◌∙◌ {A = Bare F} (λ i. (sym e i, polled.1, polled.2))
        (ap (F.poll r.polled v.this.future) here)

  still_none :
      (r : Readings) (v : Polled T L F) (h' : RateLimiterRuntimeHandle L) (cx' : Context)
      → v.handle.limiter ≡ none
      → IsAwake T L F r v.this v.handle v.cx h' cx'
      → h'.limiter ≡ none
  still_none r v h' cx' gone (from_pause _ e) = rw e gone
  still_none r v h' cx' gone (from_common _ _ e) = rw e gone

  let_in_none :
      (r : Readings) (p : PendingFuture T F) (h h' : RateLimiterRuntimeHandle L) (n : ℕ)
      → h.limiter ≡ none
      → IsLetIn T L F r p h n h'
      → h'.limiter ≡ none
  let_in_none r p h h' n gone (unlimited _ _ e) = rw e gone
  let_in_none r p h h' n gone (for_token l has _ _ _) = absurd (ground arith)

  poll-Plain :
      (r : Readings) (v : Polled T L F)
      → Plain v
      → Returns
          (poll T L F r v.this v.handle v.cx)
          (λ w. Plain w × (bare w ≡ F.poll r.polled v.this.future v.cx))
  poll-Plain r v (st, gone) = poll_paths T L F _ r v.this v.handle v.cx (record {
    sleeping = λ s cx' e. absurd (ground (arith, resume-common T r.resumed v.cx));
    turned_away = λ h' cx' l wait s' cx'' awake has _ _.
        let none_there = still_none r v h' cx' gone awake in absurd (ground arith);
    finishing = λ h' h'' cx' n out awake let_in e.
        let none_there = still_none r v h' cx' gone awake in
        (
          (refl, let_in_none r v.this h' h'' n none_there let_in),
          same_poll r v h' cx' (ready out) st awake e,
        );
    waiting = λ h' h'' cx' n awake let_in e.
        let none_there = still_none r v h' cx' gone awake in
        (
          (refl, let_in_none r v.this h' h'' n none_there let_in),
          same_poll r v h' cx' pending st awake e,
        );
  })

  -- With a handle that has no limiter, as at priority VeryHigh, driving a new future gives, round by
  -- round, the result, the inner future and the context that driving the inner future alone gives.
  pub drive_limited_transparent :
      (rs : List Readings) (h : RateLimiterRuntimeHandle L) (s : F.State) (cx : Context)
      → h.limiter ≡ none
      → Returns (drive T L F rs (fresh T L F h s cx)) (λ w.
        bare w
        ≡ drive_bare (bare_poll F (λ (r : Readings). r.polled)) (bare_result F) rs (pending, s, cx))
  unfolding new
  drive_limited_transparent rs h s cx gone =
      drive_view (result T L F) (round T L F) (bare_poll F (λ (r : Readings). r.polled))
        (bare_result F) bare Plain (λ v. refl) poll-Plain rs (fresh T L F h s cx) (refl, gone)
