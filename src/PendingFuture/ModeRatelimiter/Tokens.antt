-- ===== src/PendingFuture/ModeRatelimiter/Tokens.antt =====
-- The tokens that the polls of mode_ratelimiter.rs take, and the counter `pend_cnt`.
use rs_run.Base.{
  ℕ, suc, ◌+◌, ◌*◌, ◌^◌, ◌<◌, ◌≡◌, refl, sym, u32, ap, ◌∙◌, some, List, Returns, Returns-map,
  length, arith,
}
use mathlib.Core.Option.{some-injective}
use rs_run.Host.{Poll, ready, pending, Context, Future, Timer}
use rs_run.Host.Limiter.{Limiter, IsLimiter}
use rs_run.PendingFuture.Drive.{drive_inv}
use rs_run.PendingFuture.RuntimeHandle.{RateLimiterRuntimeHandle}
use rs_run.PendingFuture.ModeRatelimiter.Cases.{
  IsAwake, from_pause, from_common, IsLetIn, unlimited, for_token, poll_paths,
}
use rs_run.PendingFuture.ModeRatelimiter.Runs.{fresh, result, round, drive}
use rs_run.PendingFuture.ModeRatelimiter.{PendingFuture, Readings, Polled, new, poll}

-- One if the poll was the last.
abbrev pub finished : {Output : Type 0} → Poll Output → ℕ
finished (ready _) = 1
finished pending = 0

module _ (T : Timer) (L : Limiter) (limiter : IsLimiter L) {Output : Type 0} (F : Future Output)
    (polls : F.State → ℕ)
    (counted : (now : ℕ) (s : F.State) (cx : Context)
      → polls (F.poll now s cx).1 ≡ suc (polls s)) where
  -- The accounts after a run: what was paid, and what `pend_cnt` says.
  abbrev pub Paid : Polled T L F → Type 0
  Paid v =
      (l : L.Ratelimiter) × (v.handle.limiter ≡ some l)
      × (polls v.this.future ≡ L.taken l)
      × (v.this.pend_cnt + finished v.result ≡ 2 * polls v.this.future + L.turned_away l)

  abbrev Going : ℕ → Polled T L F → Type 0
  Going n v = Paid v × (v.this.pend_cnt + 2 * n < 2 ^ 32)

  awake_limiter :
      (r : Readings) (p : PendingFuture T F) (h h' : RateLimiterRuntimeHandle L) (cx cx' : Context)
      → IsAwake T L F r p h cx h' cx'
      → h'.limiter ≡ h.limiter
  awake_limiter r p h h' cx cx' (from_pause _ e) = rw e
  awake_limiter r p h h' cx cx' (from_common _ _ e) = rw e

  -- Who is let in has paid a token, and is counted.
  let_in_token :
      (r : Readings) (p : PendingFuture T F) (h h' : RateLimiterRuntimeHandle L) (n : ℕ)
      (l : L.Ratelimiter)
      → h.limiter ≡ some l
      → IsLetIn T L F r p h n h'
      → (l' : L.Ratelimiter) × (h'.limiter ≡ some l')
        × (L.taken l' ≡ suc (L.taken l))
        × (L.turned_away l' ≡ L.turned_away l)
        × (n ≡ u32 (p.pend_cnt + 1))
  let_in_token r p h h' n l has (unlimited gone _ _) = absurd (ground arith)
  let_in_token r p h h' n l has (for_token l' has' grant cnt after) =
      let same : l' ≡ l = some-injective l' l (sym has' ∙ has) in
      let (one, rest) = limiter.takes r.asked l' grant in
      (
        (L.try_wait r.asked l').1,
        ap (λ (k : RateLimiterRuntimeHandle L). k.limiter) after,
        one ∙ ap (λ k. suc (L.taken k)) same,
        rest ∙ ap L.turned_away same,
        cnt,
      )

  poll-Going :
      (n : ℕ) (r : Readings) (v : Polled T L F)
      → v.result ≡ pending
      → Going (suc n) v
      → Returns (poll T L F r v.this v.handle v.cx) (Going n)
  poll-Going n r v e ((l, has, taken, cnt), room) =
      let before : v.this.pend_cnt ≡ 2 * polls v.this.future + L.turned_away l = ground arith in
      poll_paths T L F (Going n) r v.this v.handle v.cx (record {
        sleeping = λ s cx' _. ((l, has, taken, omega arith), omega arith);
        turned_away = λ h' cx' l' wait st cx'' awake has' no_token _.
            let was = awake_limiter r v.this v.handle h' v.cx cx' awake ∙ has in
            let same : l' ≡ l = some-injective l' l (sym has' ∙ was) in
            let (none_taken, one) = limiter.turns_away r.asked l' wait no_token in
            let kept = ap L.taken same in
            let known = ap L.turned_away same in
            (((L.try_wait r.asked l').1, refl, omega arith, omega arith), omega arith);
        finishing = λ h' h'' cx' m out awake let_in _.
            let was = awake_limiter r v.this v.handle h' v.cx cx' awake ∙ has in
            let (l', is, t, a, m') = let_in_token r v.this h' h'' m l was let_in in
            let one = counted r.polled v.this.future cx' in
            ((l', is, omega arith, omega arith), omega arith);
        waiting = λ h' h'' cx' m awake let_in _.
            let was = awake_limiter r v.this v.handle h' v.cx cx' awake ∙ has in
            let (l', is, t, a, m') = let_in_token r v.this h' h'' m l was let_in in
            let one = counted r.polled v.this.future cx' in
            ((l', is, omega arith, omega arith), omega arith);
      })

  -- Let the handle have a limiter that has served nobody, and let `polls` count the polls of the inner
  -- future, 0 at the start. After any run of polls, with room for two counts each, the inner future has
  -- been polled once for each token that the limiter gave away, and `pend_cnt` has counted each of
  -- those polls twice, once less if it was the last, and each refusal once. No run panics.
  pub drive_metered :
      (rs : List Readings) (h : RateLimiterRuntimeHandle L) (l : L.Ratelimiter) (s : F.State)
      (cx : Context)
      → h.limiter ≡ some l
      → L.taken l ≡ 0
      → L.turned_away l ≡ 0
      → polls s ≡ 0
      → 2 * length rs < 2 ^ 32
      → Returns (drive T L F rs (fresh T L F h s cx)) Paid
  unfolding new
  drive_metered rs h l s cx has t a none_yet short =
      let start = fresh T L F h s cx in
      Returns-map (drive T L F rs start) (λ (v : Polled T L F) (w : (n : ℕ) × Going n v). w.1.0)
        (drive_inv (result T L F) (round T L F) Going poll-Going rs start
          ((l, has, omega arith, omega arith), omega arith))
