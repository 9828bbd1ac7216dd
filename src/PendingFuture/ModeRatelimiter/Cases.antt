-- ===== src/PendingFuture/ModeRatelimiter/Cases.antt =====
-- The ways through `poll` of mode_ratelimiter.rs: to prove something of what it returns, prove it for
-- each.
use rs_run.Base.{ℕ, ◌+◌, ◌≡◌, refl, sym, subst, Option, none, some, u32, u64_pred, done, Returns}
use rs_run.Host.{Poll, ready, pending, Context, Future, Timer}
use rs_run.Host.Limiter.{TryWait, granted, refused, Limiter}
use rs_run.PendingFuture.RuntimeHandle.{RateLimiterRuntimeHandle}
use rs_run.PendingFuture.Backoff.{
  State, common, backoff, Resumed, asleep, rested, running, resume, back_off, settle, back_off_lem,
  running-common,
}
use rs_run.PendingFuture.ModeRatelimiter.{
  PendingFuture, Readings, Polled, conclude, poll_inner, wait_for, proceed, poll,
}

module _ (T : Timer) (L : Limiter) {Output : Type 0} (F : Future Output) where
  -- The future goes on in context `cx'` with handle `h'`: there was no pause, or one that has just
  -- ended, which takes one off the counter.
  pub data IsAwake (r : Readings) (p : PendingFuture T F) (h : RateLimiterRuntimeHandle L)
      (cx : Context) (h' : RateLimiterRuntimeHandle L) (cx' : Context) : Type 0 where
    from_pause :
        resume T r.resumed p.state cx ≡ rested cx'
        → h' ≡ record h { resting = u64_pred h.resting }
        → IsAwake r p h cx h' cx'
    from_common : p.state ≡ common → cx' ≡ cx → h' ≡ h → IsAwake r p h cx h' cx'

  abbrev pub rise : PendingFuture T F → PendingFuture T F
  rise p = record p { state = common }

  -- The future and the handle with which the inner future is polled: unlimited, or for a token.
  pub data IsLetIn (r : Readings) (p : PendingFuture T F) (h : RateLimiterRuntimeHandle L) (n : ℕ)
      (h' : RateLimiterRuntimeHandle L) : Type 0 where
    unlimited : h.limiter ≡ none → n ≡ p.pend_cnt → h' ≡ h → IsLetIn r p h n h'
    for_token :
        (l : L.Ratelimiter)
        → h.limiter ≡ some l
        → (L.try_wait r.asked l).0 ≡ granted
        → n ≡ u32 (p.pend_cnt + 1)
        → h' ≡ record h { limiter = some (L.try_wait r.asked l).1 }
        → IsLetIn r p h n h'

  pub record Paths (P : Polled T L F → Type 0) (r : Readings) (p : PendingFuture T F)
      (h : RateLimiterRuntimeHandle L) (cx : Context) : Type 0 where
    pub sleeping :
        (s : T.Sleep) (cx' : Context)
        → resume T r.resumed p.state cx ≡ asleep s cx'
        → P (record {
          result = pending;
          this = record p { state = backoff s };
          handle = h;
          cx = cx';
        })
    pub turned_away :
        (h' : RateLimiterRuntimeHandle L) (cx' : Context) (l : L.Ratelimiter) (wait : ℕ)
        (st : State T.Sleep) (cx'' : Context)
        → IsAwake r p h cx h' cx'
        → h'.limiter ≡ some l
        → (L.try_wait r.asked l).0 ≡ refused wait
        → back_off T r.slept r.rechecked wait cx' ≡ done (st, cx'')
        → P (record {
          result = pending;
          this = record p { pend_cnt = u32 (p.pend_cnt + 1); state = st };
          handle = record h' { limiter = some (L.try_wait r.asked l).1 };
          cx = cx'';
        })
    pub finishing :
        (h' h'' : RateLimiterRuntimeHandle L) (cx' : Context) (n : ℕ) (out : Output)
        → IsAwake r p h cx h' cx'
        → IsLetIn r p h' n h''
        → (F.poll r.polled p.future cx').0 ≡ ready out
        → P (record {
          result = ready out;
          this = record (rise p) { future = (F.poll r.polled p.future cx').1; pend_cnt = n };
          handle = h'';
          cx = (F.poll r.polled p.future cx').2;
        })
    pub waiting :
        (h' h'' : RateLimiterRuntimeHandle L) (cx' : Context) (n : ℕ)
        → IsAwake r p h cx h' cx'
        → IsLetIn r p h' n h''
        → (F.poll r.polled p.future cx').0 ≡ pending
        → P (record {
          result = pending;
          this = record (rise p) {
            future = (F.poll r.polled p.future cx').1;
            pend_cnt = u32 (n + 1);
          };
          handle = h'';
          cx = (F.poll r.polled p.future cx').2;
        })

  module _ (P : Polled T L F → Type 0) (r : Readings) (p : PendingFuture T F)
      (h : RateLimiterRuntimeHandle L) (cx : Context) (w : Paths P r p h cx)
      (h' : RateLimiterRuntimeHandle L) (cx' : Context) (awake : IsAwake r p h cx h' cx') where
    inner_paths :
        (n : ℕ) (h'' : RateLimiterRuntimeHandle L)
        → IsLetIn r p h' n h''
        → P (poll_inner T L F r (record (rise p) { pend_cnt = n }) h'' cx')
    unfolding poll_inner conclude
    inner_paths n h'' let_in = go (F.poll r.polled p.future cx').0 refl
      where
        go :
            (res : Poll Output)
            → (F.poll r.polled p.future cx').0 ≡ res
            → P (
                conclude T L F
                  (record (rise p) { pend_cnt = n })
                  h''
                  (F.poll r.polled p.future cx'))
        go (ready out) e = rw (e, conclude) (w.finishing h' h'' cx' n out awake let_in e)
        go pending e = rw (e, conclude) (w.waiting h' h'' cx' n awake let_in e)

    wait_paths :
        (l : L.Ratelimiter) (wait : ℕ)
        → h'.limiter ≡ some l
        → (L.try_wait r.asked l).0 ≡ refused wait
        → Returns
            (wait_for T L F wait r
              (record (rise p) { pend_cnt = u32 (p.pend_cnt + 1) })
              (record h' { limiter = some (L.try_wait r.asked l).1 })
              cx')
            P
    unfolding wait_for
    wait_paths l wait has no_token =
        let (st, cx'') = settle T (T.poll r.rechecked (T.sleep r.slept wait) cx') in
        let e = back_off_lem T r.slept r.rechecked wait cx' in
        rw e (w.turned_away h' cx' l wait st cx'' awake has no_token e)

    awake_paths : Returns (proceed T L F r (rise p) h' cx') P
    unfolding proceed
    awake_paths = go h'.limiter refl
      where
        ask :
            (l : L.Ratelimiter)
            → h'.limiter ≡ some l
            → (answer : TryWait) → (L.try_wait r.asked l).0 ≡ answer
            → Returns (proceed T L F r (rise p) h' cx') P
        ask l has (refused wait) e = rw (has, e, proceed) (wait_paths l wait has e)
        ask l has granted e = rw (has, e, proceed) (inner_paths _ _ (for_token l has e refl refl))

        go :
            (o : Option L.Ratelimiter)
            → h'.limiter ≡ o
            → Returns (proceed T L F r (rise p) h' cx') P
        go none e = rw (e, proceed) (inner_paths p.pend_cnt h' (unlimited e refl refl))
        go (some l) e = ask l e (L.try_wait r.asked l).0 refl

  -- `poll` never panics, and what it returns comes about in one of the four ways.
  pub poll_paths :
      (P : Polled T L F → Type 0) (r : Readings) (p : PendingFuture T F)
      (h : RateLimiterRuntimeHandle L) (cx : Context)
      → Paths P r p h cx
      → Returns (poll T L F r p h cx) P
  unfolding poll
  poll_paths P r p h cx w = go (resume T r.resumed p.state cx) refl
    where
      go :
          (s : Resumed T.Sleep)
          → resume T r.resumed p.state cx ≡ s
          → Returns (poll T L F r p h cx) P
      go (asleep s cx') e = rw (e, poll) (w.sleeping s cx' e)
      go (rested cx') e =
          rw (e, poll)
            (awake_paths P r p h cx w (record h { resting = u64_pred h.resting }) cx'
              (from_pause e refl))
      go running e =
          let st = running-common T r.resumed p.state cx e in
          rw (e, poll)
            (subst (λ q. Returns (proceed T L F r q h cx) P) (λ i. record p { state = sym st i })
              (awake_paths P r p h cx w h cx (from_common st refl refl)))
