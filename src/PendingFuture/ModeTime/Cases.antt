-- ===== src/PendingFuture/ModeTime/Cases.antt =====
-- The ways through `poll` of mode_time.rs: to prove something of what it returns, prove it for each.
use rs_run.Base.{
  ℕ, ◌+◌, ◌-◌, ◌*◌, ◌/◌, ◌≤◌, ◌<◌, ◌≡◌, refl, sym, subst, ◌⊎◌, inl, inr, Option, none, some, Bool,
  true, false, ltb, u32, u64, done, Returns, arith,
}
use rs_run.Host.{Poll, ready, pending, Context, Future, Timer, from_millis, micros_between}
use rs_run.Priority.{fixed_interval_time_ms}
use rs_run.PendingFuture.Backoff.{
  State, common, backoff, Resumed, asleep, rested, running, resume, back_off, settle, back_off_lem,
  running-common,
}
use rs_run.PendingFuture.ModeTime.{
  PendingFuture, Readings, inter, pause_ms, Polled, conclude, poll_inner, insert_pause, proceed,
  poll,
}

module _ (T : Timer) {Output : Type 0} (F : Future Output) where
  -- The inner future is due in context `cx'`: there was no pause, or one that has just ended.
  abbrev pub IsAwake : Readings → PendingFuture T F → Context → Context → Type 0
  IsAwake r p cx cx' =
      (resume T r.resumed p.state cx ≡ rested cx') ⊎ ((p.state ≡ common) × (cx' ≡ cx))

  -- The future has no debt that a pause would have to pay.
  abbrev pub IsFree : PendingFuture T F → Type 0
  IsFree p = (p.adding_up_time ≤ inter) ⊎ (fixed_interval_time_ms p.handle.priority ≡ none)

  abbrev pub rise : PendingFuture T F → PendingFuture T F
  rise p = record p { state = common }

  pub record Paths (P : Polled T F → Type 0) (r : Readings) (p : PendingFuture T F) (cx : Context)
      : Type 0 where
    pub sleeping :
        (s : T.Sleep) (cx' : Context)
        → resume T r.resumed p.state cx ≡ asleep s cx'
        → P (record { result = pending; this = record p { state = backoff s }; cx = cx' })
    pub pausing :
        (cx' : Context) (period : ℕ) (st : State T.Sleep) (cx'' : Context)
        → IsAwake r p cx cx'
        → fixed_interval_time_ms p.handle.priority ≡ some period
        → inter < p.adding_up_time
        → let time = p.adding_up_time / inter in
          back_off T r.slept r.rechecked (from_millis (pause_ms period time)) cx' ≡ done (st, cx'')
          → P (record {
            result = pending;
            this = record p {
              adding_up_time = p.adding_up_time - time * inter;
              inserted_pend_cnt = u32 (p.inserted_pend_cnt + 1);
              state = st;
            };
            cx = cx'';
          })
    pub finishing :
        (cx' : Context) (out : Output)
        → IsAwake r p cx cx'
        → IsFree p
        → (F.poll r.polled p.future cx').0 ≡ ready out
        → P (record {
          result = ready out;
          this = record (rise p) { future = (F.poll r.polled p.future cx').1 };
          cx = (F.poll r.polled p.future cx').2;
        })
    pub waiting :
        (cx' : Context)
        → IsAwake r p cx cx'
        → IsFree p
        → (F.poll r.polled p.future cx').0 ≡ pending
        → P (record {
          result = pending;
          this = record (rise p) {
            future = (F.poll r.polled p.future cx').1;
            adding_up_time = u64 (p.adding_up_time + u64 (micros_between r.begin r.returned));
            pend_cnt = u32 (p.pend_cnt + 1);
          };
          cx = (F.poll r.polled p.future cx').2;
        })

  module _ (P : Polled T F → Type 0) (r : Readings) (p : PendingFuture T F) (cx : Context)
      (w : Paths P r p cx) (cx' : Context) (awake : IsAwake r p cx cx') where
    inner_paths : IsFree p → P (poll_inner T F r (rise p) cx')
    unfolding poll_inner conclude
    inner_paths free = go (F.poll r.polled p.future cx').0 refl
      where
        go :
            (res : Poll Output)
            → (F.poll r.polled p.future cx').0 ≡ res
            → P (conclude T F r (rise p) (F.poll r.polled p.future cx'))
        go (ready out) e = rw (e, conclude) (w.finishing cx' out awake free e)
        go pending e = rw (e, conclude) (w.waiting cx' awake free e)

    pause_paths :
        (period : ℕ)
        → fixed_interval_time_ms p.handle.priority ≡ some period
        → inter < p.adding_up_time
        → Returns (insert_pause T F period r (rise p) cx') P
    unfolding insert_pause
    pause_paths period has debt =
        let d = from_millis (pause_ms period (p.adding_up_time / inter)) in
        let (st, cx'') = settle T (T.poll r.rechecked (T.sleep r.slept d) cx') in
        let e = back_off_lem T r.slept r.rechecked d cx' in
        rw e (w.pausing cx' period st cx'' awake has debt e)

    awake_paths : Returns (proceed T F r (rise p) cx') P
    unfolding proceed
    awake_paths =
        go (fixed_interval_time_ms p.handle.priority) refl (ltb inter p.adding_up_time) refl
      where
        go :
            (o : Option ℕ)
            → fixed_interval_time_ms p.handle.priority ≡ o
            → (b : Bool) → ltb inter p.adding_up_time ≡ b
            → Returns (proceed T F r (rise p) cx') P
        go none e b t = rw (e, proceed) (inner_paths (inr e))
        go (some period) e true t = rw (e, t, proceed) (pause_paths period e (ground arith))
        go (some period) e false t = rw (e, t, proceed) (inner_paths (inl (ground arith)))

  -- `poll` never panics, and what it returns comes about in one of the four ways.
  pub poll_paths :
      (P : Polled T F → Type 0) (r : Readings) (p : PendingFuture T F) (cx : Context)
      → Paths P r p cx
      → Returns (poll T F r p cx) P
  unfolding poll
  poll_paths P r p cx w = go (resume T r.resumed p.state cx) refl
    where
      go : (s : Resumed T.Sleep) → resume T r.resumed p.state cx ≡ s → Returns (poll T F r p cx) P
      go (asleep s cx') e = rw (e, poll) (w.sleeping s cx' e)
      go (rested cx') e = rw (e, poll) (awake_paths P r p cx w cx' (inl e))
      go running e =
          let st = running-common T r.resumed p.state cx e in
          rw (e, poll)
            (subst (λ q. Returns (proceed T F r q cx) P) (λ i. record p { state = sym st i })
              (awake_paths P r p cx w cx (inr (st, refl))))
