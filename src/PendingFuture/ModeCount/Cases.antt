-- ===== src/PendingFuture/ModeCount/Cases.antt =====
-- The ways through `poll` of mode_count.rs: to prove something of what it returns, prove it for each.
use rs_run.Base.{
  ℕ, ◌+◌, ◌%◌, ◌≡◌, refl, sym, subst, ◌⊎◌, ◌≢◌, inl, inr, Option, none, some, Bool, true, false,
  ◌==◌, u32, u64, done, Returns, arith,
}
use rs_run.Host.{Poll, ready, pending, Context, Future, Timer, Float, micros_between, from_millis}
use rs_run.Priority.{fixed_interval_count}
use rs_run.PendingFuture.Backoff.{
  State, common, backoff, Resumed, asleep, rested, running, resume, back_off, running-common,
  settle, back_off_lem,
}
use rs_run.PendingFuture.ModeCount.Records.{Registry, finish}
use rs_run.PendingFuture.ModeCount.{
  PendingFuture, Readings, inter, Polled, started_at, conclude, poll_inner, insert_pause, proceed,
  poll,
}

-- The next pause is one that the wrapper inserts.
abbrev pub IsDue :
    {T : Timer} {Output : Type 0} {F : Future Output} → PendingFuture T F → ℕ → Type 0
IsDue p period =
    (u32 (p.pend_cnt + 1) % inter ≡ 0) × (fixed_interval_count p.handle.priority ≡ some period)

module _ (T : Timer) (f : Float) {Output : Type 0} (F : Future Output) (P : Polled T f F → Type 0)
    (type_id : ℕ) (r : Readings) where
  pub poll_cases :
      (p : PendingFuture T F) (cx : Context) (registry : Registry f)
      → let p' = record p { begin_time = started_at r.began p.begin_time } in
        ((s : T.Sleep) (cx' : Context)
          → resume T r.resumed p.state cx ≡ asleep s cx'
          → P (record {
            result = pending;
            this = record p' { state = backoff s };
            cx = cx';
            registry = registry;
          }))
        → ((cx' : Context)
            → resume T r.resumed p.state cx ≡ rested cx'
            → Returns (proceed T f F type_id r (record p' { state = common }) cx' registry) P)
        → (resume T r.resumed p.state cx ≡ running
            → Returns (proceed T f F type_id r p' cx registry) P)
        → Returns (poll T f F type_id r p cx registry) P
  unfolding poll
  poll_cases p cx registry sleeping resting on = go (resume T r.resumed p.state cx) refl
    where
      go :
          (s : Resumed T.Sleep)
          → resume T r.resumed p.state cx ≡ s
          → Returns (poll T f F type_id r p cx registry) P
      go (asleep s cx') e = rw (e, poll) (sleeping s cx' e)
      go (rested cx') e = rw (e, poll) (resting cx' e)
      go running e = rw (e, poll) (on e)

  pub inner_cases :
      (p : PendingFuture T F) (cx : Context) (registry : Registry f) (begin : ℕ)
      → p.begin_time ≡ some begin
      → let spent = u64 (p.poll_time + u64 (micros_between r.entered r.returned)) in
        let polled = F.poll r.polled p.future cx in
        ((out : Output)
          → polled.0 ≡ ready out
          → P (record {
            result = ready out;
            this = record p { future = polled.1; poll_time = spent };
            cx = polled.2;
            registry =
                finish f type_id
                  (record {
                    total_micro = u64 (micros_between begin r.completed);
                    cpu_micro = spent;
                  })
                  registry;
          }))
        → (polled.0 ≡ pending
            → P (record {
              result = pending;
              this = record p {
                future = polled.1;
                poll_time = spent;
                pend_cnt = u32 (p.pend_cnt + 1);
              };
              cx = polled.2;
              registry = registry;
            }))
        → Returns (poll_inner T f F type_id r p cx registry) P
  unfolding poll_inner conclude
  inner_cases p cx registry begin b finished waits = go (F.poll r.polled p.future cx).0 refl
    where
      spent : ℕ
      spent = u64 (p.poll_time + u64 (micros_between r.entered r.returned))

      began :
          (out : Output)
          → conclude T f F type_id r
              (record p { future = (F.poll r.polled p.future cx).1; poll_time = spent })
              (F.poll r.polled p.future cx).2
              registry
              (ready out)
            ≡ done (record {
              result = ready out;
              this = record p { future = (F.poll r.polled p.future cx).1; poll_time = spent };
              cx = (F.poll r.polled p.future cx).2;
              registry =
                  finish f type_id
                    (record {
                      total_micro = u64 (micros_between begin r.completed);
                      cpu_micro = spent;
                    })
                    registry;
            })
      began out = ground arith

      go :
          (res : Poll Output)
          → (F.poll r.polled p.future cx).0 ≡ res
          → Returns (poll_inner T f F type_id r p cx registry) P
      go (ready out) e = rw e (subst (λ m. Returns m P) (sym (began out)) (finished out e))
      go pending e = rw (e, conclude) (waits e)

  pub proceed_cases :
      (p : PendingFuture T F) (cx : Context) (registry : Registry f)
      → ((period : ℕ) → IsDue p period → Returns (insert_pause T f F period r p cx registry) P)
      → (((u32 (p.pend_cnt + 1) % inter ≢ 0) ⊎ (fixed_interval_count p.handle.priority ≡ none))
          → Returns (poll_inner T f F type_id r p cx registry) P)
      → Returns (proceed T f F type_id r p cx registry) P
  unfolding proceed
  proceed_cases p cx registry pauses passes =
      go (u32 (p.pend_cnt + 1) % inter == 0) refl (fixed_interval_count p.handle.priority) refl
    where
      go :
          (b : Bool)
          → (u32 (p.pend_cnt + 1) % inter == 0) ≡ b
          → (o : Option ℕ) → fixed_interval_count p.handle.priority ≡ o
          → Returns (proceed T f F type_id r p cx registry) P
      go true due (some period) e = rw (due, e) (pauses period (ground arith, e))
      go true due none e = rw (due, e) (passes (inr e))
      go false early o e = rw early (passes (inl (ground arith)))

-- The four ways through `poll` together.
module _ (T : Timer) (f : Float) {Output : Type 0} (F : Future Output) where
  -- The inner future is due in context `cx'`: there was no pause, or one that has just ended.
  abbrev pub IsAwake : Readings → PendingFuture T F → Context → Context → Type 0
  IsAwake r p cx cx' =
      (resume T r.resumed p.state cx ≡ rested cx') ⊎ ((p.state ≡ common) × (cx' ≡ cx))

  abbrev pub entered : Readings → PendingFuture T F → PendingFuture T F
  entered r p = record p { begin_time = started_at r.began p.begin_time; state = common }

  abbrev pub spent : Readings → PendingFuture T F → ℕ
  spent r p = u64 (p.poll_time + u64 (micros_between r.entered r.returned))

  pub record Paths (P : Polled T f F → Type 0) (type_id : ℕ) (r : Readings) (p : PendingFuture T F)
      (cx : Context) (registry : Registry f) : Type 0 where
    pub sleeping :
        (s : T.Sleep) (cx' : Context)
        → resume T r.resumed p.state cx ≡ asleep s cx'
        → P (record {
          result = pending;
          this = record (entered r p) { state = backoff s };
          cx = cx';
          registry = registry;
        })
    pub pausing :
        (cx' : Context) (period : ℕ) (st : State T.Sleep) (cx'' : Context)
        → IsAwake r p cx cx'
        → IsDue p period
        → back_off T r.slept r.rechecked (from_millis (period + r.jitter)) cx' ≡ done (st, cx'')
        → P (record {
          result = pending;
          this = record (entered r p) { pend_cnt = u32 (p.pend_cnt + 1); state = st };
          cx = cx'';
          registry = registry;
        })
    pub finishing :
        (cx' : Context) (begin : ℕ) (out : Output)
        → IsAwake r p cx cx'
        → started_at r.began p.begin_time ≡ some begin
        → (F.poll r.polled p.future cx').0 ≡ ready out
        → P (record {
          result = ready out;
          this = record (entered r p) {
            future = (F.poll r.polled p.future cx').1;
            poll_time = spent r p;
          };
          cx = (F.poll r.polled p.future cx').2;
          registry =
              finish f type_id
                (record {
                  total_micro = u64 (micros_between begin r.completed);
                  cpu_micro = spent r p;
                })
                registry;
        })
    pub waiting :
        (cx' : Context)
        → IsAwake r p cx cx'
        → ((u32 (p.pend_cnt + 1) % inter ≢ 0) ⊎ (fixed_interval_count p.handle.priority ≡ none))
        → (F.poll r.polled p.future cx').0 ≡ pending
        → P (record {
          result = pending;
          this = record (entered r p) {
            future = (F.poll r.polled p.future cx').1;
            poll_time = spent r p;
            pend_cnt = u32 (p.pend_cnt + 1);
          };
          cx = (F.poll r.polled p.future cx').2;
          registry = registry;
        })

  started_at-some : (now : ℕ) (o : Option ℕ) → (begin : ℕ) × (started_at now o ≡ some begin)
  unfolding started_at
  started_at-some now none = (now, refl)
  started_at-some now (some begin) = (begin, refl)

  insert_cases :
      (P : Polled T f F → Type 0) (period : ℕ) (r : Readings) (p : PendingFuture T F) (cx : Context)
      (registry : Registry f)
      → ((st : State T.Sleep) (cx' : Context)
          → back_off T r.slept r.rechecked (from_millis (period + r.jitter)) cx ≡ done (st, cx')
          → P (record {
            result = pending;
            this = record p { pend_cnt = u32 (p.pend_cnt + 1); state = st };
            cx = cx';
            registry = registry;
          }))
      → Returns (insert_pause T f F period r p cx registry) P
  unfolding insert_pause
  insert_cases P period r p cx registry paused =
      let d : ℕ = from_millis (period + r.jitter) in
      let (st, cx') = settle T (T.poll r.rechecked (T.sleep r.slept d) cx) in
      let e = back_off_lem T r.slept r.rechecked d cx in rw e (paused st cx' e)

  module _ (P : Polled T f F → Type 0) (type_id : ℕ) (r : Readings) (p : PendingFuture T F)
      (cx : Context) (registry : Registry f) where
    awake_paths :
        Paths P type_id r p cx registry
        → (cx' : Context) → IsAwake r p cx cx'
        → Returns (proceed T f F type_id r (entered r p) cx' registry) P
    awake_paths w cx' awake =
        let (begin, b) = started_at-some r.began p.begin_time in
        proceed_cases T f F P type_id r (entered r p) cx' registry
          (λ period due.
            insert_cases P period r (entered r p) cx' registry
              (λ st cx'' e. w.pausing cx' period st cx'' awake due e))
          (λ free.
            inner_cases T f F P type_id r (entered r p) cx' registry begin b
              (λ out e. w.finishing cx' begin out awake b e) (λ e. w.waiting cx' awake free e))

    -- `poll` never panics, and what it returns comes about in one of the four ways.
    pub poll_paths :
        Paths P type_id r p cx registry → Returns (poll T f F type_id r p cx registry) P
    poll_paths w =
        poll_cases T f F P type_id r p cx registry w.sleeping (λ cx' e. awake_paths w cx' (inl e))
          (λ e.
            let st = running-common T r.resumed p.state cx e in
            subst (λ q. Returns (proceed T f F type_id r q cx registry) P)
              (λ i. record (entered r p) { state = sym st i }) (awake_paths w cx (inr (st, refl))))
