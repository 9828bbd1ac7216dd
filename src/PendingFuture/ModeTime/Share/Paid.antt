-- ===== src/PendingFuture/ModeTime/Share/Paid.antt =====
-- What the polls of a future of mode_time.rs took is paid for by its pauses.
use rs_run.Base.{
  ℕ, ◌+◌, ◌-◌, ◌*◌, ◌/◌, ◌≤◌, ◌≡◌, refl, sym, ap, subst, ◌∙◌, ◌⊎◌, inl, inr, some, none, suc, u64,
  u32, Returns, done, arith,
}
use mathlib.Core.Option.{some-injective}
use rs_run.Host.{pending, Context, Future, Timer, IsTimer, from_millis, micros_between}
use rs_run.Priority.{fixed_interval_time_ms}
use rs_run.PendingFuture.RuntimeHandle.{CommonRuntimeHandle}
use rs_run.PendingFuture.Backoff.{
  State, common, backoff, back_off, back_off_deadline, back_off_over, asleep-deadline,
}
use rs_run.PendingFuture.ModeTime.Cases.{IsAwake, IsFree, poll_paths}
use rs_run.PendingFuture.ModeTime.Pauses.{pause_ms_exact}
use rs_run.PendingFuture.ModeTime.{PendingFuture, Readings, inter, pause_ms, new, poll}
use rs_run.PendingFuture.ModeTime.Share.{
  price, IsForward, took, Reached, made, polled, until, IsPaid,
}
use rs_run.PendingFuture.ModeTime.Share.Prices.{
  awake_paid, pause_pays, pause_short, price_sum, price_rises, took_none, took_elapsed,
}

module _ (T : Timer) (timer : IsTimer T) {Output : Type 0} (F : Future Output) (polls : F.State → ℕ)
    (counted : (now : ℕ) (s : F.State) (cx : Context)
      → polls (F.poll now s cx).1 ≡ suc (polls s)) where
  module _ (handle : CommonRuntimeHandle) (period : ℕ)
      (has : fixed_interval_time_ms handle.priority ≡ some period) (born : ℕ) where
    new_pause :
        (r : Readings) (debt spent : ℕ) (cx' cx'' : Context) (st : State T.Sleep)
        → r.rechecked ≤ r.returned
        → price handle.priority * spent + born ≤ r.slept + price handle.priority * debt
        → debt ≤ inter + 3_600_000_000
        → back_off T r.slept r.rechecked (from_millis (pause_ms period (debt / inter))) cx'
          ≡ done (st, cx'')
        → price handle.priority * spent + born
          ≤ until T F polls st r.returned + price handle.priority * (debt - debt / inter * inter)
    new_pause r debt spent cx' cx'' common later paid small e =
        let exact = pause_ms_exact handle.priority period debt has (omega arith) in
        let short = pause_short handle.priority period debt has small in
        let over = back_off_over T timer r.slept r.rechecked _ cx' cx'' short (rw exact at e) in
        let pays = pause_pays handle.priority period debt has in omega arith
    new_pause r debt spent cx' cx'' (backoff s) later paid small e =
        let exact = pause_ms_exact handle.priority period debt has (omega arith) in
        let short = pause_short handle.priority period debt has small in
        let dl = back_off_deadline T timer r.slept r.rechecked _ cx' cx'' s short (rw exact at e) in
        let pays = pause_pays handle.priority period debt has in omega arith

    not_free : (p : PendingFuture T F) → p.handle ≡ handle → IsFree T F p → p.adding_up_time ≤ inter
    not_free p same (inl less) = less
    not_free p same (inr never) =
        let e : some period ≡ none =
          sym has ∙ ap (λ h. fixed_interval_time_ms h.priority) (sym same) ∙ never in
        absurd (ground arith)

    same_period :
        (p : PendingFuture T F) (n : ℕ)
        → p.handle ≡ handle
        → fixed_interval_time_ms p.handle.priority ≡ some n
        → n ≡ period
    same_period p n same has' =
        some-injective _ _ (sym has' ∙ ap (λ h. fixed_interval_time_ms h.priority) same ∙ has)

    poll-IsPaid :
        (r : Readings) (p : PendingFuture T F) (cx : Context) (latest spent : ℕ)
        → IsForward T F polls latest r
        → IsPaid T F polls handle born p latest spent
        → Returns (poll T F r p cx) (λ v.
          v.result ≡ pending
          → IsPaid T F polls handle born v.this r.returned (spent + took T F polls r p v.this))
    poll-IsPaid r p cx latest spent (f₁, f₂, f₃, f₄, f₅, f₆) (same, paid, small) =
        poll_paths T F _ r p cx (record {
          sleeping = λ s cx' e _.
              let (s₀, was, dl) = asleep-deadline T timer r.resumed p.state cx s cx' e in
              let at : price handle.priority * spent + born
                  ≤ T.deadline s₀ + price handle.priority * p.adding_up_time =
                subst
                  (λ st.
                    price handle.priority * spent + born
                    ≤ until T F polls st latest + price handle.priority * p.adding_up_time)
                  was paid in
              let none : spent + took T F polls r p (record p { state = backoff s }) ≡ spent =
                omega
                  (arith, took_none T timer F polls r p (record p { state = backoff s }) refl) in
              (same, rw none (omega arith), small);
          pausing = λ cx' n st cx'' awake has' _ e _.
              let p' : PendingFuture T F = record p {
                adding_up_time = p.adding_up_time - p.adding_up_time / inter * inter;
                inserted_pend_cnt = u32 (p.inserted_pend_cnt + 1);
                state = st;
              } in
              let none : spent + took T F polls r p p' ≡ spent =
                omega (arith, took_none T timer F polls r p p' refl) in
              let due =
                awake_paid T timer F polls (price handle.priority) spent born latest
                  p.adding_up_time p cx cx' r paid f₁ awake in
              let left =
                new_pause r p.adding_up_time spent cx' cx'' st (omega arith) (omega arith) small
                  (rw (same_period p n same has') at e) in
              (same, rw none left, omega arith);
          finishing = λ cx' out _ _ _ e. absurd (ground arith);
          waiting = λ cx' awake free e _.
              let p' : PendingFuture T F = record p {
                future = (F.poll r.polled p.future cx').1;
                adding_up_time = u64 (p.adding_up_time + u64 (micros_between r.begin r.returned));
                pend_cnt = u32 (p.pend_cnt + 1);
                state = common;
              } in
              let less = not_free p same free in
              let t = micros_between r.begin r.returned in
              let one : took T F polls r p p' ≡ t =
                took_elapsed T timer F polls r p p' (counted r.polled p.future cx') in
              let fits : p'.adding_up_time ≡ p.adding_up_time + t = omega arith in
              let due =
                awake_paid T timer F polls (price handle.priority) spent born latest
                  p.adding_up_time p cx cx' r paid f₁ awake in
              let more = price_sum handle.priority spent t in
              let more' = price_sum handle.priority p.adding_up_time t in
              (same, rw (one, fits, more, more') (omega arith), omega arith);
        })

    Reached-IsPaid :
        (s : F.State) (p : PendingFuture T F) (cx : Context) (latest spent : ℕ)
        → Reached T F polls handle s born p cx latest spent
        → IsPaid T F polls handle born p latest spent
    unfolding new
    Reached-IsPaid s p cx latest spent (made cx') = (refl, omega arith, omega arith)
    Reached-IsPaid s p cx latest spent (polled p₀ cx₀ latest₀ spent₀ r v reached forward e still) =
        let paid = Reached-IsPaid s p₀ cx₀ latest₀ spent₀ reached in
        let kept = poll-IsPaid r p₀ cx₀ latest₀ spent₀ forward paid in (rw e at kept) still

    -- However a future of mode_time.rs is polled, at a priority that has a period: its inner future is
    -- polled again only when the whole microseconds of all its polls before, each poll cut off to them
    -- as the wrapper counts it, are no more than one for each `price` nanoseconds since it was made, and
    -- ten. (The clock runs forward, and no poll takes more than an hour.)
    pub time_share :
        (s : F.State) (p : PendingFuture T F) (cx : Context) (latest spent : ℕ) (r : Readings)
        → Reached T F polls handle s born p cx latest spent
        → IsForward T F polls latest r
        → Returns (poll T F r p cx) (λ v.
          (polls v.this.future ≡ polls p.future)
          ⊎ (price handle.priority * spent + born ≤ r.begin + price handle.priority * inter))
    time_share s p cx latest spent r reached (f₁, f₂, f₃, f₄, f₅, f₆) =
        let (same, paid, _) = Reached-IsPaid s p cx latest spent reached in
        let due : (cx' : Context)
            → IsAwake T F r p cx cx'
            → IsFree T F p
            → price handle.priority * spent + born ≤ r.begin + price handle.priority * inter =
          λ cx' awake free.
            let at =
              awake_paid T timer F polls (price handle.priority) spent born latest p.adding_up_time
                p cx cx' r paid f₁ awake in
            let less = price_rises handle.priority p.adding_up_time (not_free p same free) in
            omega arith in
        poll_paths T F _ r p cx (record {
          sleeping = λ s cx' _. inl refl;
          pausing = λ cx' n st cx'' _ _ _ _. inl refl;
          finishing = λ cx' out awake free _. inr (due cx' awake free);
          waiting = λ cx' awake free _. inr (due cx' awake free);
        })
