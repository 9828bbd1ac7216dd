-- ===== src/PendingFuture/ModeCount/Rate/Paced.antt =====
-- The pauses of mode_count.rs against the time that passes.
use rs_run.Base.{
  ℕ, suc, ◌+◌, ◌*◌, ◌/◌, ◌%◌, ◌^◌, ◌≤◌, ◌<◌, ◌≡◌, refl, sym, ap, subst, ◌∙◌, ◌⊎◌, ◌≢◌, inl, inr,
  some, none, u32, Returns, done, arith,
}
use mathlib.Core.Option.{some-injective}
use rs_run.Host.{pending, Context, Future, Timer, IsTimer, Float, from_millis}
use rs_run.Priority.{fixed_interval_count}
use rs_run.PendingFuture.RuntimeHandle.{CommonRuntimeHandle}
use rs_run.PendingFuture.Backoff.{
  State, common, backoff, back_off, back_off_deadline, back_off_over, rested_over, asleep-deadline,
}
use rs_run.PendingFuture.ModeCount.Records.{Registry}
use rs_run.PendingFuture.ModeCount.Cases.{IsAwake, poll_paths}
use rs_run.PendingFuture.ModeCount.{PendingFuture, Readings, new, poll}
use rs_run.PendingFuture.ModeCount.Rate.{
  gap, gap_next, gap_four, gap_period, IsForward, Reached, made, polled, until,
}

module _ (T : Timer) (f : Float) {Output : Type 0} (F : Future Output) (type_id : ℕ)
    (timer : IsTimer T) (polls : F.State → ℕ)
    (counted : (now : ℕ) (s : F.State) (cx : Context) → polls (F.poll now s cx).1 ≡ suc (polls s))
    (handle : CommonRuntimeHandle) (period : ℕ)
    (has : fixed_interval_count handle.priority ≡ some period) (born : ℕ) where
  -- Every fifth pause has passed by the time that the last one is over.
  abbrev IsPaced : PendingFuture T F → ℕ → ℕ → Type 0
  IsPaced p latest n =
      (p.handle ≡ handle)
      × (p.pend_cnt ≤ n)
      × (polls p.future + p.pend_cnt / 5 ≡ p.pend_cnt)
      × (gap handle.priority * (p.pend_cnt / 5) + born ≤ until T f F type_id p.state latest)

  awake_paced :
      (pauses latest : ℕ) (p : PendingFuture T F) (cx cx' : Context) (r : Readings)
      → gap handle.priority * pauses + born ≤ until T f F type_id p.state latest
      → latest ≤ r.resumed
      → IsAwake T f F r p cx cx'
      → gap handle.priority * pauses + born ≤ r.resumed
  awake_paced pauses latest p cx cx' r paced later (inl e) =
      let (s, was, over) = rested_over T timer r.resumed p.state cx cx' e in
      let at : gap handle.priority * pauses + born ≤ T.deadline s =
        subst (λ st. gap handle.priority * pauses + born ≤ until T f F type_id st latest) was
          paced in
      omega arith
  awake_paced pauses latest p cx cx' r paced later (inr (was, _)) =
      let at : gap handle.priority * pauses + born ≤ latest =
        subst (λ st. gap handle.priority * pauses + born ≤ until T f F type_id st latest) was
          paced in
      omega arith

  new_pause :
      (r : Readings) (k : ℕ) (cx' cx'' : Context) (st : State T.Sleep)
      → r.rechecked ≤ r.completed
      → r.jitter < 10
      → k ≤ r.slept
      → back_off T r.slept r.rechecked (from_millis (period + r.jitter)) cx' ≡ done (st, cx'')
      → k + gap handle.priority ≤ until T f F type_id st r.completed
  new_pause r k cx' cx'' common later small due e =
      let (same, most) = gap_period handle.priority period has in
      let over = back_off_over T timer r.slept r.rechecked _ cx' cx'' (omega arith) e in omega arith
  new_pause r k cx' cx'' (backoff s) later small due e =
      let (same, most) = gap_period handle.priority period has in
      let dl = back_off_deadline T timer r.slept r.rechecked _ cx' cx'' s (omega arith) e in
      omega arith

  same_period :
      (p : PendingFuture T F) (n : ℕ)
      → p.handle ≡ handle
      → fixed_interval_count p.handle.priority ≡ some n
      → n ≡ period
  same_period p n same has' =
      some-injective _ _ (sym has' ∙ ap (λ h. fixed_interval_count h.priority) same ∙ has)

  not_fifth :
      (p : PendingFuture T F)
      → p.handle ≡ handle
      → (u32 (p.pend_cnt + 1) % 5 ≢ 0) ⊎ (fixed_interval_count p.handle.priority ≡ none)
      → u32 (p.pend_cnt + 1) % 5 ≢ 0
  not_fifth p same (inl early) = early
  not_fifth p same (inr never) =
      let e : some period ≡ none =
        sym has ∙ ap (λ h. fixed_interval_count h.priority) (sym same) ∙ never in
      absurd (ground arith)

  poll-IsPaced :
      (r : Readings) (p : PendingFuture T F) (cx : Context) (registry : Registry f) (latest n : ℕ)
      → suc n < 2 ^ 32
      → IsForward latest r
      → IsPaced p latest n
      → Returns
          (poll T f F type_id r p cx registry)
          (λ v. v.result ≡ pending → IsPaced v.this r.completed (suc n))
  poll-IsPaced r p cx registry latest n room (f₁, f₂, f₃, f₄, f₅, small) (same, few, all, paced) =
      poll_paths T f F _ type_id r p cx registry (record {
        sleeping = λ s cx' e _.
            let (s₀, was, dl) = asleep-deadline T timer r.resumed p.state cx s cx' e in
            let at : gap handle.priority * (p.pend_cnt / 5) + born ≤ T.deadline s₀ =
              subst
                (λ st.
                  gap handle.priority * (p.pend_cnt / 5) + born ≤ until T f F type_id st latest)
                was paced in
            (same, omega arith, all, omega arith);
        pausing = λ cx' m st cx'' awake (fifth, has') e _.
            let before = awake_paced (p.pend_cnt / 5) latest p cx cx' r paced f₁ awake in
            let e' = rw (same_period p m same has') at e in
            let after =
              new_pause r (gap handle.priority * (p.pend_cnt / 5) + born) cx' cx'' st (omega arith)
                small (omega arith) e' in
            let one : u32 (p.pend_cnt + 1) / 5 ≡ p.pend_cnt / 5 + 1 = omega arith in
            let more = gap_next handle.priority (p.pend_cnt / 5) in
            (same, omega arith, omega arith, rw (one, more) (omega arith));
        finishing = λ cx' begin out _ _ _ e. absurd (ground arith);
        waiting = λ cx' awake free e _.
            let before = awake_paced (p.pend_cnt / 5) latest p cx cx' r paced f₁ awake in
            let one = counted r.polled p.future cx' in
            let early = not_fifth p same free in
            let still : u32 (p.pend_cnt + 1) / 5 ≡ p.pend_cnt / 5 = omega arith in
            (same, omega arith, omega arith, rw still (omega arith));
      })

  Reached-IsPaced :
      (s : F.State) (p : PendingFuture T F) (cx : Context) (registry : Registry f) (latest n : ℕ)
      → polls s ≡ 0
      → n < 2 ^ 32
      → Reached T f F type_id handle s born p cx registry latest n
      → IsPaced p latest n
  unfolding new
  Reached-IsPaced s p cx registry latest n fresh few (made cx' registry') =
      (refl, omega arith, omega arith, omega arith)
  Reached-IsPaced s p cx registry latest n fresh few
        (polled p₀ cx₀ registry₀ latest₀ n₀ r v reached forward e still) =
      let paced = Reached-IsPaced s p₀ cx₀ registry₀ latest₀ n₀ fresh (omega arith) reached in
      let kept = poll-IsPaced r p₀ cx₀ registry₀ latest₀ n₀ few forward paced in
      (rw e at kept) still

  -- However a future of mode_count.rs is polled, at a priority that has a period and less often than
  -- its counter is wide: its inner future is polled again only if it has been polled no more than four
  -- times for each period since it was made, and four times. (The clock runs forward.)
  pub count_rate :
      (s : F.State) (p : PendingFuture T F) (cx : Context) (registry : Registry f) (latest n : ℕ)
      (r : Readings)
      → polls s ≡ 0
      → n < 2 ^ 32
      → Reached T f F type_id handle s born p cx registry latest n
      → IsForward latest r
      → Returns (poll T f F type_id r p cx registry) (λ v.
        (polls v.this.future ≡ polls p.future)
        ⊎ (gap handle.priority * polls p.future + 4 * born
            ≤ 4 * r.polled + 4 * gap handle.priority))
  count_rate s p cx registry latest n r fresh few reached (f₁, f₂, f₃, f₄, f₅, small) =
      let (same, _, all, paced) = Reached-IsPaced s p cx registry latest n fresh few reached in
      let due : (cx' : Context)
          → IsAwake T f F r p cx cx'
          → gap handle.priority * polls p.future + 4 * born
            ≤ 4 * r.polled + 4 * gap handle.priority =
        λ cx' awake.
          let at = awake_paced (p.pend_cnt / 5) latest p cx cx' r paced f₁ awake in
          let most = gap_four handle.priority (polls p.future) (p.pend_cnt / 5) (omega arith) in
          omega arith in
      poll_paths T f F _ type_id r p cx registry (record {
        sleeping = λ s cx' _. inl refl;
        pausing = λ cx' m st cx'' _ _ _. inl refl;
        finishing = λ cx' begin out awake _ _. inr (due cx' awake);
        waiting = λ cx' awake _ _. inr (due cx' awake);
      })
