-- ===== src/PendingFuture/ModeRatelimiter/Shared/Rate.antt =====
-- How often the futures that share a handle of mode_ratelimiter.rs are polled, all together.
use mathlib.Core.Option.{some-injective}
use native.Mathlib.Nat.{mul-le-mul_left}
use rs_run.Base.{
  ℕ, suc, ◌+◌, ◌*◌, ◌-◌, ◌≤◌, ◌≡◌, refl, sym, ap, subst, ◌∙◌, ◌⊎◌, inl, inr, false, some, List, ◌∷◌,
  ◌++◌, max, ltb, done, Returns, arith,
}
use rs_run.Host.{Context, Future, Timer}
use rs_run.Host.Limiter.{Config, Limiter, IsLimiter, Served, built, asked, IsPaced}
use rs_run.Priority.{Priority}
use rs_run.PendingFuture.RuntimeHandle.{
  limits, RateLimiterRuntimeHandle, build_limiter, drop_handle,
}
use rs_run.PendingFuture.RuntimeHandle as Handle
use rs_run.PendingFuture.RuntimeHandle.Limits.{new_limited}
use rs_run.PendingFuture.ModeRatelimiter.Cases.{
  IsAwake, from_pause, from_common, IsLetIn, unlimited, for_token, poll_paths,
}
use rs_run.PendingFuture.ModeRatelimiter.Shared.{
  Member, spawned, member_of, Past, Reached, at_first, spawns, polled, dropped, handle_dropped,
  all_polls, all_polls-append,
}
use rs_run.PendingFuture.ModeRatelimiter.{PendingFuture, Readings, Polled, new, poll}

module _ (T : Timer) (L : Limiter) (limiter : IsLimiter L) {Output : Type 0} (F : Future Output)
    (polls : F.State → ℕ)
    (counted : (now : ℕ) (s : F.State) (cx : Context)
      → polls (F.poll now s cx).1 ≡ suc (polls s)) where
  -- One poll asks the limiter or does not, and polls the inner future for each token.
  abbrev Metered :
      Readings
      → PendingFuture T F
      → L.Ratelimiter
      → RateLimiterRuntimeHandle L
      → Polled T L F
      → Type 0
  Metered r p l h v =
      (l' : L.Ratelimiter) × (v.handle.limiter ≡ some l')
      × ((l' ≡ l) ⊎ (l' ≡ (L.try_wait r.asked l).1))
      × (L.taken l' + polls p.future ≡ L.taken l + polls v.this.future)
      × (v.handle.stopped ≡ h.stopped)

  awake_handle :
      (r : Readings) (p : PendingFuture T F) (h h' : RateLimiterRuntimeHandle L) (cx cx' : Context)
      → IsAwake T L F r p h cx h' cx'
      → (h'.limiter ≡ h.limiter) × (h'.stopped ≡ h.stopped)
  awake_handle r p h h' cx cx' (from_pause _ e) = rw e (refl, refl)
  awake_handle r p h h' cx cx' (from_common _ _ e) = rw e (refl, refl)

  let_in :
      (r : Readings) (p : PendingFuture T F) (h h' : RateLimiterRuntimeHandle L) (n : ℕ)
      (l : L.Ratelimiter)
      → h.limiter ≡ some l
      → IsLetIn T L F r p h n h'
      → (h'.limiter ≡ some (L.try_wait r.asked l).1)
        × (h'.stopped ≡ h.stopped)
        × (L.taken (L.try_wait r.asked l).1 ≡ suc (L.taken l))
  let_in r p h h' n l has (unlimited gone _ _) = absurd (ground arith)
  let_in r p h h' n l has (for_token l' has' grant _ after) =
      let same : l' ≡ l = some-injective l' l (sym has' ∙ has) in
      subst
        (λ k.
          (h'.limiter ≡ some (L.try_wait r.asked k).1)
          × (h'.stopped ≡ h.stopped)
          × (L.taken (L.try_wait r.asked k).1 ≡ suc (L.taken k)))
        same (rw after (refl, refl, (limiter.takes r.asked l' grant).0))

  poll-Metered :
      (r : Readings) (p : PendingFuture T F) (h : RateLimiterRuntimeHandle L) (cx : Context)
      (l : L.Ratelimiter)
      → h.limiter ≡ some l
      → Returns (poll T L F r p h cx) (Metered r p l h)
  poll-Metered r p h cx l has = poll_paths T L F (Metered r p l h) r p h cx (record {
    sleeping = λ s cx' _. (l, has, inl refl, refl, refl);
    turned_away = λ h' cx' l' wait st cx'' awake has' no_token _.
        let (kept, on) = awake_handle r p h h' cx cx' awake in
        let same : l' ≡ l = some-injective l' l (sym has' ∙ kept ∙ has) in
        let none_taken = (limiter.turns_away r.asked l' wait no_token).0 in
        let before = ap L.taken same in
        (
          (L.try_wait r.asked l').1,
          refl,
          inr (ap (λ k. (L.try_wait r.asked k).1) same),
          omega arith,
          on,
        );
    finishing = λ h' h'' cx' m out awake let_him _.
        let (kept, on) = awake_handle r p h h' cx cx' awake in
        let (is, on', t) = let_in r p h' h'' m l (kept ∙ has) let_him in
        let one = counted r.polled p.future cx' in
        ((L.try_wait r.asked l).1, is, inr refl, omega arith, on' ∙ on);
    waiting = λ h' h'' cx' m awake let_him _.
        let (kept, on) = awake_handle r p h h' cx cx' awake in
        let (is, on', t) = let_in r p h' h'' m l (kept ∙ has) let_him in
        let one = counted r.polled p.future cx' in
        ((L.try_wait r.asked l).1, is, inr refl, omega arith, on' ∙ on);
  })

  -- The accounts of all futures: the limiter that is there, when it was asked last, and what it gave.
  abbrev Accounts :
      Config → ℕ → RateLimiterRuntimeHandle L → List (Member T L F) → Past T L F polls → Type 0
  Accounts c born h ms past =
      (l : L.Ratelimiter) × (latest : ℕ) × (h.limiter ≡ some l)
      × Served L c born l latest
      × (latest ≤ past.latest)
      × (all_polls T L F polls ms + past.gone ≡ L.taken l)
      × (h.stopped ≡ ltb 0 past.drops)

  module _ (c : Config) (born : ℕ) (first : RateLimiterRuntimeHandle L) (l₀ : L.Ratelimiter)
      (has₀ : first.limiter ≡ some l₀) (built₀ : L.build born c ≡ some l₀) (fresh₀ : L.taken l₀ ≡ 0)
      (on₀ : first.stopped ≡ false) where
    served_later :
        (r : Readings) (l l' : L.Ratelimiter) (latest : ℕ) (past : Past T L F polls)
        → Served L c born l latest
        → latest ≤ past.latest
        → (l' ≡ l) ⊎ (l' ≡ (L.try_wait r.asked l).1)
        → (latest' : ℕ) × Served L c born l' latest' × (latest' ≤ max past.latest r.asked)
    served_later r l l' latest past s most (inl e) =
        (latest, subst (λ k. Served L c born k latest) (sym e) s, ground arith)
    served_later r l l' latest past s most (inr e) = (
      max latest r.asked,
      subst (λ k. Served L c born k (max latest r.asked)) (sym e) (asked l latest r.asked s),
      ground arith,
    )

    spawned_sum :
        (s : F.State) (cx : Context)
        → polls s ≡ 0
        → (ms : List (Member T L F)) (past : Past T L F polls) (l : L.Ratelimiter)
        → all_polls T L F polls ms + past.gone ≡ L.taken l
        → all_polls T L F polls (spawned T L F s cx ∷ ms) + past.gone ≡ L.taken l
    unfolding new
    spawned_sum s cx none_yet ms past l sum = omega arith

    Reached-Accounts :
        (h : RateLimiterRuntimeHandle L) (ms : List (Member T L F)) (past : Past T L F polls)
        → Reached T L F polls first born h ms past
        → Accounts c born h ms past
    unfolding drop_handle
    Reached-Accounts h ms past at_first =
        (l₀, born, has₀, built l₀ built₀, omega arith, omega arith, on₀)
    Reached-Accounts h ms past (spawns h₀ ms₀ past₀ s cx r none_yet) =
        let (l, latest, has, served, most, sum, on) = Reached-Accounts h₀ ms₀ past₀ r in
        (l, latest, has, served, most, spawned_sum s cx none_yet ms₀ past₀ l sum, on)
    Reached-Accounts h ms past (polled h₀ before after m past₀ rd v r going e) =
        let (l, latest, has, served, most, sum, on) =
          Reached-Accounts h₀ (before ++ m ∷ after) past₀ r in
        let (l', is, way, t, on') =
          subst (λ o. Returns o (Metered rd m.this l h₀)) e
            (poll-Metered rd m.this h₀ m.cx l has) in
        let (latest', served', most') = served_later rd l l' latest past₀ served most way in
        let was = all_polls-append T L F polls before (m ∷ after) in
        let now = all_polls-append T L F polls before (member_of T L F v ∷ after) in
        (l', latest', is, served', most', omega arith, on' ∙ on)
    Reached-Accounts h ms past (dropped h₀ before after m past₀ r) =
        let (l, latest, has, served, most, sum, on) =
          Reached-Accounts h₀ (before ++ m ∷ after) past₀ r in
        let was = all_polls-append T L F polls before (m ∷ after) in
        let now = all_polls-append T L F polls before after in
        (l, latest, has, served, most, omega arith, ground arith)
    Reached-Accounts h ms past (handle_dropped h₀ ms₀ past₀ r) =
        let (l, latest, has, served, most, sum, on) = Reached-Accounts h₀ ms₀ past₀ r in
        (l, latest, has, served, most, omega arith, ground arith)

  -- Let a handle be made for a priority that is limited, and let the crate keep its rate. Then however
  -- its futures are spawned, polled and dropped, their inner futures have been polled no more often,
  -- all together, than the priority's amount in each of its intervals since the handle was made; the
  -- latest time is that of the polls so far. There is one poll for each token that the limiter gave.
  pub shared_rate :
      IsPaced L
      → (born : ℕ) (p : Priority) (c : Config) (first h : RateLimiterRuntimeHandle L)
        (ms : List (Member T L F)) (past : Past T L F polls)
      → limits p ≡ some c
      → Handle.new L born p ≡ done first
      → Reached T L F polls first born h ms past
      → ((all_polls T L F polls ms + past.gone) * c.interval ≤ c.amount * (past.latest - born))
        × (l : L.Ratelimiter) × (h.limiter ≡ some l)
        × (all_polls T L F polls ms + past.gone ≡ L.taken l)
  shared_rate pace born p c first h ms past limited made reached =
      let (l₀, has₀, built₀, fresh₀, on₀) = new_limited L limiter born p c first limited made in
      let (l, latest, has, served, most, sum, _) =
        Reached-Accounts c born first l₀ has₀ built₀ fresh₀ on₀ h ms past reached in
      let rate = pace.paced c born l latest served in
      let later : c.amount * (latest - born) ≤ c.amount * (past.latest - born) =
        mul-le-mul_left c.amount (omega arith) in
      (rw sum (omega arith), l, has, sum)

  -- Let a handle be made for a priority that is limited. The flag that its clones share is set as soon
  -- as one of them has been dropped, with one of the futures, or the handle itself, or a clone without a
  -- future, and not before; whether others are still there or not.
  pub shared_stop :
      (born : ℕ) (p : Priority) (c : Config) (first h : RateLimiterRuntimeHandle L)
      (ms : List (Member T L F)) (past : Past T L F polls)
      → limits p ≡ some c
      → Handle.new L born p ≡ done first
      → Reached T L F polls first born h ms past
      → h.stopped ≡ ltb 0 past.drops
  shared_stop born p c first h ms past limited made reached =
      let (l₀, has₀, built₀, fresh₀, on₀) = new_limited L limiter born p c first limited made in
      (Reached-Accounts c born first l₀ has₀ built₀ fresh₀ on₀ h ms past reached).6
