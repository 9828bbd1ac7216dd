-- ===== src/PendingFuture/ModeRatelimiter/Progress.antt =====
-- How many polls a future wrapped by mode_ratelimiter.rs needs that is alone in its runtime.
use rs_run.Base.{
  ℕ, suc, ◌+◌, ◌*◌, ◌≤◌, ◌<◌, ◌≡◌, refl, sym, subst, ◌∙◌, ◌⊎◌, inl, inr, some, List, [], ◌∷◌, max,
  done, Returns, Returns-both, length, arith,
}
use mathlib.Core.Option.{some-injective}
use rs_run.Host.{ready, pending, Context, Future, Timer, IsTimer, from_millis, max_sleep}
use rs_run.Host.Limiter.{
  Config, Limiter, IsLimiter, IsHinted, Served, built, asked, granted, refused,
}
use rs_run.Priority.{Priority}
use rs_run.PendingFuture.Drive.{drive_none, drive_step}
use rs_run.PendingFuture.RuntimeHandle.{limits, RateLimiterRuntimeHandle}
use rs_run.PendingFuture.RuntimeHandle as Handle
use rs_run.PendingFuture.RuntimeHandle.Limits.{new_limited}
use rs_run.PendingFuture.Backoff.{
  State, common, backoff, back_off, back_off_deadline, back_off_over, asleep_not_late,
}
use rs_run.PendingFuture.ModeRatelimiter.Cases.{
  IsAwake, from_pause, from_common, IsLetIn, unlimited, for_token, poll_paths,
}
use rs_run.PendingFuture.ModeRatelimiter.Runs.{fresh, result, round, drive}
use rs_run.PendingFuture.ModeRatelimiter.{PendingFuture, Readings, Polled, new, poll}

limits_short :
    (p : Priority) (c : Config) → limits p ≡ some c → (0 < c.amount) × (c.interval ≤ max_sleep)
unfolding limits
limits_short p c e = ground arith

module _ (T : Timer) (timer : IsTimer T) (L : Limiter) (limiter : IsLimiter L) (hints : IsHinted L)
    {Output : Type 0} (F : Future Output) where
  -- The poll comes a millisecond after the deadline of the pause, if there is one.
  abbrev pub IsLate : Readings → PendingFuture T F → Type 0
  IsLate r p = (s : T.Sleep) → p.state ≡ backoff s → T.deadline s + from_millis 1 ≤ r.resumed

  -- The clock runs forward in a poll.
  abbrev pub IsForward : ℕ → Readings → Type 0
  IsForward latest r =
      (latest ≤ r.resumed) × (r.resumed ≤ r.asked) × (r.asked ≤ r.slept) × (r.slept ≤ r.rechecked)

  -- Each poll of the run is late in that sense, and the clock runs forward.
  abbrev pub AllLate : ℕ → List Readings → Polled T L F → Type 0
  AllLate latest [] v = Unit {0}
  AllLate latest (r ∷ rs) v =
      IsLate r v.this
      × IsForward latest r
      × Returns (poll T L F r v.this v.handle v.cx) (λ w. AllLate r.rechecked rs w)

  -- The time from which a future goes on.
  abbrev free_from : State T.Sleep → ℕ → ℕ
  free_from common latest = latest
  free_from (backoff s) latest = T.deadline s

  free_by :
      (r : Readings) (p : PendingFuture T F) (st : State T.Sleep) (latest : ℕ)
      → p.state ≡ st
      → IsLate r p
      → latest ≤ r.resumed
      → free_from st latest ≤ r.resumed
  free_by r p common latest e late forward = forward
  free_by r p (backoff s) latest e late forward = omega (arith, late s e)

  -- From a time on, the limiter has a token.
  abbrev Promises : L.Ratelimiter → ℕ → Type 0
  Promises l from = (now : ℕ) → from ≤ now → (L.try_wait now l).0 ≡ granted

  module _ (left : F.State → ℕ)
      (falls : (now : ℕ) (s : F.State) (cx : Context)
        → (F.poll now s cx).0 ≡ pending
        → left (F.poll now s cx).1 < left s)
      (c : Config) (born : ℕ) (some_tokens : 0 < c.amount) (short : c.interval ≤ max_sleep) where
    -- The limiter of a future, and enough rounds for what is left: two for each poll of the inner future,
    -- of which the limiter can refuse the first.
    abbrev Going : ℕ → ℕ → Polled T L F → Type 0
    Going n latest v =
        (l : L.Ratelimiter) × (last : ℕ) × (v.handle.limiter ≡ some l)
        × Served L c born l last
        × (last ≤ latest)
        × ((2 * left v.this.future + 2 ≤ n)
            ⊎ ((2 * left v.this.future + 1 ≤ n) × Promises l (free_from v.this.state latest)))

    awake_same :
        (r : Readings) (p : PendingFuture T F) (h h' : RateLimiterRuntimeHandle L)
        (cx cx' : Context)
        → IsAwake T L F r p h cx h' cx'
        → h'.limiter ≡ h.limiter
    awake_same r p h h' cx cx' (from_pause _ e) = rw e refl
    awake_same r p h h' cx cx' (from_common _ _ e) = rw e refl

    let_in_after :
        (r : Readings) (p : PendingFuture T F) (h h' : RateLimiterRuntimeHandle L) (n : ℕ)
        (l : L.Ratelimiter)
        → h.limiter ≡ some l
        → IsLetIn T L F r p h n h'
        → h'.limiter ≡ some (L.try_wait r.asked l).1
    let_in_after r p h h' n l has (unlimited gone _ _) = absurd (ground arith)
    let_in_after r p h h' n l has (for_token l' has' _ _ after) =
        subst (λ k. h'.limiter ≡ some (L.try_wait r.asked k).1)
          (some-injective l' l (sym has' ∙ has)) (rw after refl)

    -- After the pause for a refusal.
    paused :
        (r : Readings) (l : L.Ratelimiter) (wait : ℕ) (st : State T.Sleep) (cx' cx'' : Context)
        → wait ≤ max_sleep
        → r.asked ≤ r.slept
        → back_off T r.slept r.rechecked wait cx' ≡ done (st, cx'')
        → r.asked + wait ≤ free_from st r.rechecked
    paused r l wait common cx' cx'' fits forward e =
        omega (arith, back_off_over T timer r.slept r.rechecked wait cx' cx'' fits e)
    paused r l wait (backoff s) cx' cx'' fits forward e =
        omega (arith, back_off_deadline T timer r.slept r.rechecked wait cx' cx'' s fits e)

    refused_next :
        (n latest last : ℕ) (r : Readings) (v : Polled T L F) (l : L.Ratelimiter) (wait : ℕ)
        → (2 * left v.this.future + 2 ≤ suc n)
          ⊎ ((2 * left v.this.future + 1 ≤ suc n) × Promises l (free_from v.this.state latest))
        → free_from v.this.state latest ≤ r.asked
        → (L.try_wait r.asked l).0 ≡ refused wait
        → 2 * left v.this.future + 1 ≤ n
    refused_next n latest last r v l wait (inl enough) free no_token = omega (arith, enough)
    refused_next n latest last r v l wait (inr (_, promise)) free no_token =
        let token = promise r.asked free in absurd (ground arith)

    poll-Going :
        (n latest : ℕ) (r : Readings) (v : Polled T L F)
        → IsLate r v.this
        → IsForward latest r
        → Going (suc n) latest v
        → Returns
            (poll T L F r v.this v.handle v.cx)
            (λ w. w.result ≡ pending → Going n r.rechecked w)
    poll-Going n latest r v late (f₁, f₂, f₃, f₄) (l, last, has, served, most, enough) =
        let free = free_by r v.this v.this.state latest refl late f₁ in
        let served' = asked l last r.asked served in
        let most' : max last r.asked ≤ r.rechecked = ground arith in
        poll_paths T L F _ r v.this v.handle v.cx (record {
          sleeping =
              λ s cx' e. absurd (asleep_not_late T timer r.resumed v.this.state v.cx s cx' late e);
          turned_away = λ h' cx' l' wait st cx'' awake has' no_token e _.
              let same : l' ≡ l =
                some-injective l' l
                  (sym has' ∙ awake_same r v.this v.handle h' v.cx cx' awake ∙ has) in
              let no_token' = subst (λ k. (L.try_wait r.asked k).0 ≡ refused wait) same no_token in
              let (fits, promise) =
                hints.hinted c born l last r.asked wait some_tokens served (omega arith)
                  no_token' in
              let from = paused r l wait st cx' cx'' (omega arith) f₃ e in
              (
                (L.try_wait r.asked l).1,
                max last r.asked,
                rw same refl,
                served',
                most',
                inr (
                  refused_next n latest last r v l wait enough (omega arith) no_token',
                  λ now' there. promise now' (omega arith),
                ),
              );
          finishing = λ h' h'' cx' m out _ _ _ e. absurd (ground arith);
          waiting = λ h' h'' cx' m awake let_in e _.
              let less = falls r.polled v.this.future cx' e in
              let rounds : 2 * left v.this.future + 1 ≤ suc n = elim enough [
                | inl two ↦ omega (arith, two)
                | inr one ↦ one.0
              ] in
              (
                (L.try_wait r.asked l).1,
                max last r.asked,
                let_in_after r v.this h' h'' m l
                    (awake_same r v.this v.handle h' v.cx cx' awake ∙ has) let_in,
                served',
                most',
                inl (omega arith),
              );
        })

    none_left : (latest : ℕ) (v : Polled T L F) → ¬ Going 0 latest v
    none_left latest v (l, last, has, served, most, inl enough) = omega (arith, enough)
    none_left latest v (l, last, has, served, most, inr (enough, _)) = omega (arith, enough)

    drive_ends :
        (latest : ℕ) (rs : List Readings) (v : Polled T L F)
        → (v.result ≡ pending → Going (length rs) latest v)
        → AllLate latest rs v
        → Returns (drive T L F rs v) (λ w. (out : Output) × (w.result ≡ ready out))
    drive_ends latest [] v enough late =
        drive_none (result T L F) (round T L F) v (λ e. none_left latest v (enough e))
    drive_ends latest (r ∷ rs) v enough (late, forward, next) =
        drive_step (result T L F) (round T L F) _ r rs v (λ out e. (out, e))
          (λ e.
            Returns-both (poll T L F r v.this v.handle v.cx)
              (λ w going later. drive_ends r.rechecked rs w going later)
              (poll-Going (length rs) latest r v late forward (enough e)) next)

  -- Let a handle be made for a priority that is limited, let one future be spawned with it, and let
  -- `left` bound the polls that its inner future needs but for the last. If the executor polls late
  -- enough for each pause to be over, and the clock runs forward, a run of twice as many polls and two
  -- more brings the wrapped future to its end: it does not panic and returns a result. (The limiter
  -- keeps its documented hints.)
  pub drive_limited_finishes :
      (left : F.State → ℕ)
      → ((now : ℕ) (s : F.State) (cx : Context)
          → (F.poll now s cx).0 ≡ pending
          → left (F.poll now s cx).1 < left s)
      → (born : ℕ) (p : Priority) (c : Config) (h : RateLimiterRuntimeHandle L) (rs : List Readings)
        (s : F.State) (cx : Context)
      → limits p ≡ some c
      → Handle.new L born p ≡ done h
      → 2 * left s + 2 ≤ length rs
      → AllLate born rs (fresh T L F h s cx)
      → Returns (drive T L F rs (fresh T L F h s cx)) (λ w. (out : Output) × (w.result ≡ ready out))
  unfolding new
  drive_limited_finishes left falls born p c h rs s cx limited made enough late =
      let (l, has, built_l, _, _) = new_limited L limiter born p c h limited made in
      let (some_tokens, short) = limits_short p c limited in
      drive_ends left falls c born some_tokens short born rs (fresh T L F h s cx)
        (λ _. (l, born, has, built l built_l, omega arith, inl enough)) late
