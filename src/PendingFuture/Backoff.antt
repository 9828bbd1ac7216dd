-- ===== src/PendingFuture/Backoff.antt =====
-- The states of a wrapped future that every mode has (mode_count.rs, mode_time.rs and
-- mode_ratelimiter.rs each declare them), and the two passages of `poll` that they share.
use rs_run.Base.{ℕ, ◌+◌, ◌≤◌, ◌<◌, ◌≡◌, refl, ap, Outcome, done, panicked, ◌>>=◌, arith}
use rs_run.Host.{
  Poll, ready, pending, Context, wake, IsArmed, Timer, IsTimer, from_millis, max_sleep,
}

pub data State (Sleep : Type 0) : Type 0 where
  common : State Sleep
  backoff : Sleep → State Sleep

unfoldable pub unwrap_backoff : {Sleep : Type 0} → State Sleep → Outcome Sleep
unwrap_backoff (backoff sleep) = done sleep
unwrap_backoff common = panicked

-- What the `match this.state` at the head of `poll` comes to: a return of `Pending`, or the rest of
-- `poll` in state `Common`, with or without a pause that has just ended.
pub data Resumed (Sleep : Type 0) : Type 0 where
  asleep : Sleep → Context → Resumed Sleep
  rested : Context → Resumed Sleep
  running : Resumed Sleep

module _ (T : Timer) where
  after_sleep : Poll (Unit {0}) × T.Sleep × Context → Resumed T.Sleep
  after_sleep (ready _, sleep, cx) = rested cx
  after_sleep (pending, sleep, cx) = asleep sleep cx

  unfoldable pub resume : ℕ → State T.Sleep → Context → Resumed T.Sleep
  unfolding after_sleep
  resume now common cx = running
  resume now (backoff sleep) cx = after_sleep (T.poll now sleep cx)

  unfoldable pub settle : Poll (Unit {0}) × T.Sleep × Context → State T.Sleep × Context
  settle (ready _, sleep, cx) = (common, wake cx)
  settle (pending, sleep, cx) = (backoff sleep, cx)

  -- A new pause, polled once; `poll` returns `Pending` after it in any case.
  unfoldable pub back_off : ℕ → ℕ → ℕ → Context → Outcome (State T.Sleep × Context)
  unfolding unwrap_backoff settle
  back_off slept polled duration cx = do
    sleep ← unwrap_backoff (backoff (T.sleep slept duration))
    done (settle (T.poll polled sleep cx))

  pub running-common :
      (now : ℕ) (st : State T.Sleep) (cx : Context) → resume now st cx ≡ running → st ≡ common
  unfolding resume
  running-common now common cx e = refl
  running-common now (backoff s) cx e = ground arith

  pub resume-common : (now : ℕ) (cx : Context) → resume now common cx ≡ running
  unfolding resume
  resume-common now cx = refl

  pub back_off_lem :
      (slept polled duration : ℕ) (cx : Context)
      → back_off slept polled duration cx
        ≡ done (settle (T.poll polled (T.sleep slept duration) cx))
  unfolding back_off
  back_off_lem slept polled duration cx = refl

module _ (T : Timer) (law : IsTimer T) where
  open law use {keeps, registers, not_early, on_time, deadline-poll, deadline-sleep}

  -- Whichever way the new sleep answers its first poll, the task will be woken.
  settle-IsArmed :
      (now : ℕ) (s : T.Sleep) (cx : Context) → IsArmed cx (settle T (T.poll now s cx)).1
  unfolding settle
  settle-IsArmed now s cx = ground (arith, keeps now s cx, registers now s cx)

  -- From a new pause the task will be woken.
  pub back_off-IsArmed :
      (slept polled duration : ℕ) (cx : Context) (st : State T.Sleep) (cx' : Context)
      → back_off T slept polled duration cx ≡ done (st, cx')
      → IsArmed cx cx'
  unfolding back_off
  back_off-IsArmed slept polled duration cx st cx' e =
      ground (arith, settle-IsArmed polled (T.sleep slept duration) cx)

  -- The pause that is left, if the timer did not end it at once, has the deadline that was asked for.
  pub back_off_deadline :
      (slept polled duration : ℕ) (cx cx' : Context) (s : T.Sleep)
      → duration ≤ max_sleep
      → back_off T slept polled duration cx ≡ done (backoff s, cx')
      → T.deadline s ≡ slept + duration
  unfolding back_off
  back_off_deadline slept polled duration cx cx' s h e =
      ground
        (arith, deadline-sleep slept duration h, deadline-poll polled (T.sleep slept duration) cx)

  -- A pause that the timer ends at once is over.
  pub back_off_over :
      (slept polled duration : ℕ) (cx cx' : Context)
      → duration ≤ max_sleep
      → back_off T slept polled duration cx ≡ done (common, cx')
      → slept + duration ≤ polled
  unfolding back_off
  back_off_over slept polled duration cx cx' h e =
      ground (arith, deadline-sleep slept duration h, not_early polled (T.sleep slept duration) cx)

  -- A future that has rested did so until its deadline.
  pub rested_over :
      (now : ℕ) (st : State T.Sleep) (cx cx' : Context)
      → resume T now st cx ≡ rested cx'
      → (s : T.Sleep) × (st ≡ backoff s) × (T.deadline s ≤ now)
  unfolding resume
  rested_over now common cx cx' e = absurd (ground arith)
  rested_over now (backoff s) cx cx' e = (s, refl, ground (arith, not_early now s cx))

  -- Before its deadline a sleep keeps the future asleep, with the same deadline.
  pub resume_early :
      (now : ℕ) (s : T.Sleep) (cx : Context)
      → now < T.deadline s
      → (s' : T.Sleep) × (cx' : Context) × (resume T now (backoff s) cx ≡ asleep s' cx')
        × (T.deadline s' ≡ T.deadline s)
        × IsArmed cx cx'
  unfolding resume
  resume_early now s cx h = (
    (T.poll now s cx).1,
    (T.poll now s cx).2,
    ground (arith, not_early now s cx),
    deadline-poll now s cx,
    registers now s cx (not_early now s cx h),
  )

  -- A millisecond after its deadline it lets the future go on.
  pub resume_late :
      (now : ℕ) (s : T.Sleep) (cx : Context)
      → T.deadline s + from_millis 1 ≤ now
      → resume T now (backoff s) cx ≡ rested (T.poll now s cx).2
  unfolding resume
  resume_late now s cx h = ground (arith, on_time now s cx)

  -- A future that stays asleep will be woken.
  pub asleep-IsArmed :
      (now : ℕ) (st : State T.Sleep) (cx : Context) (s' : T.Sleep) (cx' : Context)
      → resume T now st cx ≡ asleep s' cx'
      → IsArmed cx cx'
  unfolding resume
  asleep-IsArmed now common cx s' cx' e = cc
  asleep-IsArmed now (backoff s) cx s' cx' e = ground (arith, registers now s cx)

  -- Ending a pause loses no wake-up that was due.
  pub rested_keeps :
      (now : ℕ) (st : State T.Sleep) (cx cx' : Context)
      → resume T now st cx ≡ rested cx'
      → cx.held + cx.wakes ≤ cx'.held + cx'.wakes
  unfolding resume
  rested_keeps now common cx cx' e = cc
  rested_keeps now (backoff s) cx cx' e = ground (arith, keeps now s cx)

  -- A future that is still asleep was asleep before, until the same deadline.
  pub asleep-deadline :
      (now : ℕ) (st : State T.Sleep) (cx : Context) (s' : T.Sleep) (cx' : Context)
      → resume T now st cx ≡ asleep s' cx'
      → (s : T.Sleep) × (st ≡ backoff s) × (T.deadline s' ≡ T.deadline s)
  unfolding resume
  asleep-deadline now common cx s' cx' e = absurd (ground arith)
  asleep-deadline now (backoff s) cx s' cx' e = (s, refl, ground (arith, deadline-poll now s cx))

  -- A future that is polled a millisecond after its deadline is not asleep.
  pub asleep_not_late :
      (now : ℕ) (st : State T.Sleep) (cx : Context) (s' : T.Sleep) (cx' : Context)
      → ((s : T.Sleep) → st ≡ backoff s → T.deadline s + from_millis 1 ≤ now)
      → ¬ (resume T now st cx ≡ asleep s' cx')
  unfolding resume
  asleep_not_late now common cx s' cx' late e = ground arith
  asleep_not_late now (backoff s) cx s' cx' late e = ground (arith, resume_late now s cx, late s)

  pub asleep_late :
      (now : ℕ) (st : State T.Sleep) (cx : Context) (s s' : T.Sleep) (cx' : Context)
      → st ≡ backoff s
      → T.deadline s + from_millis 1 ≤ now
      → ¬ (resume T now st cx ≡ asleep s' cx')
  asleep_late now st cx s s' cx' paused late e =
      ground (arith, resume_late now s cx late, ap (λ t. resume T now t cx) paused)
