-- ===== src/PendingFuture/ModeRatelimiter/Counter.antt =====
-- The counter of resting futures in the handle (`handle.1.3`): the end of a pause takes one off, and
-- nothing in the source ever adds one.
use rs_run.Base.{
  ℕ, suc, ◌+◌, ◌-◌, ◌^◌, ◌≤◌, ◌<◌, ◌≡◌, ap, ◌∙◌, ◌⊎◌, inl, inr, List, Returns, Returns-map, length,
  arith,
}
use rs_run.Host.{pending, Context, Future, Timer, IsTimer, from_millis}
use rs_run.Host.Limiter.{Limiter}
use rs_run.PendingFuture.Drive.{drive_inv}
use rs_run.PendingFuture.RuntimeHandle.{RateLimiterRuntimeHandle}
use rs_run.PendingFuture.Backoff.{backoff, asleep_late}
use rs_run.PendingFuture.ModeRatelimiter.Cases.{
  IsAwake, from_pause, from_common, IsLetIn, unlimited, for_token, poll_paths,
}
use rs_run.PendingFuture.ModeRatelimiter.Runs.{fresh, result, round, drive}
use rs_run.PendingFuture.ModeRatelimiter.{PendingFuture, Readings, Polled, poll}

module _ (T : Timer) (L : Limiter) {Output : Type 0} (F : Future Output) where
  resting_let_in :
      (r : Readings) (p : PendingFuture T F) (h h' : RateLimiterRuntimeHandle L) (n : ℕ)
      → IsLetIn T L F r p h n h'
      → h'.resting ≡ h.resting
  resting_let_in r p h h' n (unlimited _ _ e) = rw e
  resting_let_in r p h h' n (for_token l _ _ _ e) = rw e

  -- The end of a pause takes one off the counter of the handle: from 0, which `new` gives it, to the
  -- largest number of its word.
  pub poll_wraps :
      IsTimer T
      → (r : Readings) (p : PendingFuture T F) (h : RateLimiterRuntimeHandle L) (cx : Context)
        (s : T.Sleep)
      → p.state ≡ backoff s
      → T.deadline s + from_millis 1 ≤ r.resumed
      → h.resting ≡ 0
      → Returns (poll T L F r p h cx) (λ v. v.handle.resting ≡ 2 ^ 64 - 1)
  poll_wraps timer r p h cx s paused late zero = poll_paths T L F _ r p h cx (record {
    sleeping = λ s' cx' e. absurd (asleep_late T timer r.resumed p.state cx s s' cx' paused late e);
    turned_away = λ h' cx' l wait st cx'' awake _ _ _. ended h' cx' awake;
    finishing =
        λ h' h'' cx' n out awake let_in _. resting_let_in r p h' h'' n let_in ∙ ended h' cx' awake;
    waiting =
        λ h' h'' cx' n awake let_in _. resting_let_in r p h' h'' n let_in ∙ ended h' cx' awake;
  })
    where
      ended :
          (h' : RateLimiterRuntimeHandle L) (cx' : Context)
          → IsAwake T L F r p h cx h' cx'
          → h'.resting ≡ 2 ^ 64 - 1
      ended h' cx' (from_pause _ e) = ground arith
      ended h' cx' (from_common e _ _) = absurd (ground arith)

  -- `n` rounds are left of a run of `total`.
  abbrev Going : ℕ → ℕ → Polled T L F → Type 0
  Going total n v =
      ((v.handle.resting ≡ 0) ⊎ (2 ^ 64 + n ≤ v.handle.resting + total))
      × (v.handle.resting < 2 ^ 64)
      × (n ≤ total)

  resting_awake :
      (total n : ℕ) (r : Readings) (v : Polled T L F) (h' : RateLimiterRuntimeHandle L)
      (cx' : Context)
      → total < 2 ^ 64
      → Going total (suc n) v
      → IsAwake T L F r v.this v.handle v.cx h' cx'
      → ((h'.resting ≡ 0) ⊎ (2 ^ 64 + n ≤ h'.resting + total)) × (h'.resting < 2 ^ 64) × (n ≤ total)
  resting_awake total n r v h' cx' short g (from_pause _ e) =
      let one = ap (λ (h : RateLimiterRuntimeHandle L). h.resting) e in
      (inr (omega arith), omega arith, omega arith)
  resting_awake total n r v h' cx' short g (from_common _ _ e) =
      let one = ap (λ (h : RateLimiterRuntimeHandle L). h.resting) e in
      (ground arith, omega arith, omega arith)

  resting_kept :
      (total n : ℕ) (h h' : RateLimiterRuntimeHandle L)
      → ((h.resting ≡ 0) ⊎ (2 ^ 64 + n ≤ h.resting + total)) × (h.resting < 2 ^ 64) × (n ≤ total)
      → h'.resting ≡ h.resting
      → ((h'.resting ≡ 0) ⊎ (2 ^ 64 + n ≤ h'.resting + total)) × (h'.resting < 2 ^ 64) × (n ≤ total)
  resting_kept total n h h' g e = (ground arith, omega arith, omega arith)

  poll-Going :
      (total : ℕ)
      → total < 2 ^ 64
      → (n : ℕ) (r : Readings) (v : Polled T L F) → v.result ≡ pending
      → Going total (suc n) v
      → Returns (poll T L F r v.this v.handle v.cx) (Going total n)
  poll-Going total short n r v e g =
      poll_paths T L F (Going total n) r v.this v.handle v.cx (record {
        sleeping = λ s cx' _. (ground arith, omega arith, omega arith);
        turned_away =
            λ h' cx' l wait st cx'' awake _ _ _. resting_awake total n r v h' cx' short g awake;
        finishing = λ h' h'' cx' m out awake let_in _.
            resting_kept total n h' h'' (resting_awake total n r v h' cx' short g awake)
              (resting_let_in r v.this h' h'' m let_in);
        waiting = λ h' h'' cx' m awake let_in _.
            resting_kept total n h' h'' (resting_awake total n r v h' cx' short g awake)
              (resting_let_in r v.this h' h'' m let_in);
      })

  -- After any run of polls by which one future uses a new handle, the counter is 0 or so near to the
  -- end of its word that it counts nothing that rests: it lacks at most one for each poll.
  pub drive_resting :
      (rs : List Readings) (h : RateLimiterRuntimeHandle L) (s : F.State) (cx : Context)
      → h.resting ≡ 0
      → length rs < 2 ^ 64
      → Returns
          (drive T L F rs (fresh T L F h s cx))
          (λ v. (v.handle.resting ≡ 0) ⊎ (2 ^ 64 ≤ v.handle.resting + length rs))
  drive_resting rs h s cx zero short =
      let start = fresh T L F h s cx in
      Returns-map (drive T L F rs start)
        (λ (v : Polled T L F) (w : (n : ℕ) × Going (length rs) n v). ground arith)
        (drive_inv (result T L F) (round T L F) (Going (length rs)) (poll-Going (length rs) short)
          rs start (inl zero, omega arith, omega arith))
