-- ===== src/PendingFuture/RuntimeHandle/Limits.antt =====
-- The rates that RateLimiterRuntimeHandle::new asks for.
use rs_run.Base.{
  ℕ, ◌^◌, ◌≤◌, ◌<◌, ◌≡◌, ◌≢◌, refl, false, none, some, done, ◌⊎◌, inl, inr, Returns, arith,
}
use rs_run.Host.Limiter.{Config, Limiter, IsLimiter}
use rs_run.Priority.{Priority, very_low, low, middle, high, very_high}
use rs_run.PendingFuture.RuntimeHandle.{limits, RateLimiterRuntimeHandle, build_limiter, new}

limits_fit :
    (p : Priority) (c : Config)
    → limits p ≡ some c
    → (c.amount ≤ c.max_tokens) × (c.interval < 2 ^ 64)
unfolding limits
limits_fit p c e = ground arith

module _ (L : Limiter) (limiter : IsLimiter L) where
  -- What holds of a new handle.
  abbrev pub IsNew : Priority → RateLimiterRuntimeHandle L → Type 0
  IsNew p h =
      (h.priority ≡ p)
      × (h.stopped ≡ false)
      × (h.resting ≡ 0)
      × (((p ≡ very_high) × (h.limiter ≡ none))
          ⊎ ((l : L.Ratelimiter) × (h.limiter ≡ some l)
              × (p ≢ very_high)
              × (L.taken l ≡ 0)
              × (L.turned_away l ≡ 0)))

  limited :
      (now : ℕ) (p : Priority) (c : Config)
      → limits p ≡ some c
      → p ≢ very_high
      → Returns (new L now p) (IsNew p)
  unfolding new build_limiter
  limited now p c e other =
      let (l, built, taken, away) =
        limiter.builds now c (limits_fit p c e).0 (limits_fit p c e).1 in
      rw (e, build_limiter, built) (refl, refl, refl, inr (l, refl, other, taken, away))

  -- No `unwrap` in `new` panics: the limits of each priority can be built. A new handle has a limiter,
  -- one that has served nobody, unless its priority is VeryHigh; it is not stopped.
  pub new_done : (now : ℕ) (p : Priority) → Returns (new L now p) (IsNew p)
  unfolding new build_limiter limits
  new_done now very_low = limited now very_low _ refl (λ e. ground arith)
  new_done now low = limited now low _ refl (λ e. ground arith)
  new_done now middle = limited now middle _ refl (λ e. ground arith)
  new_done now high = limited now high _ refl (λ e. ground arith)
  new_done now very_high = (refl, refl, refl, inl (refl, refl))

  -- The handle of a priority that is limited has a limiter that was built with these limits.
  pub new_limited :
      (now : ℕ) (p : Priority) (c : Config) (h : RateLimiterRuntimeHandle L)
      → limits p ≡ some c
      → new L now p ≡ done h
      → (l : L.Ratelimiter) × (h.limiter ≡ some l)
        × (L.build now c ≡ some l)
        × (L.taken l ≡ 0)
        × (h.stopped ≡ false)
  unfolding new build_limiter
  new_limited now p c h e made =
      let (l, built, taken, away) =
        limiter.builds now c (limits_fit p c e).0 (limits_fit p c e).1 in
      let as_made : new L now p
          ≡ done (record {
            limiter = some l;
            stopped = false;
            recent = 0;
            resting = 0;
            priority = p;
          }) =
        rw (e, build_limiter, built) refl in
      (l, ground arith, built, taken, ground arith)
