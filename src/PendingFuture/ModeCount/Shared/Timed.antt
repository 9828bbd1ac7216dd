-- ===== src/PendingFuture/ModeCount/Shared/Timed.antt =====
-- The time that a future of mode_count.rs has in `poll_time`.
use rs_run.Base.{ℕ, suc, ◌+◌, ◌≡◌, refl, subst, List, [], ◌∷◌, ◌++◌, Returns, u32, u64, arith}
use rs_run.Host.{Context, Future, Timer, Float, micros_between}
use rs_run.PendingFuture.ModeCount.Records.{Registry}
use rs_run.PendingFuture.Backoff.{backoff}
use rs_run.PendingFuture.ModeCount.Cases.{entered, spent, poll_paths}
use rs_run.PendingFuture.ModeCount.{PendingFuture, Readings, new, poll}
use rs_run.PendingFuture.ModeCount.Shared.{
  Member, took, member_of, Reached, at_first, spawns, polled, dropped,
}

module _ (T : Timer) (f : Float) {Output : Type 0} (F : Future Output) (polls : F.State → ℕ) where
  -- `poll_time` is the sum of the times of the polls.
  abbrev pub IsTimed : Member T f F polls → Type 0
  IsTimed m = m.this.poll_time ≡ u64 m.spent

  abbrev pub AllTimed : List (Member T f F polls) → Type 0
  AllTimed [] = Unit {0}
  AllTimed (m ∷ ms) = IsTimed m × AllTimed ms

  pub IsTimed-one :
      (before after : List (Member T f F polls)) (m : Member T f F polls)
      → AllTimed (before ++ m ∷ after)
      → IsTimed m
  IsTimed-one [] after m (h, _) = h
  IsTimed-one (x ∷ before) after m (_, h) = IsTimed-one before after m h

  AllTimed-instead :
      (before after : List (Member T f F polls)) (m m' : Member T f F polls)
      → IsTimed m'
      → AllTimed (before ++ m ∷ after)
      → AllTimed (before ++ m' ∷ after)
  AllTimed-instead [] after m m' new_one (_, h) = (new_one, h)
  AllTimed-instead (x ∷ before) after m m' new_one (h, hs) =
      (h, AllTimed-instead before after m m' new_one hs)

  AllTimed-rest :
      (before after : List (Member T f F polls)) (m : Member T f F polls)
      → AllTimed (before ++ m ∷ after)
      → AllTimed (before ++ after)
  AllTimed-rest [] after m (_, h) = h
  AllTimed-rest (x ∷ before) after m (h, hs) = (h, AllTimed-rest before after m hs)

module _ (T : Timer) (f : Float) {Output : Type 0} (F : Future Output) (polls : F.State → ℕ)
    (counted : (now : ℕ) (s : F.State) (cx : Context)
      → polls (F.poll now s cx).1 ≡ suc (polls s)) where
  took_none :
      (r : Readings) (p p' : PendingFuture T F)
      → polls p'.future ≡ polls p.future
      → took T f F polls r p p' ≡ 0
  took_none r p p' e = ground arith

  took_elapsed :
      (r : Readings) (p p' : PendingFuture T F)
      → polls p'.future ≡ suc (polls p.future)
      → took T f F polls r p p' ≡ micros_between r.entered r.returned
  took_elapsed r p p' e = ground arith

  -- One poll adds its time to `poll_time`.
  pub poll-IsTimed :
      (m : Member T f F polls) (r : Readings) (registry : Registry f)
      → IsTimed T f F polls m
      → Returns
          (poll T f F m.type_id r m.this m.cx registry)
          (λ v. IsTimed T f F polls (member_of T f F polls m r v))
  poll-IsTimed m r registry timed =
      poll_paths T f F (λ v. IsTimed T f F polls (member_of T f F polls m r v)) m.type_id r m.this
        m.cx registry
        (record {
          sleeping = λ s cx' e.
              let p' = record (entered T f F r m.this) { state = backoff s } in
              omega (arith, timed, took_none r m.this p' refl);
          pausing = λ cx' period st cx'' awake due e.
              let p' = record (entered T f F r m.this) {
                pend_cnt = u32 (m.this.pend_cnt + 1);
                state = st;
              } in
              omega (arith, timed, took_none r m.this p' refl);
          finishing = λ cx' b out awake began e.
              let p' = record (entered T f F r m.this) {
                future = (F.poll r.polled m.this.future cx').1;
                poll_time = spent T f F r m.this;
              } in
              omega (arith, timed, took_elapsed r m.this p' (counted r.polled m.this.future cx'));
          waiting = λ cx' awake free e.
              let p' = record (entered T f F r m.this) {
                future = (F.poll r.polled m.this.future cx').1;
                poll_time = spent T f F r m.this;
                pend_cnt = u32 (m.this.pend_cnt + 1);
              } in
              omega (arith, timed, took_elapsed r m.this p' (counted r.polled m.this.future cx'));
        })

  pub Reached-AllTimed :
      (registry : Registry f) (ms : List (Member T f F polls))
      → Reached T f F polls registry ms
      → AllTimed T f F polls ms
  unfolding new
  Reached-AllTimed registry ms at_first = tt
  Reached-AllTimed registry ms (spawns reg ms₀ id handle s cx r) =
      (refl, Reached-AllTimed reg ms₀ r)
  Reached-AllTimed registry ms (polled reg before after m rd v r e made) =
      let all = Reached-AllTimed reg (before ++ m ∷ after) r in
      AllTimed-instead T f F polls before after m (member_of T f F polls m rd v)
        (subst (λ o. Returns o (λ w. IsTimed T f F polls (member_of T f F polls m rd w))) made
          (poll-IsTimed m rd reg (IsTimed-one T f F polls before after m all)))
        all
  Reached-AllTimed registry ms (dropped reg before after m r e) =
      AllTimed-rest T f F polls before after m (Reached-AllTimed reg (before ++ m ∷ after) r)
