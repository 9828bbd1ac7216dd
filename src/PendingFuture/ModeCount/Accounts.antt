-- ===== src/PendingFuture/ModeCount/Accounts.antt =====
-- What a future wrapped by mode_count.rs writes to EACH_FUTURE_RECORD.
use mathlib.Core.List.{Memᴰ}
use rs_run.Base.{
  ℕ, ◌+◌, ◌≤◌, ◌≡◌, refl, ◌⊎◌, inl, inr, some, List, [], ◌∷◌, Returns, Returns-map, u64, arith,
}
use rs_run.Host.{ready, pending, Context, Future, Timer, Float, micros_between}
use rs_run.PendingFuture.Drive.{drive_all}
use rs_run.PendingFuture.RuntimeHandle.{CommonRuntimeHandle}
use rs_run.PendingFuture.ModeCount.Records.{Registry, finish}
use rs_run.PendingFuture.ModeCount.Cases.{poll_paths}
use rs_run.PendingFuture.ModeCount.Drive.{fresh, result, round, drive}
use rs_run.PendingFuture.ModeCount.{Readings, Polled, started_at, new, poll}

-- The microseconds from the beginning of each call of `poll` to the end of its inner poll.
abbrev pub cost : List Readings → ℕ
cost [] = 0
cost (r ∷ rs) = micros_between r.entered r.returned + cost rs

module _ (T : Timer) (f : Float) {Output : Type 0} (F : Future Output) (type_id : ℕ)
    (all : List Readings) (begin : ℕ) (before : Registry f) where
  -- Nothing is written as long as the future is pending, and one record when it finishes.
  abbrev pub Booked : Polled T f F → Type 0
  Booked v =
      ((v.result ≡ pending) × (v.registry ≡ before))
      ⊎ ((out : Output) × (r : Readings) × (v.result ≡ ready out)
          × Memᴰ r all
          × (v.registry
              ≡ finish f type_id
                  (record {
                    total_micro = u64 (micros_between begin r.completed);
                    cpu_micro = v.this.poll_time;
                  })
                  before))

  abbrev Starts : List Readings → Polled T f F → Type 0
  Starts [] v = Unit {0}
  Starts (r ∷ rs) v = started_at r.began v.this.begin_time ≡ some begin

  abbrev Going : List Readings → Polled T f F → Type 0
  Going rs v =
      Starts rs v
      × (v.this.poll_time + cost rs ≤ cost all)
      × ((r : Readings) → Memᴰ r rs → Memᴰ r all)
      × Booked v

  -- A future that has begun keeps its beginning.
  begun : (rs : List Readings) (v : Polled T f F) → v.this.begin_time ≡ some begin → Starts rs v
  unfolding started_at
  begun [] v e = tt
  begun (r ∷ rs) v e = rw (e, started_at) refl

  poll-Going :
      (r : Readings) (rs : List Readings) (v : Polled T f F)
      → v.result ≡ pending
      → Going (r ∷ rs) v
      → Returns (poll T f F type_id r v.this v.cx v.registry) (Going rs)
  poll-Going r rs v e (first, room, inside, booked) =
      let kept : v.registry ≡ before = ground arith in
      let later : (s : Readings) → Memᴰ s rs → Memᴰ s all = λ s m. inside s (Memᴰ.tail m) in
      poll_paths T f F (Going rs) type_id r v.this v.cx v.registry (record {
        sleeping = λ s cx' _. (begun rs _ first, omega arith, later, inl (refl, kept));
        pausing = λ cx' _ st cx'' _ _ _. (begun rs _ first, omega arith, later, inl (refl, kept));
        finishing = λ cx' b out _ at _.
            let same : b ≡ begin = ground arith in
            (
              begun rs _ first,
              omega arith,
              later,
              inr (out, r, refl, inside r (Memᴰ.head refl), rw (same, kept) refl),
            );
        waiting = λ cx' _ _ _. (begun rs _ first, omega arith, later, inl (refl, kept));
      })

-- In any run of polls, EACH_FUTURE_RECORD stays as it was as long as the future is pending; when it
-- finishes, one record of it has been written, with the time from the first poll of the run to the end
-- of one of its polls, and a processor time that is at most what the polls took together. No run
-- panics.
pub drive_records :
    (T : Timer) (f : Float) {Output : Type 0} (F : Future Output) (type_id : ℕ) (r : Readings)
    (rs : List Readings) (handle : CommonRuntimeHandle) (s : F.State) (cx : Context)
    (registry : Registry f)
    → Returns
        (drive T f F type_id (r ∷ rs) (fresh T f F handle s cx registry))
        (λ v. Booked T f F type_id (r ∷ rs) r.began registry v × (v.this.poll_time ≤ cost (r ∷ rs)))
unfolding new started_at
drive_records T f F type_id r rs handle s cx registry =
    let start = fresh T f F handle s cx registry in
    Returns-map (drive T f F type_id (r ∷ rs) start)
      (λ v (rest, (_, most, _, booked)). (booked, omega arith))
      (drive_all (result T f F) (round T f F type_id)
        (Going T f F type_id (r ∷ rs) r.began registry)
        (poll-Going T f F type_id (r ∷ rs) r.began registry) (r ∷ rs) start
        (refl, omega arith, (λ x m. m), inl (refl, refl)))
