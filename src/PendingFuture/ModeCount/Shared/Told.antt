-- ===== src/PendingFuture/ModeCount/Shared/Told.antt =====
-- What EACH_FUTURE_RECORD tells of the futures of mode_count.rs that share it.
use rs_run.Base.{
  ℕ, suc, ◌+◌, ◌≡◌, refl, sym, subst, ◌∙◌, ◌⊎◌, inl, inr, List, [], ◌∷◌, ◌++◌, ◌==◌, length,
  length-append, lookup, Returns, u64, Bool-cases, arith,
}
use rs_run.Host.{ready, pending, Context, Future, Timer, Float, IsFloat}
use rs_run.PendingFuture.ModeCount.Records.{OneFutureRecord, Registry, finish}
use rs_run.PendingFuture.ModeCount.Records.Window.{
  of_type, of_type-snoc, entry_of, Tracks, finish-Tracks,
}
use rs_run.PendingFuture.ModeCount.Cases.{poll_paths}
use rs_run.PendingFuture.ModeCount.{PendingFuture, Readings, Polled, poll}
use rs_run.PendingFuture.ModeCount.Shared.{
  Member, member_of, Reached, at_first, spawns, polled, dropped, one_finished, finished, one_spent,
  spent_by, cpu_sum,
}
use rs_run.PendingFuture.ModeCount.Shared.Timed.{
  IsTimed, IsTimed-one, poll-IsTimed, Reached-AllTimed,
}

module _ (T : Timer) (f : Float) {Output : Type 0} (F : Future Output) (polls : F.State → ℕ) where
  finished-append :
      (t : ℕ) (xs ys : List (Member T f F polls))
      → finished T f F polls t (xs ++ ys) ≡ finished T f F polls t xs + finished T f F polls t ys
  finished-append t [] ys = omega arith
  finished-append t (m ∷ xs) ys = omega (arith, finished-append t xs ys)

  spent_by-append :
      (t : ℕ) (xs ys : List (Member T f F polls))
      → spent_by T f F polls t (xs ++ ys) ≡ spent_by T f F polls t xs + spent_by T f F polls t ys
  spent_by-append t [] ys = omega arith
  spent_by-append t (m ∷ xs) ys = omega (arith, spent_by-append t xs ys)

  -- One poll writes to the registry if it is the last, and only then.
  abbrev Booked : ℕ → Registry f → Polled T f F → Type 0
  Booked type_id registry v =
      ((v.result ≡ pending) × (v.registry ≡ registry))
      ⊎ ((out : Output) × (one : OneFutureRecord) × (v.result ≡ ready out)
          × (v.registry ≡ finish f type_id one registry)
          × (one.cpu_micro ≡ v.this.poll_time))

  poll-Booked :
      (type_id : ℕ) (r : Readings) (p : PendingFuture T F) (cx : Context) (registry : Registry f)
      → Returns (poll T f F type_id r p cx registry) (Booked type_id registry)
  poll-Booked type_id r p cx registry =
      poll_paths T f F (Booked type_id registry) type_id r p cx registry (record {
        sleeping = λ s cx' _. inl (refl, refl);
        pausing = λ cx' _ st cx'' _ _ _. inl (refl, refl);
        finishing = λ cx' b out _ _ _. inr (out, _, refl, refl, refl);
        waiting = λ cx' _ _ _. inl (refl, refl);
      })

  cpu_sum-snoc :
      (xs : List OneFutureRecord) (v : OneFutureRecord)
      → cpu_sum T f F polls (xs ++ v ∷ []) ≡ cpu_sum T f F polls xs + v.cpu_micro
  cpu_sum-snoc [] v = omega arith
  cpu_sum-snoc (x ∷ xs) v = omega (arith, cpu_sum-snoc xs v)

  -- The registry as it follows from a history that has the futures that finished.
  abbrev Told : Registry f → List (Member T f F polls) → List (ℕ × OneFutureRecord) → Type 0
  Told registry ms h =
      Tracks f registry h
      × ((t : ℕ)
          → (length (of_type t h) ≡ finished T f F polls t ms)
            × (cpu_sum T f F polls (of_type t h) ≡ spent_by T f F polls t ms))

  quiet :
      (t : ℕ) (m : Member T f F polls)
      → m.result ≡ pending
      → (one_finished T f F polls m.type_id m.result t ≡ 0)
        × (one_spent T f F polls m.type_id m.result (u64 m.spent) t ≡ 0)
  quiet t m e = rw e (refl, refl)

  told_more :
      (t : ℕ) (before after : List (Member T f F polls)) (m : Member T f F polls) (rd : Readings)
      (v : Polled T f F) (one : OneFutureRecord) (out : Output) (h : List (ℕ × OneFutureRecord))
      → m.result ≡ pending
      → v.result ≡ ready out
      → one.cpu_micro ≡ u64 (member_of T f F polls m rd v).spent
      → length (of_type t h) ≡ finished T f F polls t (before ++ m ∷ after)
      → cpu_sum T f F polls (of_type t h) ≡ spent_by T f F polls t (before ++ m ∷ after)
      → let h' = h ++ (m.type_id, one) ∷ [] in
        let ms' = before ++ member_of T f F polls m rd v ∷ after in
        (length (of_type t h') ≡ finished T f F polls t ms')
        × (cpu_sum T f F polls (of_type t h') ≡ spent_by T f F polls t ms')
  told_more t before after m rd v one out h e e' same n c =
      let (z, z') = quiet t m e in
      let was = finished-append t before (m ∷ after) in
      let now = finished-append t before (member_of T f F polls m rd v ∷ after) in
      let was' = spent_by-append t before (m ∷ after) in
      let now' = spent_by-append t before (member_of T f F polls m rd v ∷ after) in
      rw (of_type-snoc t m.type_id one h) (elim (Bool-cases (m.type_id == t)) [
        | inl own ↦
            let f₁ : one_finished T f F polls m.type_id v.result t ≡ 1 = rw (e', own) refl in
            let s₁ : one_spent T f F polls m.type_id v.result
                  (u64 (member_of T f F polls m rd v).spent) t
                ≡ u64 (member_of T f F polls m rd v).spent =
              rw (e', own) refl in
            rw own (
              omega (arith, length-append (of_type t h) (one ∷ [])),
              omega (arith, cpu_sum-snoc (of_type t h) one),
            )
        | inr other ↦
            let f₀ : one_finished T f F polls m.type_id v.result t ≡ 0 = rw (e', other) refl in
            let s₀ : one_spent T f F polls m.type_id v.result
                  (u64 (member_of T f F polls m rd v).spent) t
                ≡ 0 =
              rw (e', other) refl in
            rw other (omega arith, omega arith)
      ])

  told_same :
      (t : ℕ) (before after : List (Member T f F polls)) (m : Member T f F polls) (rd : Readings)
      (v : Polled T f F)
      → m.result ≡ pending
      → v.result ≡ pending
      → (finished T f F polls t (before ++ member_of T f F polls m rd v ∷ after)
          ≡ finished T f F polls t (before ++ m ∷ after))
        × (spent_by T f F polls t (before ++ member_of T f F polls m rd v ∷ after)
            ≡ spent_by T f F polls t (before ++ m ∷ after))
  told_same t before after m rd v e e' =
      let (z, z') = quiet t m e in
      let (y, y') = quiet t (member_of T f F polls m rd v) e' in
      let was = finished-append t before (m ∷ after) in
      let now = finished-append t before (member_of T f F polls m rd v ∷ after) in
      let was' = spent_by-append t before (m ∷ after) in
      let now' = spent_by-append t before (member_of T f F polls m rd v ∷ after) in
      (omega arith, omega arith)

module _ (T : Timer) (f : Float) {Output : Type 0} (F : Future Output) (polls : F.State → ℕ)
    (counted : (now : ℕ) (s : F.State) (cx : Context)
      → polls (F.poll now s cx).1 ≡ suc (polls s)) where
  Reached-Told :
      IsFloat f
      → (registry : Registry f) (ms : List (Member T f F polls)) → Reached T f F polls registry ms
      → (h : List (ℕ × OneFutureRecord)) × Told T f F polls registry ms h
  unfolding lookup of_type entry_of
  Reached-Told float registry ms at_first = ([], ((λ t. refl), λ t. (refl, refl)))
  Reached-Told float registry ms (spawns reg ms₀ id handle s cx r) =
      let (h, (tracks, told)) = Reached-Told float reg ms₀ r in
      (h, (tracks, λ t. let (a, b) = told t in (omega arith, omega arith)))
  Reached-Told float registry ms (polled reg before after m rd v r e made) =
      let (h, (tracks, told)) = Reached-Told float reg (before ++ m ∷ after) r in
      let booked =
        subst (λ o. Returns o (Booked T f F polls m.type_id reg)) made
          (poll-Booked T f F polls m.type_id rd m.this m.cx reg) in
      elim booked [
        | inl (e', kept) ↦ (
          h,
          (
            subst (λ k. Tracks f k h) (sym kept) tracks,
            λ t.
                let (a, b) = told_same T f F polls t before after m rd v e e' in
                ((told t).0 ∙ sym a, (told t).1 ∙ sym b),
          ),
        )
        | inr (out, one, e', written, same) ↦
            let now_timed =
              subst (λ o. Returns o (λ w. IsTimed T f F polls (member_of T f F polls m rd w))) made
                (poll-IsTimed T f F polls counted m rd reg (
                  IsTimed-one T f F polls before after m
                    (Reached-AllTimed T f F polls counted reg (before ++ m ∷ after) r))) in
            (
              h ++ (m.type_id, one) ∷ [],
              (
                subst (λ k. Tracks f k (h ++ (m.type_id, one) ∷ [])) (sym written)
                    (finish-Tracks f float reg h m.type_id one tracks),
                λ t.
                    told_more T f F polls t before after m rd v one out h e e' (same ∙ now_timed)
                      (told t).0 (told t).1,
              ),
            )
      ]
  Reached-Told float registry ms (dropped reg before after m r e) =
      let (h, (tracks, told)) = Reached-Told float reg (before ++ m ∷ after) r in
      (
        h,
        (
          tracks,
          λ t.
              let (z, z') = quiet T f F polls t m e in
              let was = finished-append T f F polls t before (m ∷ after) in
              let now = finished-append T f F polls t before after in
              let was' = spent_by-append T f F polls t before (m ∷ after) in
              let now' = spent_by-append T f F polls t before after in
              let (a, b) = told t in (omega arith, omega arith),
        ),
      )

  -- However the futures are spawned, polled and dropped, one poll after the other, from an empty
  -- registry on: the entry of a type is that of a list of runs, one for each of its futures that
  -- finished and with the processor time of their polls, all together. That of a run is the sum of the
  -- whole microseconds that each poll of its inner future took, from the start of the wrapper's poll on,
  -- as a u64. (The entry is the last ten of the runs with their mean, and there is none if none
  -- finished.)
  pub shared_records :
      IsFloat f
      → (registry : Registry f) (ms : List (Member T f F polls)) (t : ℕ)
      → Reached T f F polls registry ms
      → (runs : List OneFutureRecord) × (lookup t registry ≡ entry_of f runs)
        × (length runs ≡ finished T f F polls t ms)
        × (cpu_sum T f F polls runs ≡ spent_by T f F polls t ms)
  shared_records float registry ms t r =
      let (h, (tracks, told)) = Reached-Told float registry ms r in
      (of_type t h, tracks t, (told t).0, (told t).1)
