-- ===== src/PendingFuture/ModeCount/Records/Race.antt =====
-- The registry under the two locks of mode_count.rs: a run looks its type up under the read lock, and
-- one that found no entry writes a new one later, under the write lock, without looking again.
use rs_run.Base.{
  ℕ, ◌≤◌, ◌≡◌, refl, sym, subst, ◌∙◌, inl, inr, Bool-cases, List, [], ◌∷◌, ◌++◌, Option, none, some,
  length, length-append, length-drop, lookup, insert, lookup-insert, lookup-insert_self, ◌==◌,
  if◌then◌else◌, arith,
}
use mathlib.Core.Option.{some-injective}
use rs_run.Host.{Float, IsFloat}
use rs_run.PendingFuture.ModeCount.Records.{
  OneFutureRecord, Entry, Registry, share, mean, push_bounded, update_entry, insert_entry, finish,
}
use rs_run.PendingFuture.ModeCount.Records.Window.{share-mean}

module _ (f : Float) where
  -- The registry, and the runs that found no entry and have not written one yet.
  pub record Recorder : Type 0 where
    pub registry : Registry f
    pub missed : List (ℕ × OneFutureRecord)

  -- Under the read lock, which is held until the entry is updated.
  pub read_phase : ℕ → OneFutureRecord → Recorder → Recorder
  read_phase id v s = elim (lookup id s.registry) [
    | some entry ↦ record s { registry = update_entry f id v entry s.registry }
    | none ↦ record s { missed = (id, v) ∷ s.missed }
  ]

  -- Between the locks anything may happen; the write lock is taken in any order.
  pub data Step (s : Recorder) : Recorder → Type 0 where
    reads : (id : ℕ) (v : OneFutureRecord) → Step s (read_phase id v s)
    writes :
        (before after : List (ℕ × OneFutureRecord)) (id : ℕ) (v : OneFutureRecord)
        → s.missed ≡ before ++ (id, v) ∷ after
        → Step s (record s { registry = insert_entry f id v s.registry; missed = before ++ after })

  pub data Steps (s : Recorder) : Recorder → Type 0 where
    here : Steps s s
    next : {t u : Recorder} → Steps s t → Step t u → Steps s u

  -- An entry has from one to ten runs, and their mean.
  pub record IsEntry (e : Entry f) : Type 0 where
    pub some_run : 1 ≤ length e.records
    pub ten_runs : length e.records ≤ 10
    pub averaged : e.rate ≡ mean f e.records

  abbrev pub IsSound : Recorder → Type 0
  IsSound s = (id : ℕ) (e : Entry f) → lookup id s.registry ≡ some e → IsEntry e

  length-push_bounded :
      (v : OneFutureRecord) (xs : List OneFutureRecord)
      → length xs ≤ 10
      → (1 ≤ length (push_bounded v xs)) × (length (push_bounded v xs) ≤ 10)
  unfolding push_bounded
  length-push_bounded v xs h =
      ground (arith, length-append xs (v ∷ []), length-drop 1 (xs ++ v ∷ []))

  insert-IsSound :
      (s : Recorder) (id : ℕ) (e : Entry f)
      → IsEntry e
      → IsSound s
      → (t : ℕ) (e' : Entry f) → lookup t (insert id e s.registry) ≡ some e'
      → IsEntry e'
  insert-IsSound s id e new sound t e' h = elim (Bool-cases (id == t)) [
    | inl own ↦ subst IsEntry (some-injective e e' (rw own at found)) new
    | inr other ↦ sound t e' (rw other at found)
  ]
    where
      found : (if id == t then some e else lookup t s.registry) ≡ some e'
      found = sym (lookup-insert id t e s.registry) ∙ h

  read_phase-IsSound :
      (id : ℕ) (v : OneFutureRecord) (s : Recorder) → IsSound s → IsSound (read_phase id v s)
  unfolding read_phase update_entry
  read_phase-IsSound id v s sound = go (lookup id s.registry) refl
    where
      go : (o : Option (Entry f)) → lookup id s.registry ≡ o → IsSound (read_phase id v s)
      go none gone = rw (gone, read_phase) sound
      go (some entry) found =
          let records = push_bounded v entry.records in
          let (pos, ten) = length-push_bounded v entry.records (sound id entry found).ten_runs in
          rw (found, read_phase)
            (insert-IsSound s id (record { rate = mean f records; records = records })
              (record { some_run = pos; ten_runs = ten; averaged = refl }) sound)

  Step-IsSound : IsFloat f → {s t : Recorder} → Step s t → IsSound s → IsSound t
  unfolding insert_entry mean
  Step-IsSound float {s} (reads id v) sound = read_phase-IsSound id v s sound
  Step-IsSound float {s} (writes before after id v e) sound =
      insert-IsSound s id (record { rate = share f v; records = v ∷ [] })
        (record { some_run = omega arith; ten_runs = omega arith; averaged = share-mean f float v })
        sound

  -- However the two phases of any runs interleave, from an empty registry on, every entry has from one
  -- to ten runs and carries the mean of their shares.
  pub Steps-IsSound :
      IsFloat f → {s : Recorder} → Steps (record { registry = []; missed = [] }) s → IsSound s
  unfolding lookup
  Steps-IsSound float here id e h = absurd (ground arith)
  Steps-IsSound float (next steps step) id e h =
      Step-IsSound float step (Steps-IsSound float steps) id e h

  read_phase_miss :
      (id : ℕ) (v : OneFutureRecord) (s : Recorder)
      → lookup id s.registry ≡ none
      → read_phase id v s ≡ record s { missed = (id, v) ∷ s.missed }
  unfolding read_phase
  read_phase_miss id v s gone = rw (gone, read_phase)

  finish_miss :
      (id : ℕ) (v : OneFutureRecord) (registry : Registry f)
      → lookup id registry ≡ none
      → finish f id v registry ≡ insert_entry f id v registry
  unfolding finish
  finish_miss id v registry gone = rw (gone, finish)

  finish_hit :
      (id : ℕ) (v : OneFutureRecord) (registry : Registry f) (entry : Entry f)
      → lookup id registry ≡ some entry
      → finish f id v registry ≡ update_entry f id v entry registry
  unfolding finish
  finish_hit id v registry entry found = rw (found, finish)

  -- Two runs of a type without an entry may be lost to one another: if both look it up before either
  -- writes, the entry that is left has the later writer's run alone, where one run after the other
  -- gives an entry with both.
  pub first_runs_race :
      (id : ℕ) (v w : OneFutureRecord) (registry : Registry f)
      → lookup id registry ≡ none
      → let start : Recorder = record { registry = registry; missed = [] } in
        (s : Recorder) × Steps start s
        × (s.missed ≡ [])
        × (lookup id s.registry ≡ some (record { rate = share f w; records = w ∷ [] }))
        × (lookup id (finish f id w (finish f id v registry))
            ≡ some (record { rate = mean f (v ∷ w ∷ []); records = v ∷ w ∷ [] }))
  unfolding insert_entry push_bounded update_entry
  first_runs_race id v w registry gone =
      let read₁ = subst (Step _) (read_phase_miss id v _ gone) (reads id v) in
      let read₂ = subst (Step _) (read_phase_miss id w _ gone) (reads id w) in
      let write₁ = writes ((id, w) ∷ []) [] id v refl in
      let write₂ = writes [] [] id w refl in
      let entry : Entry f = record { rate = share f v; records = v ∷ [] } in
      (
        record { registry = insert_entry f id w (insert_entry f id v registry); missed = [] },
        next (next (next (next here read₁) read₂) write₁) write₂,
        refl,
        lookup-insert_self id _ _,
        rw (finish_miss id v registry gone) (
            rw
              (finish_hit id w (insert id entry registry) entry
                (lookup-insert_self id entry registry))
              (lookup-insert_self id _ _)),
      )
