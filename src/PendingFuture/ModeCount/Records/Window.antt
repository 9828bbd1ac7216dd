-- ===== src/PendingFuture/ModeCount/Records/Window.antt =====
-- What EACH_FUTURE_RECORD holds after a history of finished runs.
use mathlib.Core.List.{append-nil, append_assoc}
use rs_run.Base.{
  ℕ, zero, suc, ◌+◌, ◌-◌, ◌≤◌, ◌≡◌, refl, sym, ap, subst, ◌∙◌, List, [], ◌∷◌, ◌++◌, Option, none,
  some, length, drop, length-append, length-drop, lookup, insert, lookup-insert, ltb, ltb→lt, true,
  false, ◌==◌, ==_iff, if◌then◌else◌, Bool-cases, inl, inr, arith,
}
use rs_run.Host.{Float, IsFloat}
use rs_run.PendingFuture.ModeCount.Records.{
  OneFutureRecord, Entry, Registry, share, mean, push_bounded, finish,
}

-- The runs of futures of one type, in order.
unfoldable pub of_type : ℕ → List (ℕ × OneFutureRecord) → List OneFutureRecord
of_type t [] = []
of_type t ((id, v) ∷ h) = if id == t then v ∷ of_type t h else of_type t h

pub last_ten : List OneFutureRecord → List OneFutureRecord
last_ten xs = drop (length xs - 10) xs

drop-append :
    (n : ℕ) (xs ys : List OneFutureRecord) → n ≤ length xs → drop n (xs ++ ys) ≡ drop n xs ++ ys
drop-append zero xs ys h = refl
drop-append (suc n) [] ys h = elim h [ ]
drop-append (suc n) (x ∷ xs) ys h = drop-append n xs ys (omega arith)

drop-one-drop : (n : ℕ) (xs : List OneFutureRecord) → drop 1 (drop n xs) ≡ drop (suc n) xs
drop-one-drop zero xs = refl
drop-one-drop (suc n) [] = refl
drop-one-drop (suc n) (x ∷ xs) = drop-one-drop n xs

-- A run pushed onto the last ten of a list gives the last ten of the longer list.
push_bounded-last_ten :
    (v : OneFutureRecord) (xs : List OneFutureRecord)
    → push_bounded v (last_ten xs) ≡ last_ten (xs ++ v ∷ [])
unfolding push_bounded last_ten
push_bounded-last_ten v xs =
    let n = length xs - 10 in
    let longer = xs ++ v ∷ [] in
    let whole = drop-append n xs (v ∷ []) (omega arith) in
    elim (Bool-cases (ltb 10 (length (drop n xs ++ v ∷ [])))) [
      | inl full ↦
          rw full (
            ap (drop 1) (sym whole)
            ∙ (drop-one-drop n longer ∙ ap (λ k. drop k longer) (next full)))
      | inr room ↦ rw room (sym whole ∙ ap (λ k. drop k longer) (same room))
    ]
  where
    size : length (drop (length xs - 10) xs ++ v ∷ []) ≡ length xs - (length xs - 10) + 1
    size =
        omega (
          arith,
          length-append (drop (length xs - 10) xs) (v ∷ []),
          length-drop (length xs - 10) xs,
        )

    next :
        ltb 10 (length (drop (length xs - 10) xs ++ v ∷ [])) ≡ true
        → suc (length xs - 10) ≡ length (xs ++ v ∷ []) - 10
    next full = omega (arith, ltb→lt _ _ full, size, length-append xs (v ∷ []))

    same :
        ltb 10 (length (drop (length xs - 10) xs ++ v ∷ [])) ≡ false
        → length xs - 10 ≡ length (xs ++ v ∷ []) - 10
    same room = ground (arith, size, length-append xs (v ∷ []))

pub of_type-snoc :
    (t id : ℕ) (v : OneFutureRecord) (h : List (ℕ × OneFutureRecord))
    → of_type t (h ++ (id, v) ∷ []) ≡ (if id == t then of_type t h ++ v ∷ [] else of_type t h)
unfolding of_type
of_type-snoc t id v [] = refl
of_type-snoc t id v ((i, w) ∷ h) = ground (arith, of_type-snoc t id v h)

module _ (f : Float) where
  -- The entry that belongs to a list of runs.
  unfoldable pub entry_of : List OneFutureRecord → Option (Entry f)
  entry_of [] = none
  entry_of (x ∷ xs) =
      some (record { rate = mean f (last_ten (x ∷ xs)); records = last_ten (x ∷ xs) })

  entry_of-snoc :
      (xs : List OneFutureRecord) (v : OneFutureRecord)
      → entry_of (xs ++ v ∷ [])
        ≡ some
            (record { rate = mean f (last_ten (xs ++ v ∷ [])); records = last_ten (xs ++ v ∷ []) })
  unfolding entry_of
  entry_of-snoc [] v = refl
  entry_of-snoc (x ∷ xs) v = refl

  entry_of-some :
      (xs : List OneFutureRecord) (e : Entry f) → entry_of xs ≡ some e → e.records ≡ last_ten xs
  unfolding entry_of
  entry_of-some [] e h = absurd (ground arith)
  entry_of-some (x ∷ xs) e h = ground arith

  entry_of-none : (xs : List OneFutureRecord) → entry_of xs ≡ none → xs ≡ []
  unfolding entry_of
  entry_of-none [] h = refl
  entry_of-none (x ∷ xs) h = absurd (ground arith)

  unfoldable pub finish_all : Registry f → List (ℕ × OneFutureRecord) → Registry f
  finish_all registry [] = registry
  finish_all registry ((id, v) ∷ h) = finish_all (finish f id v registry) h

  -- The registry has, for each type, the entry that belongs to its runs in the history.
  abbrev pub Tracks : Registry f → List (ℕ × OneFutureRecord) → Type 0
  Tracks registry h = (t : ℕ) → lookup t registry ≡ entry_of (of_type t h)

module _ (f : Float) (float : IsFloat f) where
  pub share-mean : (v : OneFutureRecord) → share f v ≡ mean f (v ∷ [])
  unfolding mean
  share-mean v =
      sym (ap (λ x. f.div x (f.of_ℕ 1)) (float.zero-add (share f v)) ∙ float.div_one (share f v))

  -- A run of a type moves its entry on, also where it makes the entry.
  finish_entry :
      (id : ℕ) (v : OneFutureRecord) (registry : Registry f) (xs : List OneFutureRecord)
      → lookup id registry ≡ entry_of f xs
      → (e : Entry f) × (entry_of f (xs ++ v ∷ []) ≡ some e)
        × (finish f id v registry ≡ insert id e registry)
  unfolding finish last_ten
  finish_entry id v registry xs tracked =
      let after = last_ten (xs ++ v ∷ []) in
      (
        record { rate = mean f after; records = after },
        entry_of-snoc f xs v,
        go (lookup id registry) refl,
      )
    where
      go :
          (o : Option (Entry f))
          → lookup id registry ≡ o
          → finish f id v registry
            ≡ insert id
                (record {
                  rate = mean f (last_ten (xs ++ v ∷ []));
                  records = last_ten (xs ++ v ∷ []);
                })
                registry
      go none gone =
          rw (gone, finish)
            (rw (entry_of-none f xs (sym tracked ∙ gone))
              (λ i. insert id (record { rate = share-mean v i; records = v ∷ [] }) registry))
      go (some entry) found =
          rw (found, finish)
            (ap
              (λ (rs : List OneFutureRecord).
                insert id (record { rate = mean f rs; records = rs }) registry)
              (ap (push_bounded v) (entry_of-some f xs entry (sym tracked ∙ found))
                ∙ push_bounded-last_ten v xs))

  pub finish-Tracks :
      (registry : Registry f) (h : List (ℕ × OneFutureRecord)) (id : ℕ) (v : OneFutureRecord)
      → Tracks f registry h
      → Tracks f (finish f id v registry) (h ++ (id, v) ∷ [])
  finish-Tracks registry h id v tracks t =
      let (e, one, two) = finish_entry id v registry (of_type id h) (tracks id) in
      rw (two, of_type-snoc t id v h, lookup-insert id t e registry)
        (elim (Bool-cases (id == t)) [
          | inl own ↦ rw own (
              subst (λ k. some e ≡ entry_of f (of_type k h ++ v ∷ [])) ((==_iff id t).0 own)
                (sym one))
          | inr other ↦ rw other (tracks t)
        ])

  finish_all-Tracks :
      (h h₀ : List (ℕ × OneFutureRecord)) (registry : Registry f)
      → Tracks f registry h₀
      → Tracks f (finish_all f registry h) (h₀ ++ h)
  unfolding finish_all
  finish_all-Tracks [] h₀ registry tracks = rw (append-nil h₀) tracks
  finish_all-Tracks ((id, v) ∷ h) h₀ registry tracks =
      subst (Tracks f (finish_all f (finish f id v registry) h)) (append_assoc h₀ ((id, v) ∷ []) h)
        (finish_all-Tracks h (h₀ ++ (id, v) ∷ []) (finish f id v registry)
          (finish-Tracks registry h₀ id v tracks))

  -- After any history of runs that finished one after the other, the registry has no entry for a type
  -- none of whose futures finished, and for another type the last ten runs, oldest first, with the
  -- mean of their shares of the processor. (The two laws of floats concern the first run alone.)
  pub lookup-finish_all :
      (h : List (ℕ × OneFutureRecord)) (t : ℕ)
      → lookup t (finish_all f [] h) ≡ entry_of f (of_type t h)
  unfolding lookup entry_of of_type
  lookup-finish_all h t = finish_all-Tracks h [] [] (λ t. refl) t
