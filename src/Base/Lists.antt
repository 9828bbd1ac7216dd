-- ===== src/Base/Lists.antt =====
-- Lists measured by native numbers, and maps with number keys as association lists.
use Prim.Native.Nat.{ℕ, zero, suc, ◌+◌, ◌-◌}
use mathlib.Core.Path.{◌≡◌, refl}
use mathlib.Core.List.{List, [], ◌∷◌, ◌++◌}
use mathlib.Core.Option.{Option, none, some}
use native.Mathlib.Omega.{arith}
use rs_run.Base.Tests.{◌==◌, if◌then◌else◌}

module _ {ℓ} {A : Type ℓ} where
  abbrev pub length : List A → ℕ
  length [] = 0
  length (x ∷ xs) = suc (length xs)

  abbrev pub drop : ℕ → List A → List A
  drop zero xs = xs
  drop (suc n) [] = []
  drop (suc n) (x ∷ xs) = drop n xs

  pub length-append : (xs ys : List A) → length (xs ++ ys) ≡ length xs + length ys
  length-append [] ys = omega arith
  length-append (x ∷ xs) ys = omega (arith, length-append xs ys)

  pub length-drop : (n : ℕ) (xs : List A) → length (drop n xs) ≡ length xs - n
  length-drop zero xs = omega arith
  length-drop (suc n) [] = omega arith
  length-drop (suc n) (x ∷ xs) = omega (arith, length-drop n xs)

-- A map whose keys are the ids of types. The source's HashMap is read and written at one key only, so
-- its order does not matter.
module _ {ℓ} {Value : Type ℓ} where
  unfoldable pub lookup : ℕ → List (ℕ × Value) → Option Value
  lookup id [] = none
  lookup id ((at, found) ∷ rest) = if at == id then some found else lookup id rest

  -- A value that is there is replaced.
  unfoldable pub insert : ℕ → Value → List (ℕ × Value) → List (ℕ × Value)
  insert id new [] = (id, new) ∷ []
  insert id new ((at, old) ∷ rest) =
      let kept = (at, old) ∷ insert id new rest in if at == id then (id, new) ∷ rest else kept

  pub lookup-insert :
      (id other : ℕ) (new : Value) (entries : List (ℕ × Value))
      → lookup other (insert id new entries)
        ≡ (if id == other then some new else lookup other entries)
  unfolding lookup insert
  lookup-insert id other new [] = refl
  lookup-insert id other new ((at, old) ∷ rest) = ground (arith, lookup-insert id other new rest)

  pub lookup-insert_self :
      (id : ℕ) (new : Value) (entries : List (ℕ × Value))
      → lookup id (insert id new entries) ≡ some new
  lookup-insert_self id new entries = ground (arith, lookup-insert id id new entries)
