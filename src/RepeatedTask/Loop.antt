-- ===== src/RepeatedTask/Loop.antt =====
-- The calls that the loop of src/repeated_task.rs makes, and what they would come to without the loop.
pub mod Made
pub mod Progress
pub mod Rate
pub mod Spaced
mod Examples
use rs_run.Base.{
  ℕ, zero, suc, List, [], ◌∷◌, ◌++◌, Result, ok, err, Outcome, done, panicked, ◌>>=◌, ◌≡◌, refl,
}
use rs_run.RepeatedTask.{TaskFunction}

module _ {E : Type 0} (F : TaskFunction E) where
  abbrev pub noted : List E → Result (Unit {0}) E → List E
  noted log (ok _) = log
  noted log (err e) = log ++ e ∷ []

  -- A number of calls of the function, one after the other: its state, and its errors behind those
  -- that there are.
  unfoldable pub called : List E → ℕ → F.State → Outcome (F.State × List E)
  called log zero f = done (f, log)
  called log (suc n) f = do (res, g) ← F.call f; called (noted log res) n g

  abbrev pub call_more : F.State × List E → Outcome (F.State × List E)
  call_more (g, log) = do (res, h) ← F.call g; done (h, noted log res)

  -- The last of the calls.
  pub called_last :
      (n : ℕ) (f : F.State) (log : List E) → called log (suc n) f ≡ (called log n f >>= call_more)
  unfolding called
  called_last zero f log = refl
  called_last (suc n) f log = go (λ g log'. called_last n g log') (F.call f) refl
    where
      go :
          ((g : F.State) (log' : List E) → called log' (suc n) g ≡ (called log' n g >>= call_more))
          → (m : Outcome (Result (Unit {0}) E × F.State)) → F.call f ≡ m
          → called log (suc (suc n)) f ≡ (called log (suc n) f >>= call_more)
      go last panicked e = rw (called, e) refl
      go last (done (res, g)) e = rw (called, e) (last g (noted log res))
