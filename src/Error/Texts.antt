-- ===== src/Error/Texts.antt =====
-- What the texts of the errors in src/error.rs tell.
use Prim.Native.Char.{Char, code}
use Prim.Native.String.{String, ◌++◌}
use text.Mathlib.TextLemmas.{append_cancel_left, append_cancel_right, append_assoc, cons-append}
use rs_run.Base.{ℕ, ◌≡◌, refl, sym, ap, ◌∙◌, arith}
use rs_run.Error.{Error, build_runtime, illegal_state, wait_gc_task_stop, display}

-- An error without what caused it.
pub data Told : Type 0 where
  no_runtime : Told
  already_started : String → Told
  not_stopped : String → Told

abbrev pub told : {IoError : Type 0} → Error IoError → Told
told (build_runtime error) = no_runtime
told (illegal_state name) = already_started name
told (wait_gc_task_stop name error) = not_stopped name

first : String → ℕ
first String.[] = 0
first (String.◌∷◌ c s) = code c

first-append : (c : Char) (s t : String) → first (String.◌∷◌ c s ++ t) ≡ code c
unfolding first
first-append c s t = ap first (cons-append c s t)

-- The texts begin with different letters, or go on with different ones behind "Failed to ".
starts_so : (a : String) → first ("Repeated task " ++ a) ≡ b'R'
starts_so a = first-append "R" "epeated task " a

fails_so : (a : String) → first ("Failed to wait for repeated task " ++ a) ≡ b'F'
fails_so a = first-append "F" "ailed to wait for repeated task " a

build_or_wait :
    (a : String) → "Failed to build runtime" ≡ "Failed to wait for repeated task " ++ a → ⊥
unfolding first
build_or_wait a h =
    let e : "Failed to " ++ "build runtime" ≡ "Failed to " ++ ("wait for repeated task " ++ a) =
      h ∙ append_assoc "Failed to " "wait for repeated task " a in
    let e' =
      ap first
        (append_cancel_left "Failed to " "build runtime" ("wait for repeated task " ++ a) e) in
    let w = first-append "w" "ait for repeated task " a in omega (arith, e', w)

-- The text of an error tells which error it is and which task it is about, whatever the task's name:
-- two errors with the same text differ at most in what caused them.
pub display-told :
    {IoError : Type 0} (e e' : Error IoError) → display e ≡ display e' → told e ≡ told e'
unfolding display first
display-told (build_runtime x) (build_runtime y) h = refl
display-told (build_runtime x) (illegal_state b) h =
    absurd (omega (arith, ap first h, starts_so (b ++ " is already started")))
display-told (build_runtime x) (wait_gc_task_stop b y) h = absurd (build_or_wait _ h)
display-told (illegal_state a) (build_runtime y) h =
    absurd (omega (arith, ap first h, starts_so (a ++ " is already started")))
display-told (illegal_state a) (illegal_state b) h =
    ap already_started
      (append_cancel_right a b " is already started" (append_cancel_left "Repeated task " _ _ h))
display-told (illegal_state a) (wait_gc_task_stop b y) h =
    absurd (
      omega (arith, ap first h, starts_so (a ++ " is already started"), fails_so (b ++ " to stop")))
display-told (wait_gc_task_stop a x) (build_runtime y) h = absurd (build_or_wait _ (sym h))
display-told (wait_gc_task_stop a x) (illegal_state b) h =
    absurd (
      omega (arith, ap first h, starts_so (b ++ " is already started"), fails_so (a ++ " to stop")))
display-told (wait_gc_task_stop a x) (wait_gc_task_stop b y) h = ap not_stopped (
    append_cancel_right a b " to stop"
      (append_cancel_left "Failed to wait for repeated task " _ _ h))
