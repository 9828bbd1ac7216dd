-- ===== src/Runtime/Shutdown.antt =====
-- The signal that ends a runtime of src/runtime.rs.
use rs_run.Base.{◌≡◌, refl, subst, ◌∙◌, Bool, ◌&&◌, List, [], ◌∷◌, ltb, if◌then◌else◌, ◌==◌, arith}
use rs_run.Runtime.{Shared, shared, is_up, clone, drop_dropper, drop_runtime}

-- What is done to a clone that is there.
pub data Use : Type 0 where
  cloned : Use
  dropped : Use

-- Without a clone there is nobody to do it.
unfoldable pub use_runtime : Use → Shared → Shared
use_runtime cloned s = if s.strong == 0 then s else clone s
use_runtime dropped s = if s.strong == 0 then s else drop_runtime s

unfoldable pub uses : List Use → Shared → Shared
uses [] s = s
uses (u ∷ us) s = uses us (use_runtime u s)

-- A sender for a runtime that has clones, a signal to the thread of one that has none.
abbrev pub IsOpen : Shared → Type 0
IsOpen s = (s.signals ≡ (if s.kept && s.strong == 0 then 1 else 0)) × (s.close ≡ ltb 0 s.strong)

pub use_runtime-IsOpen : (u : Use) (s : Shared) → IsOpen s → IsOpen (use_runtime u s)
unfolding use_runtime clone drop_runtime drop_dropper
use_runtime-IsOpen cloned s h = ground arith
use_runtime-IsOpen dropped s h = ground arith

pub use_runtime_kept : (u : Use) (s : Shared) → (use_runtime u s).kept ≡ s.kept
unfolding use_runtime clone drop_runtime drop_dropper
use_runtime_kept cloned s = ground arith
use_runtime_kept dropped s = ground arith

uses-IsOpen : (us : List Use) (s : Shared) → IsOpen s → IsOpen (uses us s)
unfolding uses
uses-IsOpen [] s h = h
uses-IsOpen (u ∷ us) s h = uses-IsOpen us (use_runtime u s) (use_runtime-IsOpen u s h)

uses_kept : (us : List Use) (s : Shared) → (uses us s).kept ≡ s.kept
unfolding uses
uses_kept [] s = refl
uses_kept (u ∷ us) s = uses_kept us (use_runtime u s) ∙ use_runtime_kept u s

pub is_up-IsOpen : (s : Shared) → IsOpen s → is_up s ≡ (s.kept && ltb 0 s.strong)
unfolding is_up
is_up-IsOpen s h = ground (arith, h)

-- However the clones of a runtime are cloned and dropped: if the thread that keeps the tokio runtime
-- could be spawned, then the runtime is up while a clone is left, and when all of them are gone that
-- thread has got one signal. If it could not, the runtime is never up, clones or not.
pub uses_shut_down :
    (kept : Bool) (us : List Use)
    → let s = uses us (shared kept) in
      (is_up s ≡ (kept && ltb 0 s.strong)) × (s.signals ≡ (if kept && s.strong == 0 then 1 else 0))
unfolding shared
uses_shut_down kept us =
    let s = uses us (shared kept) in
    let open' = uses-IsOpen us (shared kept) (ground arith, refl) in
    subst
      (λ b. (is_up s ≡ (b && ltb 0 s.strong)) × (s.signals ≡ (if b && s.strong == 0 then 1 else 0)))
      (uses_kept us (shared kept)) (is_up-IsOpen s open', open'.0)
