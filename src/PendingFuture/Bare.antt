-- ===== src/PendingFuture/Bare.antt =====
-- An inner future as it is without its wrapper: what the modes are compared with.
use rs_run.Base.{ℕ}
use rs_run.Host.{Poll, Context, Future}

-- The result of the last poll, the future and the context.
abbrev pub Bare : {Output : Type 0} → Future Output → Type 0
Bare {Output} F = Poll Output × F.State × Context

abbrev pub bare_result : {Output : Type 0} (F : Future Output) → Bare F → Poll Output
bare_result F (res, s, cx) = res

-- A poll at the time that `at` finds in the reading.
abbrev pub bare_poll :
    {Output : Type 0} (F : Future Output) {Reading : Type 0}
    → (Reading → ℕ)
    → Reading
    → Bare F
    → Bare F
bare_poll F at r (res, s, cx) = F.poll (at r) s cx
