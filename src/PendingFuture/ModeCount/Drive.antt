-- ===== src/PendingFuture/ModeCount/Drive.antt =====
-- The executor of a wrapped future of mode_count.rs.
use rs_run.Base.{ℕ, List, Outcome}
use rs_run.Host.{Poll, pending, Context, Future, Timer, Float}
use rs_run.PendingFuture.Drive
use rs_run.PendingFuture.RuntimeHandle.{CommonRuntimeHandle}
use rs_run.PendingFuture.ModeCount.Records.{Registry}
use rs_run.PendingFuture.ModeCount.{Readings, Polled, new, poll}

module _ (T : Timer) (f : Float) {Output : Type 0} (F : Future Output) where
  -- A wrapped future that has not been polled.
  abbrev pub fresh : CommonRuntimeHandle → F.State → Context → Registry f → Polled T f F
  fresh handle future cx registry = record {
    result = pending;
    this = new T f F handle future;
    cx = cx;
    registry = registry;
  }

  abbrev pub result : Polled T f F → Poll Output
  result v = v.result

  abbrev pub round : ℕ → Readings → Polled T f F → Outcome (Polled T f F)
  round type_id r v = poll T f F type_id r v.this v.cx v.registry

  abbrev pub drive : ℕ → List Readings → Polled T f F → Outcome (Polled T f F)
  drive type_id = Drive.drive result (round type_id)
