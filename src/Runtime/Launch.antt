-- ===== src/Runtime/Launch.antt =====
-- `Builder::build` of src/runtime.rs with the thread that keeps the runtime, and with the collector of a
-- build with tokio_unstable.
use Prim.Native.Char.{Char, code}
use Prim.Native.String.{String, ◌++◌}
use rs_run.Base.{ℕ, Bool, Result, ok, err, if◌then◌else◌, ◌==◌}
use rs_run.Host.Tokio.{Tokio, Prometheus}
use rs_run.Error.{Error}
use rs_run.Runtime.{Runtime, Builder, build, Shared, shared}

-- `name.replace("-", "_")`.
unfoldable pub underscore : Char → Char
underscore c = if code c == b'-' then "_" else c

unfoldable pub underscored : String → String
underscored String.[] = ""
underscored (String.◌∷◌ c s) = String.◌∷◌ (underscore c) (underscored s)

module _ (X : Tokio) (P : Prometheus X.Handle) where
  -- The answer of the registry is ignored.
  unfoldable pub register_collector : String → X.Handle → P.Registry → P.Registry
  register_collector name handle registry = (P.register (underscored name) handle registry).1

  -- The runtime, what its clones share, and the name of the thread that keeps it.
  pub record Launched : Type 0 where
    pub runtime : Runtime X
    pub shared : Shared
    pub keeper : String

  unfoldable pub launched :
      Bool
      → Builder X
      → Result (Runtime X) (Error X.IoError)
      → P.Registry
      → Result Launched (Error X.IoError) × P.Registry
  launched kept b (ok r) registry = (
    ok (record { runtime = r; shared = shared kept; keeper = b.thread_name ++ "-blocker" }),
    register_collector r.name r.handle registry,
  )
  launched kept b (err e) registry = (err e, registry)

  -- `kept` is if the thread can be spawned.
  unfoldable pub launch :
      ℕ → Bool → Builder X → P.Registry → Result Launched (Error X.IoError) × P.Registry
  launch now kept b registry = launched kept b (build X now b) registry
