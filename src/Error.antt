-- ===== src/Error.antt =====
-- src/error.rs: the errors of the crate. The places in the code that they carry are left out.
pub mod Texts
mod Examples
use Prim.Native.String.{String, ◌++◌}
use rs_run.Host.Tasks.{JoinError}

pub data Error (IoError : Type 0) : Type 0 where
  build_runtime : IoError → Error IoError
  illegal_state : String → Error IoError
  wait_gc_task_stop : String → JoinError → Error IoError

-- The texts of `#[snafu(display(...))]`.
unfoldable pub display : {IoError : Type 0} → Error IoError → String
display (build_runtime error) = "Failed to build runtime"
display (illegal_state name) = "Repeated task " ++ (name ++ " is already started")
display (wait_gc_task_stop name error) = "Failed to wait for repeated task " ++ (name ++ " to stop")
