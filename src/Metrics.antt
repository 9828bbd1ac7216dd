-- ===== src/Metrics.antt =====
-- src/metrics.rs: the gauges of the runtimes' threads, as the hooks of src/runtime.rs change them.
pub mod Threads
mod Examples
use Prim.Native.String.{String}
use text.Mathlib.Text.{◌==◌}
use rs_run.Base.{ℕ, ◌+◌, Bool, true, false, ◌&&◌, if◌then◌else◌, u64, u64_pred}
use rs_run.Host.Tokio.{Gauge, threads_alive, threads_idle, Change}

-- The value of each gauge for each name of threads, an i64 as the word that it is.
abbrev pub Metrics : Type 0
Metrics = Gauge → String → ℕ

abbrev pub zeroes : Metrics
zeroes gauge label = 0

abbrev pub same_gauge : Gauge → Gauge → Bool
same_gauge threads_alive threads_alive = true
same_gauge threads_alive threads_idle = false
same_gauge threads_idle threads_alive = false
same_gauge threads_idle threads_idle = true

-- `with_label_values(…).inc()` and `.dec()`.
unfoldable pub apply : Change → Metrics → Metrics
apply c m gauge label =
    if same_gauge c.gauge gauge && c.label == label
    then (if c.raises then u64 (m gauge label + 1) else u64_pred (m gauge label))
    else m gauge label
