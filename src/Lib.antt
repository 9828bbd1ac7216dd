-- ===== src/Lib.antt =====
-- rs_run: tasks with priorities on top of tokio.
--
-- The program has runtimes with names on top of tokio, four of which are global, and tasks that are
-- repeated. Besides, it has a PendingFuture that wraps a future and now and then returns `Pending`
-- where the inner future could go on, so that futures of a low priority leave the processor to others;
-- so far its tests alone spawn it. It comes in three modes, each a file of src/pending_future: by the
-- number of pauses (mode_count.rs), by the time that the polls took (mode_time.rs), and by the tokens
-- of a limiter that the futures of a runtime share (mode_ratelimiter.rs). All three are a state machine
-- of two states, `Common` and `Backoff` with a tokio sleep, that moves in `poll`. The parts meet where
-- the global runtimes are made by the builder, a repeated task is spawned in a runtime, and a
-- PendingFuture reads the priority or the limiter of its handle.
--
-- The parts and their files:
--   * Priority: src/priority.rs, the enum `Priority` and its tables `fixed_interval_count` and
--     `fixed_interval_time_ms`.
--   * PendingFuture/Backoff: `State`, `unwrap_backoff` and the two passages that each mode's `poll`
--     has: `resume` is the `match this.state` at its head, `back_off` sets a new sleep, polls it and
--     wakes the task if it is over at once.
--   * PendingFuture/ModeCount: `PendingFuture::new` and `poll` of src/pending_future/mode_count.rs.
--     Its child Records is EACH_FUTURE_RECORD, the registry of finished runs by type, with Window for
--     histories in which one run finishes after the other and Race for all interleavings of the two
--     phases, the one under the read lock and the one under the write lock.
--     Shared has many futures over one registry, spawned, polled and dropped in any order, with the
--     time of their polls in its child Timed, and Rate one future against the time that passes.
--   * PendingFuture/ModeTime: src/pending_future/mode_time.rs. Share adds up what the polls of one
--     future took, against the time that passes.
--   * PendingFuture/ModeRatelimiter: src/pending_future/mode_ratelimiter.rs. Shared has the futures
--     that hold clones of one handle, spawned, polled and dropped in any order.
--   * PendingFuture/RuntimeHandle: `CommonRuntimeHandle` and `RateLimiterRuntimeHandle` of
--     src/pending_future/runtime_handle.rs.
--   * PendingFuture/Contract: what the three modes promise alike, with Course, the polls of an inner
--     future below a wrapper.
--   * PendingFuture/Drive and PendingFuture/Bare: an executor that polls a task until it has a result,
--     and an inner future without its wrapper.
--   * RepeatedTask: src/repeated_task.rs, `RepeatedTask` with `start`, `stop` (its part under the lock
--     and its await) and `drop`, and the loop of the spawned task, cut at the places where it can be
--     left; a call of the function can be Pending at any number of turns. RepeatedTask/History has the histories of calls and turns, in any order, RepeatedTask/Loop
--     the calls of the function in them, and RepeatedTask/Owned those histories in which the clones of
--     the runtime of src/runtime.rs, one of which `start` takes and drops, come and go as well, with
--     Pinned, Results and Stopped for a global runtime, of which GLOBAL_RUNTIMES holds a clone.
--   * Runtime: src/runtime.rs, `Builder` with its setters and `build`, the hooks of the threads, and
--     `Dropper`, which the clones of a runtime share. Runtime/Launch has what else `build` does, the
--     thread that keeps the tokio runtime and the collector of a build with tokio_unstable,
--     Runtime/Shutdown the histories of clones, Runtime/Settings the orders of setters, and
--     Runtime/Names the names with the numbers of RUNTIME_ID.
--   * Global: src/global.rs, `init_global_runtimes` and the use of the global runtimes, on one state
--     of START, CONFIG_RUNTIMES and GLOBAL_RUNTIMES. Global/Histories has the orders of calls,
--     Global/Sizes what is made, Global/Defaults the default options, Global/Zero a call that fails,
--     Global/Requests what a process asks, and Global/Spawns the work that `spawn_read` and its like
--     hand over, and `Runtime::spawn` of what `read_runtime` and its like return. Global/Threads has
--     threads that are in START and GLOBAL_RUNTIMES at once and contend for the lock, in steps between
--     which another can come in.
--   * Metrics: src/metrics.rs, the two gauges by name of threads, as the hooks of src/runtime.rs
--     change them. Metrics/Threads has the lives of threads.
--   * Error: src/error.rs, the errors and their texts.
--   * Host: what the program takes from elsewhere, as interfaces with the laws that are documented:
--     wakers and contexts, futures, the timer of tokio, fractions, and the crate ratelimit
--     (Host/Limiter, with a bucket of tokens that keeps its laws in Host/Bucket), join errors and
--     cancellation tokens (Host/Tasks), and tokio's builder of runtimes with the registry of prometheus
--     (Host/Tokio). Host/Samples has a host that keeps the laws.
--   * Base: lists, words, decimal texts, and `Outcome` for code that can panic.
--
-- A mode's `poll` is a function from what one call reads (the clock at each place of the code that
-- looks at it, and the random number of mode_count.rs), the future and the context to what it returns
-- and the future, the context and, where there is one, the shared state that it leaves. It is cut in
-- the functions `poll`, `proceed` (behind the first `match`), `insert_pause` or `wait_for`, `poll_inner`
-- and `conclude` (the match on the inner result), in the order of the code. A context counts the
-- wakers that were taken from it and the wake-ups; a future that returned `Pending` without either is
-- lost. Times are nanoseconds. u32 and u64 wrap around, as in a release build.
--
-- No function here runs on fuel, but for the decimal text of a usize in Base/Decimal, which has fuel for
-- twenty digits, as many as 2^64 has. A run of the executor is a list with one entry for each poll, and
-- the theorems on progress say how long a list is enough: more than twice the polls that the inner
-- future needs, where pauses alternate with polls, or where a limiter can refuse a future once before
-- each of them. For the loop of a repeated task it is three turns for each call, two without a time to
-- wait.
--
-- Left out: the memory orders of atomic counters; poisoned locks, but that of CONFIG_RUNTIMES; the
-- channel of RateLimiterRuntimeHandle, which is never used; the log, but for the errors that a repeated
-- task logs; a name of threads with a NUL in it, with which std refuses to spawn; `Display` and `Debug`
-- of a repeated task; what a call of its function has done when the end of the runtime cuts it off. What
-- the random generator yields is an argument, below the ten of `gen_range`. What tokio does with a
-- spawned future, and with threads, is tokio's.
pub mod Base
pub mod Host
pub mod Priority
pub mod PendingFuture
pub mod Error
pub mod RepeatedTask
pub mod Runtime
pub mod Global
pub mod Metrics
