-- ===== src/PendingFuture.antt =====
-- src/pending_future: futures that pause the future they wrap, by priority.
pub mod Backoff
pub mod Drive
pub mod Bare
pub mod Course
pub mod RuntimeHandle
pub mod ModeCount
pub mod ModeTime
pub mod ModeRatelimiter
pub mod Contract
mod Examples
