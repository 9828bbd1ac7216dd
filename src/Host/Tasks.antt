-- ===== src/Host/Tasks.antt =====
-- What the program takes from tokio's tasks and from tokio_util's cancellation tokens.
use rs_run.Base.{ℕ, Bool, true, false, ◌≡◌}

-- tokio::task::JoinError: the task panicked, or its runtime was shut down.
pub data JoinError : Type 0 where
  panic : JoinError
  cancelled : JoinError

-- A handle is known by the id of its task.
abbrev pub JoinHandle : Type 0
JoinHandle = ℕ

-- A CancellationToken. A child token's `cancelled` is ready when its parent is cancelled, so that a
-- child that nobody cancels is as good as its parent.
pub record Tokens : Type 1 where
  pub CancellationToken : Type 0
  pub new : CancellationToken
  pub cancel : CancellationToken → CancellationToken
  pub is_cancelled : CancellationToken → Bool

pub record IsTokens (K : Tokens) : Type 0 where
  pub is_cancelled-new : K.is_cancelled K.new ≡ false
  pub is_cancelled-cancel : (t : K.CancellationToken) → K.is_cancelled (K.cancel t) ≡ true
