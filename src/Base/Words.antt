-- ===== src/Base/Words.antt =====
-- The unsigned machine integers of the source: numbers that wrap around at their width.
use Prim.Native.Nat.{ℕ, ◌+◌, ◌-◌, ◌^◌, ◌%◌}

abbrev pub u32 : ℕ → ℕ
u32 n = n % 2 ^ 32

abbrev pub u64 : ℕ → ℕ
u64 n = n % 2 ^ 64

-- `fetch_sub(1)` on an AtomicU64.
abbrev pub u64_pred : ℕ → ℕ
u64_pred n = u64 (n + 2 ^ 64 - 1)
