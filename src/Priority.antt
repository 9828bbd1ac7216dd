-- ===== src/Priority.antt =====
-- src/priority.rs: the five priorities and the length of the pauses that each asks for.
use rs_run.Base.{ℕ, Option, none, some}

pub data Priority : Type 0 where
  very_low low middle high very_high : Priority

unfoldable pub fixed_interval_count : Priority → Option ℕ
fixed_interval_count very_low = some 30
fixed_interval_count low = some 20
fixed_interval_count middle = some 13
fixed_interval_count high = some 10
fixed_interval_count very_high = none

unfoldable pub fixed_interval_time_ms : Priority → Option ℕ
fixed_interval_time_ms very_low = some 9
fixed_interval_time_ms low = some 7
fixed_interval_time_ms middle = some 5
fixed_interval_time_ms high = some 3
fixed_interval_time_ms very_high = none
