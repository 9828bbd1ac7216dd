-- ===== src/Error/Examples.antt =====
-- Texts of src/error.rs, at two errors of one task with different causes.
use rs_run.Base.{ℕ, ◌≡◌, refl}
use rs_run.Host.Tasks.{cancelled, panic}
use rs_run.Error.{Error, wait_gc_task_stop, display}

abbrev after_cancel : Error ℕ
after_cancel = wait_gc_task_stop "test" cancelled

abbrev after_panic : Error ℕ
after_panic = wait_gc_task_stop "test" panic

text_of : display after_cancel ≡ "Failed to wait for repeated task test to stop"
unfolding display
text_of = refl

same_text : display after_cancel ≡ display after_panic
unfolding display
same_text = refl
