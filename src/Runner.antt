-- ===== src/Runner.antt =====
-- runner.py: one experiment over the baseline and the candidate version.
pub mod Exec
pub mod Turn
pub mod Trace
