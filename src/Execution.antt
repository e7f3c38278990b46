-- ===== src/Execution.antt =====
-- execution.py: `run_evaluation`, the composition of the parts.
pub mod Pipeline
pub mod Decision
