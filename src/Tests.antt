-- ===== src/Tests.antt =====
-- Runs of the model on concrete inputs.
mod Gate
mod Agent
mod Calibration
mod Runner
mod Jobs
mod Aggregate
mod Stats
mod Diagnostics
mod Persist
mod Rag
mod Config
mod Plan
mod Promotion
mod Execution
mod Judging
