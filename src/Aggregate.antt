-- ===== src/Aggregate.antt =====
-- aggregate.py: from the raw records of a run to one comparison per metric.
pub mod Validate
pub mod Metrics
pub mod Names
