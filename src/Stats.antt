-- ===== src/Stats.antt =====
-- stats.py: paired observations, their bootstrap interval, and the evidence for each metric.
pub mod Pairing
pub mod Matched
pub mod Interval
pub mod Withheld
