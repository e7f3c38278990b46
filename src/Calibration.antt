-- ===== src/Calibration.antt =====
-- calibration.py: how well a judge agrees with people, over a set of labelled examples.
pub mod Values
pub mod Metrics
pub mod Bounded
pub mod Judging
pub mod Counts
pub mod Answers
