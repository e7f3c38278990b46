-- ===== src/Diagnostics.antt =====
-- diagnostics.py: which cases regressed on the candidate version, and how.
pub mod Findings
pub mod Groups
pub mod Report
pub mod Sizes
pub mod Totals
pub mod Complete
