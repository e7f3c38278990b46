-- ===== src/Gate.antt =====
-- gate.py: a release policy applied to an evaluation result.
pub mod Verdict
pub mod Report
pub mod Blocking
pub mod Explained
pub mod Total
pub mod Ungated
pub mod Monotone
