-- ===== src/Evaluators.antt =====
-- evaluators.py: the deterministic evaluators, and the construction of evaluators from specs.
pub mod Match
pub mod Build
pub mod Ranges
pub mod Names
