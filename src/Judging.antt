-- ===== src/Judging.antt =====
-- judge.py: the judge that asks a language model for a verdict.
pub mod Parse
pub mod Ask
pub mod Judgement
