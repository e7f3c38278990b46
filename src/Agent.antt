-- ===== src/Agent.antt =====
-- agent_evaluators.py: the evaluators of tool calls, and the common subsequence they measure.
pub mod Subsequence
pub mod Longest
pub mod Rows
pub mod Evaluators
pub mod Scores
pub mod Full
