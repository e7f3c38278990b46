-- ===== src/Rag.antt =====
-- rag_evaluators.py: the evaluators of retrieval and of lexical grounding.
pub mod Words
pub mod Evaluators
pub mod Unique
pub mod Scores
pub mod Full
