-- ===== src/Datasets.antt =====
-- datasets.py: the reader of dataset files.
pub mod Jsonl
pub mod Cases
