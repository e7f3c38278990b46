-- ===== src/Promotion.antt =====
-- promotion.py: production traces become the cases of a dataset.
pub mod Promote
pub mod Provenance
