-- ===== src/Persist.antt =====
-- db/mapping.py and db/models.py: entities written to rows and read back. Reading a row runs the
-- entity's own constructor, and so may raise.
pub mod Rows
pub mod Loaded
pub mod Flat
pub mod Nested
pub mod Json
pub mod Runs
pub mod RoundTrip
pub mod JsonRoundTrip
