-- ===== src/Config.antt =====
-- config.py: the reader of a run's configuration.
pub mod Read
pub mod Sections
pub mod Policy
pub mod Plan
pub mod Labels
pub mod Directed
pub mod Producible
