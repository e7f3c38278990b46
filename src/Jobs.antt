-- ===== src/Jobs.antt =====
-- db/repositories.py (AsyncJobRepository), db/session.py (unit_of_work) and worker/tasks.py: the
-- durable life of a background run.
pub mod Repository
pub mod Worker
pub mod Transitions
pub mod Bounded
pub mod Rows
pub mod Writes
pub mod Lifecycle
pub mod Task
