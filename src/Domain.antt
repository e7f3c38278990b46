-- ===== src/Domain.antt =====
-- domain/: the enumerations, the value objects and the entities. A dataclass is a record, and its
-- `__post_init__` a function `new_…` that returns the record or the exception. An `int` field
-- whose class refuses negative values is an ℕ, so that check is made by its type. Creation times
-- are left out, except where the program compares them (AsyncJob).
pub mod Enums
pub mod Values
pub mod Evidence
pub mod Entities
pub mod Jobs
pub mod Traces
