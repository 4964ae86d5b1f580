-- ===== src/Model.antt =====
-- The rows of the database, from app/core/models. A UUID is a number and a timestamp is a number of
-- microseconds, so that the order and the equality of the source are those of the numbers.
pub mod Floats
pub mod Trigger
pub mod Problem
pub mod Monitor
pub mod Channel
pub mod Escalation
pub mod Host
pub mod Maintenance
pub mod Template
pub mod User
