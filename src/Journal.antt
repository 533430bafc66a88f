-- ===== src/Journal.antt =====
-- The history of a system, src/journal.rs.
pub mod Message
pub mod History
pub mod Entries
mod Tests
