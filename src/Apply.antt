-- ===== src/Apply.antt =====
-- Bringing the system to the state that it is declared to be in, src/apply.rs and the run of
-- `detc apply` in src/detc.rs.
pub mod Requirement
pub mod Naming
pub mod Snapshot
pub mod Change
pub mod Plan
pub mod Run
mod Tests
