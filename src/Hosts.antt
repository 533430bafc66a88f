-- ===== src/Hosts.antt =====
-- The hosts that a run of detctl reaches, src/hosts.rs.
pub mod Range
pub mod Inventory
mod Tests
