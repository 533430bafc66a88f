-- ===== src/Bundle.antt =====
-- The bundles of configuration that a system installs, src/bundle.rs.
pub mod Place
pub mod Led
pub mod Disk
pub mod Open
pub mod Install
pub mod Create
mod Tests
