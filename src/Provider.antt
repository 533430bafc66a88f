-- ===== src/Provider.antt =====
-- What a provider accepts and how what it reports is read, the types and the schema of
-- src/provider.rs.
pub mod Number
pub mod Kind
pub mod Schema
mod Tests
