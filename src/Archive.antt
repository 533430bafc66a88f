-- ===== src/Archive.antt =====
-- The reader and the writer of a bundle's archive, src/tar.rs.
pub mod Name
pub mod Format
pub mod Tests
