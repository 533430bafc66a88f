-- ===== src/Var.antt =====
-- The variables namespace, src/var.rs.
pub mod Dropins
pub mod Strategy
pub mod Merging
pub mod Subtree
pub mod Access
pub mod Rfc7396
mod Tests
