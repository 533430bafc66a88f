-- ===== src/Manager.antt =====
-- The interface that drives the system, src/manager.rs: the methods, and how a subcommand becomes a
-- call of one and back. What serde makes of the parameters on the wire is the record Wire.
pub mod Commands
pub mod Params
pub mod Call
pub mod Answer
pub mod Carried
pub mod RoundTrip
pub mod Whole
pub mod ReadOnly
mod Tests
