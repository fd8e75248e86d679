-- ===== src/Visualiser.antt =====
-- apps/visualiser/src/main.rs: the process that reads the telemetry ring and posts its records in
-- batches to a database. The HTTP client is the caller's: what is kept here are the bodies posted.
mod Tests
mod Defs
pub mod Layout
pub mod Batches
pub mod Drain
pub mod Feed
unfoldable pub use Defs.*
