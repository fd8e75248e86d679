-- ===== src/Live.antt =====
-- apps/live-engine/src/main.rs: the engine on live packets, whose exchange is another process behind
-- two rings in shared memory. The socket and the other process are the caller's.
mod Tests
mod Gateway
mod Loop
mod Main
pub mod Layout
pub mod Polling
pub mod Sending
unfoldable pub use Gateway.*
unfoldable pub use Main.*
unfoldable pub use Loop.*
