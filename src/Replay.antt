-- ===== src/Replay.antt =====
-- apps/replay-engine/src/main.rs: the replay of a file of packets, against an exchange that fills
-- each order at once.
mod Tests
mod Events
mod Gateway
mod File
mod Main
mod Pnl
pub mod Frames
pub mod Ledger
pub mod Accounts
pub mod Balance
pub mod Listing
pub mod Session
pub mod Ends
pub mod Ready
pub mod Whole
pub mod Outside
pub mod Total
unfoldable pub use Gateway.*
unfoldable pub use Main.*
unfoldable pub use File.*
