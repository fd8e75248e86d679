-- ===== src/Itch.antt =====
-- crates/itch-parser/src/lib.rs: NASDAQ ITCH messages and their parser, one function for each arm of
-- the parser's `match`. A packet is a list of bytes; reading past its end panics.
mod Tests
mod Scenarios
mod Defs
pub mod Encode
mod Symbol
pub mod Bounds
pub mod RoundTrip
unfoldable pub use Defs.*
