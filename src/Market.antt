-- ===== src/Market.antt =====
-- crates/market-handler/src/lib.rs: the traits of the exchange and of the telemetry sink (Traits), the
-- processor of one stock (Processor), the market's state (State), and its packets (Packets).
pub mod Mock
mod Tests
mod Scenarios
pub mod Feed
pub mod Total
pub mod Release
mod Traits
mod Processor
mod State
mod Packets
mod Every
pub mod Safety
pub mod Orders
pub mod Routing
pub mod Fills
pub mod Telemetry
unfoldable pub use Traits.*
unfoldable pub use Processor.*
unfoldable pub use State.*
unfoldable pub use Packets.*
