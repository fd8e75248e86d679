-- ===== src/Market/Scenarios.antt =====
-- The unit tests of crates/market-handler/src/lib.rs, on fractions for floats: each is a run of its
-- body.
mod Setup
mod Books
mod Trades
mod Signals
mod Waiting
