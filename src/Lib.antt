-- ===== src/Lib.antt =====
-- A verification library of the HFT demo: an engine that reads NASDAQ ITCH packets, keeps a book
-- for each stock, lets a strategy answer with orders, checks them against risk limits, and passes
-- orders, fills and telemetry to other processes through rings in shared memory.
--
-- The parts, as they call each other. A packet goes to the market handler (Market, of
-- crates/market-handler/src/lib.rs), which parses it (Itch, of crates/itch-parser/src/lib.rs) and
-- routes the message by its stock locate to the processor of the stock. The processor updates its
-- book (Orderbook, of crates/orderbook/src/lib.rs) and its ticker (Ticker, of
-- crates/ticker/src/lib.rs), asks its strategy (Strategies, of crates/strategies/src/lib.rs), has
-- the answer checked (Risk, of crates/risk-engine/src/lib.rs), and sends it to the exchange; then
-- it writes telemetry. Fills are polled after each packet. Ring is
-- crates/shm-ring-buffer/src/lib.rs; Common is crates/common/src/lib.rs, the types that the crates
-- share. Functions keep their names; a method takes the state and returns the new state, and a
-- helper that stands for a part of a method is named for what that part does.
--
-- How the models stand to the code. A step gives an Outcome: a value, or a panic (Prelude/Run).
-- Integers are natural numbers, or integers (Prelude/Int), with the width of each operation written
-- out (Prelude/Word): overflow panics in a debug build and wraps in a release one, and theorems
-- hold for both unless they name one. Maps are association lists sorted by key (Prelude/Map); hash
-- sets are lists. Byte slices are lists (Prelude/Bytes) and text is a list of code points
-- (Prelude/Text). Floating point is a parameter, the record FloatOps (Prelude/Float), with
-- fractions as an instance to run on. The exchange and the telemetry sink are records of a state
-- and methods (Market/Traits), and a strategy is one too. The wall clock is an argument. Printing
-- is left out.
--
-- The ring's memory is a function from slots, with the number of bytes that are mapped: an access
-- to a slot beyond them is a panic. A read takes the memory at its three moments: the first load of the head,
-- the copy of the slot, the second load.
--
-- The applications. Replay is apps/replay-engine/src/main.rs: the file of messages goes to the
-- market packet by packet (Replay/File, and Replay/Main for the whole run), and the exchange is a
-- gateway that fills each order at once and keeps the accounts (Replay/Gateway). Live is
-- apps/live-engine/src/main.rs: the exchange is another process behind two rings, one for orders
-- and one for reports (Live/Gateway), and the loop runs on what the socket returns (Live/Loop,
-- Live/Main): the reports' ring may change between two turns of the loop, and stands still during
-- one. Visualiser is apps/visualiser/src/main.rs: it reads the records that the market's telemetry
-- puts on a ring, and posts their lines in batches; the bodies of the posts are part of its state
-- (Visualiser/Defs). Structs are read from memory by the offsets of their fields (Prelude/Layout).
--
-- Loops on fuel: that of MarketState::poll_confirmed_orders (Market/Packets), since it runs as
-- long as the gateway has fills: one poll more than there are fills is enough (Market/Fills is
-- about any gateway, Replay/Ends and Market/Release/Packet about one that gets a fill for each
-- order, Live/Polling about that of the live engine); that of the replay over its file
-- (Replay/File), for which one more than the bytes of the file, or than its messages, is enough
-- (Replay/Ends, Replay/Total); and the wait of test_end_to_end.
--
-- The unit tests of the crates are runs too (Itch/Scenarios, Orderbook/Scenarios, Risk/Scenarios,
-- Strategies/Scenarios, and Market/Scenarios with the mocks of the market handler's tests): each is a
-- definition with the test's name, whose assertions panic when they fail, on fractions for floating
-- point. test_end_to_end, which the repository does not run as a test, is on fuel
-- (Market/Scenarios/Waiting).
--
-- What the outside owes the market is stated in Market/Feed (the feed, the strategy's answers, the
-- exchange and its reports; Replay/Ready is about those of the replay) and in Market/Release/Event (the record Outside, which Replay/Outside fills for the replay). The replay's
-- telemetry ring counts 2^20 slots, of which the last lies behind the end of its file: hence the bound
-- on the messages of a run in Replay/Total.
--
-- Startup is how the applications' main functions begin: the cores that they pin themselves to, and
-- the visualiser's wait for its file. Replay/Pnl is the amounts that the replay prints at its end.
--
-- Not modelled: opening files and sockets, the HTTP client, the text that is printed, failures of the
-- file system, the ordering of memory accesses, and the programs in C++ and Python.
pub mod Prelude
pub mod Common
pub mod Itch
pub mod Orderbook
pub mod Ticker
pub mod Risk
pub mod Strategies
pub mod Ring
pub mod Market
pub mod Replay
pub mod Live
pub mod Visualiser
pub mod Startup
