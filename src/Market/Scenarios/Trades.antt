-- ===== src/Market/Scenarios/Trades.antt =====
-- The tests on the trades that executions and trade messages record.
use hft_demo.Market.Scenarios.Setup.{
  Run, no_orders, message, setup_test_market, setup_multi_stock_market,
}
use hft_demo.Common.{AggressorSide, buyer, seller}
use hft_demo.Orderbook.{get_best_bid, get_best_ask}
use hft_demo.Prelude.Bytes.{or_panic, index}
use hft_demo.Prelude.Text.{text}
use hft_demo.Prelude.{
  [], ◌∷◌, true, false, refl, ◌>>=◌, ◌>>◌, Bool, Build, Outcome, ◌≡◌, ok, assert, is_none, ◌==◌,
  length,
}

abbrev is_seller : AggressorSide → Bool
is_seller buyer = false
is_seller seller = true

test_execute_order_e_creates_trade_with_book_price : Build → Outcome (Unit {0})
unfolding setup_test_market setup_multi_stock_market message index get_best_bid get_best_ask
test_execute_order_e_creates_trade_with_book_price b = do
  market ← setup_multi_stock_market b ((text "AAPL", 10) ∷ (text "MSFT", 20) ∷ [])
  let r : Run = (market, no_orders)
  r ← message b r b'A' 10 100 60 555 0 b'B' (text "AAPL")
  r ← message b r b'E' 10 100 40 999 999 b' ' (text "AAPL")
  p0 ← index r.0.processors 0
  bid0 ← or_panic (get_best_bid p0.order_book)
  assert (bid0.1 == 20)
  assert (length p0.ticker.trades == 1)
  t0 ← index p0.ticker.trades 0
  assert (t0.price == 555)
  assert (t0.quantity == 40)
  assert (t0.match_number == 999)
  r ← message b r b'A' 20 100 60 555 0 b'B' (text "MSFT")
  r ← message b r b'E' 20 100 40 999 999 b' ' (text "MSFT")
  p1 ← index r.0.processors 1
  bid1 ← or_panic (get_best_bid p1.order_book)
  assert (bid1.1 == 20)
  assert (length p1.ticker.trades == 1)
  t1 ← index p1.ticker.trades 0
  assert (t1.price == 555)
  assert (t1.quantity == 40)
  assert (t1.match_number == 999)

test_execute_order_e_creates_trade_with_book_price-passes :
    (b : Build) → test_execute_order_e_creates_trade_with_book_price b ≡ ok tt
unfolding test_execute_order_e_creates_trade_with_book_price
test_execute_order_e_creates_trade_with_book_price-passes b = refl

test_execute_with_price_c_overrides_book_price : Build → Outcome (Unit {0})
unfolding setup_test_market setup_multi_stock_market message index get_best_bid get_best_ask
test_execute_with_price_c_overrides_book_price b = do
  market ← setup_multi_stock_market b ((text "AAPL", 10) ∷ (text "MSFT", 20) ∷ [])
  let r : Run = (market, no_orders)
  r ← message b r b'A' 10 10 1000 500 0 b'S' (text "AAPL")
  r ← message b r b'C' 10 10 1000 1001 9999 b' ' (text "AAPL")
  p0 ← index r.0.processors 0
  assert (is_none (get_best_ask p0.order_book))
  t0 ← index p0.ticker.trades 0
  assert (t0.price == 1001)
  assert (t0.match_number == 9999)
  r ← message b r b'A' 20 10 1000 500 0 b'S' (text "MSFT")
  r ← message b r b'C' 20 10 1000 1001 9999 b' ' (text "MSFT")
  p1 ← index r.0.processors 1
  assert (is_none (get_best_ask p1.order_book))
  t1 ← index p1.ticker.trades 0
  assert (t1.price == 1001)
  assert (t1.match_number == 9999)

test_execute_with_price_c_overrides_book_price-passes :
    (b : Build) → test_execute_with_price_c_overrides_book_price b ≡ ok tt
unfolding test_execute_with_price_c_overrides_book_price
test_execute_with_price_c_overrides_book_price-passes b = refl

test_non_displayable_trade_updates_ticker_only : Build → Outcome (Unit {0})
unfolding setup_test_market setup_multi_stock_market message index get_best_bid get_best_ask
test_non_displayable_trade_updates_ticker_only b = do
  market ←
      setup_multi_stock_market b ((text "AAPL", 50) ∷ (text "MSFT", 120) ∷ (text "NVDA", 456) ∷ [])
  let r : Run = (market, no_orders)
  r ← message b r b'P' 50 100 6000 555 0 b'S' (text "AAPL")
  p0 ← index r.0.processors 0
  assert (is_none (get_best_bid p0.order_book))
  assert (p0.ticker.total_volume == 6000)
  assert (p0.ticker.last_sale == 555)
  r ← message b r b'P' 120 100 6000 555 0 b'S' (text "MSFT")
  p1 ← index r.0.processors 1
  assert (is_none (get_best_bid p1.order_book))
  assert (p1.ticker.total_volume == 6000)
  assert (p1.ticker.last_sale == 555)
  r ← message b r b'P' 456 100 6000 555 0 b'S' (text "NVDA")
  p2 ← index r.0.processors 2
  assert (is_none (get_best_bid p2.order_book))
  assert (p2.ticker.total_volume == 6000)
  assert (p2.ticker.last_sale == 555)

test_non_displayable_trade_updates_ticker_only-passes :
    (b : Build) → test_non_displayable_trade_updates_ticker_only b ≡ ok tt
unfolding test_non_displayable_trade_updates_ticker_only
test_non_displayable_trade_updates_ticker_only-passes b = refl

test_end_to_end_add_and_execute : Build → Outcome (Unit {0})
unfolding setup_test_market setup_multi_stock_market message index get_best_bid get_best_ask
test_end_to_end_add_and_execute b = do
  market ← setup_multi_stock_market b ((text "AAPL", 50) ∷ (text "MSFT", 120) ∷ [])
  let r : Run = (market, no_orders)
  r ← message b r b'A' 50 100 1500000 100 0 b'B' (text "AAPL")
  before ← index r.0.processors 0
  first_bid ← or_panic (get_best_bid before.order_book)
  assert (first_bid.1 == 1500000)
  assert (first_bid.0 == 100)
  r ← message b r b'E' 50 100 1499000 0 8888 b' ' (text "APPL")
  after ← index r.0.processors 0
  rest ← or_panic (get_best_bid after.order_book)
  assert (rest.1 == 1000)
  assert (length after.ticker.trades == 1)
  trade ← index after.ticker.trades 0
  assert (trade.price == 100)
  assert (trade.quantity == 1499000)
  assert (trade.match_number == 8888)
  assert (is_seller trade.side)

test_end_to_end_add_and_execute-passes : (b : Build) → test_end_to_end_add_and_execute b ≡ ok tt
unfolding test_end_to_end_add_and_execute
test_end_to_end_add_and_execute-passes b = refl
