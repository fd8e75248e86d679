-- ===== src/Market/Scenarios/Books.antt =====
-- The tests on the books of the stocks.
use hft_demo.Market.Scenarios.Setup.{
  Run, no_orders, message, setup_test_market, setup_multi_stock_market,
}
use hft_demo.Orderbook.{get_best_bid, get_best_ask}
use hft_demo.Prelude.Bytes.{or_panic, index}
use hft_demo.Prelude.Text.{text}
use hft_demo.Prelude.{
  [], ◌∷◌, refl, ◌>>=◌, ◌>>◌, Build, ◌≡◌, Outcome, assert, ok, is_none, ◌==◌, length,
}

test_multi_stock_routing_isolation : Build → Outcome (Unit {0})
unfolding setup_test_market setup_multi_stock_market message index get_best_bid get_best_ask
test_multi_stock_routing_isolation b = do
  market ← setup_multi_stock_market b ((text "AAPL", 10) ∷ (text "MSFT", 20) ∷ [])
  let r : Run = (market, no_orders)
  r ← message b r b'A' 10 101 100 15000 0 b'B' (text "AAPL")
  r ← message b r b'A' 20 201 100 30000 0 b'B' (text "MSFT")
  r ← message b r b'E' 10 101 40 888 0 b' ' (text "AAPL")
  aapl ← index r.0.processors 0
  msft ← index r.0.processors 1
  aapl_bid ← or_panic (get_best_bid aapl.order_book)
  assert (aapl_bid.1 == 60)
  assert (length aapl.ticker.trades == 1)
  msft_bid ← or_panic (get_best_bid msft.order_book)
  assert (msft_bid.0 == 30000)
  assert (msft_bid.1 == 100)
  assert (length msft.ticker.trades == 0)

test_multi_stock_routing_isolation-passes :
    (b : Build) → test_multi_stock_routing_isolation b ≡ ok tt
unfolding test_multi_stock_routing_isolation
test_multi_stock_routing_isolation-passes b = refl

test_modify_order_does_not_create_trade : Build → Outcome (Unit {0})
unfolding setup_test_market setup_multi_stock_market message index get_best_bid get_best_ask
test_modify_order_does_not_create_trade b = do
  market ← setup_test_market b (text "AAPL") 10
  let r : Run = (market, no_orders)
  r ← message b r b'A' 10 100 100 5000 0 b'B' (text "AAPL")
  r ← message b r b'X' 10 100 30 0 0 b' ' (text "AAPL")
  processor ← index r.0.processors 0
  best_bid ← or_panic (get_best_bid processor.order_book)
  assert (best_bid.1 == 70)
  assert (length processor.ticker.trades == 0)
  assert (length r.0.telemetry_writer.messages == 0)

test_modify_order_does_not_create_trade-passes :
    (b : Build) → test_modify_order_does_not_create_trade b ≡ ok tt
unfolding test_modify_order_does_not_create_trade
test_modify_order_does_not_create_trade-passes b = refl

test_delete_order_removes_from_book_only : Build → Outcome (Unit {0})
unfolding setup_test_market setup_multi_stock_market message index get_best_bid get_best_ask
test_delete_order_removes_from_book_only b = do
  market ← setup_multi_stock_market b ((text "AAPL", 50) ∷ (text "MSFT", 120) ∷ [])
  let r : Run = (market, no_orders)
  r ← message b r b'A' 50 100 2500 0 0 b'B' (text "AAPL")
  r ← message b r b'D' 50 100 2500 0 0 b' ' (text "AAPL")
  p0 ← index r.0.processors 0
  assert (is_none (get_best_bid p0.order_book))
  assert (length p0.ticker.trades == 0)
  r ← message b r b'A' 120 100 2500 0 0 b'B' (text "MSFT")
  r ← message b r b'D' 120 100 2500 0 0 b' ' (text "MSFT")
  p1 ← index r.0.processors 1
  assert (is_none (get_best_bid p1.order_book))
  assert (length p1.ticker.trades == 0)

test_delete_order_removes_from_book_only-passes :
    (b : Build) → test_delete_order_removes_from_book_only b ≡ ok tt
unfolding test_delete_order_removes_from_book_only
test_delete_order_removes_from_book_only-passes b = refl
