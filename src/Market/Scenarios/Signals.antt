-- ===== src/Market/Scenarios/Signals.antt =====
-- The tests on the strategy and the risk engine behind the market.
use hft_demo.Market.Scenarios.Setup.{
  Processor, Run, no_orders, message, setup_test_market, setup_multi_stock_market, fill_each,
}
use hft_demo.Prelude.Float.{fractions}
use hft_demo.Orderbook.{get_best_bid, get_best_ask}
use hft_demo.Prelude.Bytes.{index}
use hft_demo.Prelude.Int.{pos, eq_ℤ}
use hft_demo.Prelude.Text.{text}
use hft_demo.Prelude.{
  zero, suc, none, some, [], ◌∷◌, false, refl, ◌>>=◌, ◌>>◌, Build, Outcome, Option, ℕ, ◌≡◌, ok,
  assert, set, Bool, ◌==◌, ◌+◌, ◌&&◌,
}

-- The best price and quantity of a side are the given ones.
abbrev is_quote : Option (ℕ × ℕ) → ℕ → ℕ → Bool
is_quote none price qty = false
is_quote (some (p, q)) price qty = p == price && q == qty

test_stragety_mid_price_calc : Build → Outcome (Unit {0})
unfolding setup_test_market setup_multi_stock_market message index get_best_bid get_best_ask
test_stragety_mid_price_calc b = do
  market ← setup_multi_stock_market b ((text "AAPL", 50) ∷ (text "MSFT", 120) ∷ [])
  let r : Run = (market, no_orders)
  r ← message b r b'A' 50 100 1000 80 0 b'B' (text "AAPL")
  r ← message b r b'A' 50 100 1100 90 0 b'S' (text "AAPL")
  p0 ← index r.0.processors 0
  assert (is_quote (get_best_bid p0.order_book) 80 1000)
  assert (is_quote (get_best_ask p0.order_book) 90 1100)
  assert (fractions.equal p0.strategy.mid_price (85, 1))
  r ← message b r b'A' 120 100 1000 200 0 b'B' (text "MSFT")
  r ← message b r b'A' 120 100 1100 300 0 b'S' (text "MSFT")
  p1 ← index r.0.processors 1
  assert (is_quote (get_best_bid p1.order_book) 200 1000)
  assert (is_quote (get_best_ask p1.order_book) 300 1100)
  assert (fractions.equal p1.strategy.mid_price (250, 1))

test_stragety_mid_price_calc-passes : (b : Build) → test_stragety_mid_price_calc b ≡ ok tt
unfolding test_stragety_mid_price_calc
test_stragety_mid_price_calc-passes b = refl

-- A change of the first processor, as the tests make it through `&mut market.processors[0]`.
unfoldable change_first : Run → (Processor → Outcome Processor) → Outcome Run
unfolding index
change_first (market, gateway) change = do
  p ← index market.processors 0
  p' ← change p
  ok (record market { processors = set market.processors 0 p' }, gateway)

test_strategy_lifecycle_buy_and_position_lock : Build → Outcome (Unit {0})
unfolding change_first fill_each setup_test_market setup_multi_stock_market message index
    get_best_bid get_best_ask
test_strategy_lifecycle_buy_and_position_lock b = do
  market ← setup_multi_stock_market b ((text "AAPL", 10) ∷ (text "MSFT", 120) ∷ [])
  let r : Run = (market, no_orders)
  r ←
      change_first r
        (λ p. ok (record p { strategy = record p.strategy { mid_price = (14990, 1) } }))
  r ← message b r b'A' 10 101 10000 15000 0 b'B' (text "AAPL")
  r ← message b r b'A' 10 102 100 15010 0 b'S' (text "AAPL")
  r ← change_first r (λ p. fill_each b 15010 p.order_tracker p)
  processor ← index r.0.processors 0
  assert (eq_ℤ processor.strategy.position (pos 100))
  assert (processor.strategy.trade_count == 1)
  r ← message b r b'A' 10 103 100 15010 0 b'S' (text "AAPL")
  processor_after ← index r.0.processors 0
  assert (processor_after.strategy.trade_count == 1)
  assert (eq_ℤ processor_after.strategy.position (pos 100))

test_strategy_lifecycle_buy_and_position_lock-passes :
    (b : Build) → test_strategy_lifecycle_buy_and_position_lock b ≡ ok tt
unfolding test_strategy_lifecycle_buy_and_position_lock
test_strategy_lifecycle_buy_and_position_lock-passes b = refl

-- The rounds of the saturation test, from the `i`-th on.
rounds : Build → (n i : ℕ) → Run → Outcome Run
unfolding message change_first fill_each
rounds b zero i r = ok r
rounds b (suc n) i r = do
  r ← message b r b'A' 1 (200 + i) 9000 (15000 + i) 0 b'B' (text "AAPL")
  r ← change_first r (λ p. fill_each b 15000 p.order_tracker p)
  rounds b n (i + 1) r

test_market_handler_risk_saturation_full_itch : Build → Outcome (Unit {0})
unfolding change_first fill_each rounds setup_test_market setup_multi_stock_market message index
    get_best_bid get_best_ask
test_market_handler_risk_saturation_full_itch b = do
  market ← setup_test_market b (text "AAPL") 1
  let r : Run = (market, no_orders)
  r ← change_first r (λ p.
      ok (record p { risk_engine = record p.risk_engine { max_absolute_position = pos 5000 } }))
  r ← message b r b'A' 1 100 1000 15100 0 b'S' (text "AAPL")
  r ← rounds b 51 1 r
  processor ← index r.0.processors 0
  assert (eq_ℤ processor.risk_engine.current_position (pos 5000))
  assert (eq_ℤ processor.strategy.position (pos 5000))

test_market_handler_risk_saturation_full_itch-passes :
    (b : Build) → test_market_handler_risk_saturation_full_itch b ≡ ok tt
unfolding test_market_handler_risk_saturation_full_itch
test_market_handler_risk_saturation_full_itch-passes b = refl
