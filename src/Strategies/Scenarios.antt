-- ===== src/Strategies/Scenarios.antt =====
-- The unit tests of crates/strategies/src/lib.rs, on fractions for floats: each is a run of its
-- body.
use hft_demo.Common.{OrderSide}
use hft_demo.Strategies.{SimpleMidPoint, new_mid_point, on_book_update}
use hft_demo.Prelude.Bytes.{or_panic}
use hft_demo.Prelude.Float.{fractions}
use hft_demo.Prelude.Int.{pos}
use hft_demo.Prelude.{
  some, true, false, not, refl, ◌>>=◌, ◌>>◌, Bool, Build, Outcome, ◌≡◌, ok, assert, is_none, ◌==◌,
}

abbrev is_buy : OrderSide → Bool
is_buy OrderSide.buy = true
is_buy OrderSide.sell = false

abbrev fresh : SimpleMidPoint fractions
fresh = new_mid_point fractions (8, 10)

test_buy_trigger_on_imbalance : Build → Outcome (Unit {0})
unfolding on_book_update
test_buy_trigger_on_imbalance b = do
  let strategy : SimpleMidPoint fractions = record fresh { mid_price = (14990, 1) }
  (strategy, result) ← on_book_update fractions b strategy (some (15000, 10000)) (some (15010, 100))
  order ← or_panic result
  assert (is_buy order.side)
  assert (order.price == 15010)

test_buy_trigger_on_imbalance-passes : (b : Build) → test_buy_trigger_on_imbalance b ≡ ok tt
unfolding test_buy_trigger_on_imbalance
test_buy_trigger_on_imbalance-passes b = refl

test_position_limit_prevents_overbuy : Build → Outcome (Unit {0})
unfolding on_book_update
test_position_limit_prevents_overbuy b = do
  let strategy : SimpleMidPoint fractions = record fresh { position = pos 5100 }
  (strategy, result) ← on_book_update fractions b strategy (some (15000, 10000)) (some (15010, 100))
  assert (is_none result)

test_position_limit_prevents_overbuy-passes :
    (b : Build) → test_position_limit_prevents_overbuy b ≡ ok tt
unfolding test_position_limit_prevents_overbuy
test_position_limit_prevents_overbuy-passes b = refl

test_zero_volume_safety : Build → Outcome (Unit {0})
unfolding on_book_update
test_zero_volume_safety b = do
  let strategy : SimpleMidPoint fractions = fresh
  (strategy, result) ← on_book_update fractions b strategy (some (15000, 0)) (some (15010, 0))
  assert (is_none result)

test_zero_volume_safety-passes : (b : Build) → test_zero_volume_safety b ≡ ok tt
unfolding test_zero_volume_safety
test_zero_volume_safety-passes b = refl

test_short_trigger_on_sell_imbalance : Build → Outcome (Unit {0})
unfolding on_book_update
test_short_trigger_on_sell_imbalance b = do
  let strategy : SimpleMidPoint fractions = record fresh { mid_price = (15005, 1) }
  (strategy, result) ← on_book_update fractions b strategy (some (14990, 100)) (some (15000, 10000))
  assert (not (is_none result))
  order ← or_panic result
  assert (not (is_buy order.side))
  assert (order.price == 14990)

test_short_trigger_on_sell_imbalance-passes :
    (b : Build) → test_short_trigger_on_sell_imbalance b ≡ ok tt
unfolding test_short_trigger_on_sell_imbalance
test_short_trigger_on_sell_imbalance-passes b = refl

test_neutral_market_does_nothing : Build → Outcome (Unit {0})
unfolding on_book_update
test_neutral_market_does_nothing b = do
  let strategy : SimpleMidPoint fractions = record fresh { mid_price = (14000, 1) }
  (strategy, result) ← on_book_update fractions b strategy (some (15000, 5000)) (some (15010, 5000))
  assert (is_none result)

test_neutral_market_does_nothing-passes : (b : Build) → test_neutral_market_does_nothing b ≡ ok tt
unfolding test_neutral_market_does_nothing
test_neutral_market_does_nothing-passes b = refl
