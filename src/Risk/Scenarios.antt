-- ===== src/Risk/Scenarios.antt =====
-- The unit tests of crates/risk-engine/src/lib.rs, on fractions for floats: each is a run of its
-- body.
use hft_demo.Common.{OrderCommand, OrderSide}
use hft_demo.Risk.{LocalRisk, RiskDecision, pass, fail, check, new_risk, message, outside_band}
use hft_demo.Prelude.Float.{fractions}
use hft_demo.Prelude.Int.{pos, negsuc, ◌+ℤ◌, ◌-ℤ◌, eq_ℤ}
use hft_demo.Prelude.Text.{Text, text, has_text}
use hft_demo.Prelude.{none, some, refl, ◌>>=◌, ◌>>◌, ℕ, Outcome, Build, assert, ok, ◌≡◌, panic}

abbrev setup_risk : LocalRisk fractions
setup_risk = new_risk fractions 1000 (10, 100) (pos 2000)

abbrev order : (order_id price quantity : ℕ) → OrderSide → OrderCommand
order order_id price quantity side = record {
  symbol_locate = 10;
  order_id = order_id;
  price = price;
  quantity = quantity;
  side = side;
}

-- The decision is a failure with a message that contains a text, or it is a pass.
abbrev fails_with : Text → RiskDecision → Outcome (Unit {0})
unfolding message has_text
fails_with part (fail reason) = assert (has_text part (message reason))
fails_with part pass = panic

abbrev passes : RiskDecision → Outcome (Unit {0})
passes pass = ok tt
passes (fail reason) = panic

test_max_qty_breach : Build → Outcome (Unit {0})
unfolding check outside_band fails_with ◌+ℤ◌ ◌-ℤ◌
test_max_qty_breach b = do
  (risk, decision) ← check fractions b setup_risk (order 1 15000 1500 OrderSide.buy) none none
  fails_with (text "exceeds limit") decision

test_max_qty_breach-passes : (b : Build) → test_max_qty_breach b ≡ ok tt
unfolding test_max_qty_breach
test_max_qty_breach-passes b = refl

test_position_projection_long_breach : Build → Outcome (Unit {0})
unfolding check outside_band fails_with ◌+ℤ◌ ◌-ℤ◌
test_position_projection_long_breach b = do
  let risk : LocalRisk fractions = record setup_risk { current_position = pos 1500 }
  (risk, decision) ← check fractions b risk (order 2 15000 600 OrderSide.buy) none none
  fails_with (text "exceeds limit") decision

test_position_projection_long_breach-passes :
    (b : Build) → test_position_projection_long_breach b ≡ ok tt
unfolding test_position_projection_long_breach
test_position_projection_long_breach-passes b = refl

test_position_projection_short_breach : Build → Outcome (Unit {0})
unfolding check outside_band fails_with ◌+ℤ◌ ◌-ℤ◌
test_position_projection_short_breach b = do
  let risk : LocalRisk fractions = record setup_risk { current_position = negsuc 1799 }
  (risk, decision) ← check fractions b risk (order 3 15000 300 OrderSide.sell) none none
  fails_with (text "exceeds limit") decision

test_position_projection_short_breach-passes :
    (b : Build) → test_position_projection_short_breach b ≡ ok tt
unfolding test_position_projection_short_breach
test_position_projection_short_breach-passes b = refl

test_buy_price_band_breach : Build → Outcome (Unit {0})
unfolding check outside_band fails_with ◌+ℤ◌ ◌-ℤ◌
test_buy_price_band_breach b = do
  (risk, decision) ←
      check fractions b setup_risk (order 4 11500 100 OrderSide.buy) none (some (10000, 100))
  fails_with (text "too far above") decision

test_buy_price_band_breach-passes : (b : Build) → test_buy_price_band_breach b ≡ ok tt
unfolding test_buy_price_band_breach
test_buy_price_band_breach-passes b = refl

test_successful_pass_updates_position : Build → Outcome (Unit {0})
unfolding check outside_band fails_with ◌+ℤ◌ ◌-ℤ◌
test_successful_pass_updates_position b = do
  assert (eq_ℤ setup_risk.current_position (pos 0))
  (risk, decision) ←
      check fractions b setup_risk (order 5 10000 500 OrderSide.buy) none (some (10000, 100))
  passes decision
  assert (eq_ℤ risk.current_position (pos 500))

test_successful_pass_updates_position-passes :
    (b : Build) → test_successful_pass_updates_position b ≡ ok tt
unfolding test_successful_pass_updates_position
test_successful_pass_updates_position-passes b = refl

test_sell_price_band_breach : Build → Outcome (Unit {0})
unfolding check outside_band fails_with ◌+ℤ◌ ◌-ℤ◌
test_sell_price_band_breach b = do
  let risk : LocalRisk fractions = new_risk fractions 1000 (10, 100) (pos 5000)
  (risk, decision) ←
      check fractions b risk (order 10 8500 100 OrderSide.sell) (some (10000, 500)) none
  fails_with (text "Sell price too far below") decision
  (risk, decision) ←
      check fractions b risk (order 11 9500 100 OrderSide.sell) (some (10000, 500)) none
  passes decision

test_sell_price_band_breach-passes : (b : Build) → test_sell_price_band_breach b ≡ ok tt
unfolding test_sell_price_band_breach
test_sell_price_band_breach-passes b = refl
