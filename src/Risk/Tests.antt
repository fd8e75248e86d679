-- ===== src/Risk/Tests.antt =====
-- Runs of the risk check.
use hft_demo.Prelude.Int.{int_laws, pos}
use hft_demo.Prelude.Float.{fractions}
use hft_demo.Risk.Position.{IsSafe, Leaves, check-IsSafe}
use hft_demo.Risk.{check, LocalRisk, new_risk, RiskDecision}
use hft_demo.Common.{OrderCommand, OrderSide}
use hft_demo.Prelude.{some, release, ◌≡◌, none, ok}

abbrev engine : LocalRisk fractions
engine = new_risk fractions 1000 (2, 100) (pos 3500)

engine-IsSafe : IsSafe fractions engine
engine-IsSafe = record {
  limited = omega int_laws;
  limited_short = omega int_laws;
  no_overflow = omega int_laws;
}

-- An order to buy in the band.
abbrev order_to_buy : OrderCommand
order_to_buy = record {
  symbol_locate = 1;
  order_id = 4;
  price = 101;
  quantity = 100;
  side = OrderSide.buy;
}

check-IsSafe_example :
    (r : LocalRisk fractions) × (d : RiskDecision) × (check fractions release engine order_to_buy
        none
        (some (90, 5))
      ≡ ok (r, d))
    × Leaves fractions engine r d
check-IsSafe_example =
    check-IsSafe fractions release engine order_to_buy none (some (90, 5)) engine-IsSafe
