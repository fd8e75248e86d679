-- ===== src/Replay/Pnl.antt =====
-- `print_final_pnl`: the amounts in dollars that the replay prints at its end. Prices and cash are in
-- hundredths of a cent.
use hft_demo.Prelude.Map.{lookup}
use hft_demo.Prelude.{
  [], Build, ℕ, List, Outcome, ◌∷◌, suc, ◌>>=◌, ok, map, length, ◌≡◌, refl, ◌>>◌, assert, ◌==◌,
}
use hft_demo.Prelude.Int.{◌+ℤ◌, pos, ℤ, negsuc}
use hft_demo.Prelude.Float.{FloatOps, fractions}
use hft_demo.Replay.Gateway.{ReplayGateway, total_cash, inventory, sum_cash}

-- `as f64` of a signed integer.
abbrev of_int : (f : FloatOps) → ℤ → f.Float
of_int f (pos n) = f.of_nat n
of_int f (negsuc n) = f.sub (f.of_nat 0) (f.of_nat (suc n))

module _ (f : FloatOps) where
  -- A stock that was traded: its locate, its shares, the last price and what they are worth.
  record Holding : Type 0 where
    locate : ℕ
    shares : ℤ
    market_price : f.Float
    pos_value : f.Float

  record FinalPnl : Type 0 where
    cash_dollars : f.Float
    holdings : List Holding
    inventory_value : f.Float
    total_equity : f.Float

  abbrev holding : ℕ × ℤ × ℕ → Holding
  holding (locate, position, price) =
      let market_price = f.div (f.of_nat price) (f.of_nat 10000) in
      record {
        locate = locate;
        shares = position;
        market_price = market_price;
        pos_value = f.mul (of_int f position) market_price;
      }

  -- `inventory_value += pos_value`, in the order of the stocks.
  abbrev add_values : f.Float → List Holding → f.Float
  add_values inventory_value [] = inventory_value
  add_values inventory_value (h ∷ hs) = add_values (f.add inventory_value h.pos_value) hs

  unfoldable print_final_pnl : Build → ReplayGateway → Outcome FinalPnl
  unfolding total_cash inventory
  print_final_pnl b g = do
    total ← total_cash b g
    let cash_dollars = f.div (of_int f total) (f.of_nat 10000)
    let holdings = map holding (inventory g.positions g.last_prices)
    let inventory_value = add_values (f.of_nat 0) holdings
    ok (record {
      cash_dollars = cash_dollars;
      holdings = holdings;
      inventory_value = inventory_value;
      total_equity = f.add cash_dollars inventory_value;
    })

-- Cash from two stocks, of which one has a price and shares.
abbrev traded : ReplayGateway
traded = record {
  pending_fills = [];
  cash_balances = (3, pos 50000) ∷ (5, pos 20000) ∷ [];
  positions = (3, pos 20) ∷ (5, pos 7) ∷ [];
  last_prices = (3, 30000) ∷ [];
}

traded_equity : Build → Outcome (Unit {0})
unfolding print_final_pnl
traded_equity b = do
  pnl ← print_final_pnl fractions b traded
  assert (length pnl.holdings == 1)
  assert (fractions.equal pnl.total_equity (67, 1))

traded_equity-passes : (b : Build) → traded_equity b ≡ ok tt
unfolding traded_equity print_final_pnl total_cash inventory sum_cash ◌+ℤ◌ lookup
traded_equity-passes b = refl
