-- ===== src/Strategies/Tests.antt =====
-- Runs of the strategy.
use hft_demo.Strategies.Position.{Reached, started, sends, fills, Reached-capped}
use hft_demo.Strategies.Orders.{Answer, after_order, on_book_update-some}
use hft_demo.Prelude.Int.{pos, ◌≤ℤ◌, ◌+ℤ◌}
use hft_demo.Prelude.Float.{fractions}
use hft_demo.Strategies.{on_book_update, SimpleMidPoint, new_mid_point, on_trade}
use hft_demo.Common.{OrderCommand, OrderSide, buyer}
use hft_demo.Prelude.{refl, ◌≡◌, debug, some, ok, none, arith, ◌↔◌, [], false}

abbrev start : SimpleMidPoint fractions
start = new_mid_point fractions (8, 10)

-- The state after it sent an order to buy at 102.
abbrev bought : SimpleMidPoint fractions
bought = record start { mid_price = (202, 2); next_order_id = 2 }

abbrev first_order : OrderCommand
first_order = record {
  symbol_locate = 0;
  order_id = 1;
  price = 102;
  quantity = 100;
  side = OrderSide.buy;
}

first_update :
    on_book_update fractions debug start (some (100, 90)) (some (102, 10))
    ≡ ok (bought, some first_order)
unfolding on_book_update
first_update = refl

on_book_update-some_example :
    (on_book_update fractions debug start (some (100, 90)) (some (102, 10))
      ≡ ok (bought, some first_order))
    ↔ ((false ≡ false)
        × (bought ≡ after_order fractions start (202, 2))
        × Answer fractions start (202, 2) (90, 100) 100 102 first_order)
on_book_update-some_example =
    on_book_update-some fractions debug start bought 100 90 102 10 first_order (omega arith)
      (omega arith) (omega arith)

-- The state after the fill of that order.
abbrev filled : SimpleMidPoint fractions
filled = record bought { trade_count = 1; position = pos 100 }

first_fill : on_trade fractions debug bought 102 100 buyer ≡ ok (filled, none)
unfolding on_trade ◌+ℤ◌
first_fill = refl

filled-Reached : Reached fractions debug 1 [] filled
filled-Reached =
    fills OrderSide.buy [] bought filled 102
      (sends [] start bought (some (100, 90)) (some (102, 10)) first_order (started (8, 10))
        (omega arith) first_update)
      first_fill

Reached-capped_example : (pos 0 ≤ℤ filled.position +ℤ pos 5099) × (filled.position ≤ℤ pos 5100)
Reached-capped_example = Reached-capped fractions debug 1 [] filled (omega arith) filled-Reached
