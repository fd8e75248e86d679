-- ===== src/Orderbook/Tests.antt =====
-- Runs of the book.
use hft_demo.Orderbook.Best.{get_best_bid-ge, spread-eq}
use hft_demo.Orderbook.Undo.{cancel_order-add_order}
use hft_demo.Orderbook.Faults.{add_order-duplicate, cancel_order-excess}
use hft_demo.Orderbook.Cancel.{cancelled, cancel_order-WellFormed}
use hft_demo.Prelude.Word.{u32_mod}
use hft_demo.Orderbook.Invariant.{WellFormed, add_order-WellFormed}
use hft_demo.Orderbook.Levels.{total}
use hft_demo.Common.{Side}
use hft_demo.Prelude.Map.{lookup}
use hft_demo.Orderbook.{
  get_best_bid, cancel_order, Order, L3OrderBook, spread, Side, add_order, some, ok, [], u32_mod,
  get_best_ask,
}
use hft_demo.Prelude.{
  ℕ, ◌∷◌, ◌≡◌, debug, some, ok, release, [], panic, ◌>>=◌, ◌≤◌, arith, ◌-◌, refl,
}

abbrev buy_order : Order
buy_order = record { price = 100; quantity = 10; side = Side.buy }

abbrev sell_order : Order
sell_order = record { price = 105; quantity = 4; side = Side.sell }

-- An order on each side.
abbrev two_orders : L3OrderBook
two_orders = record {
  orders = (7, buy_order) ∷ (9, sell_order) ∷ [];
  bids = (100, 10) ∷ [];
  asks = (105, 4) ∷ [];
}

two_orders-WellFormed : WellFormed two_orders
unfolding lookup total
two_orders-WellFormed = record {
  orders_sorted = (ground arith, tt);
  live = (ground arith, (ground arith, tt));
  buy_side = record { sorted = tt; sums = λ p. ground arith; full = λ p. ground arith };
  sell_side = record { sorted = tt; sums = λ p. ground arith; full = λ p. ground arith };
}

add_order-WellFormed_example :
    (book : L3OrderBook) × (add_order debug two_orders 8 Side.buy 101 5 ≡ ok book) × WellFormed book
add_order-WellFormed_example =
    add_order-WellFormed debug two_orders 8 Side.buy 101 5 two_orders-WellFormed
      (unfold lookup in ground arith) (omega arith) (unfold lookup in ground arith)

cancel_order-WellFormed_example :
    (book : L3OrderBook) × (cancel_order debug two_orders 7 4 ≡ ok book)
    × WellFormed book
    × (book.orders ≡ cancelled 7 4 buy_order two_orders.orders)
cancel_order-WellFormed_example =
    cancel_order-WellFormed debug two_orders 7 4 buy_order two_orders-WellFormed
      (unfold lookup in ground arith) (omega arith)

get_best_bid-ge_example :
    (p : ℕ) × (q : ℕ) × (get_best_bid two_orders ≡ some (p, q))
    × (q ≡ total Side.buy p two_orders.orders)
    × (100 ≤ p)
get_best_bid-ge_example =
    get_best_bid-ge two_orders two_orders-WellFormed 7 buy_order (unfold lookup in ground arith)
      refl

spread-eq_example :
    (bid : ℕ) × (bid_qty : ℕ) × (ask : ℕ) × (ask_qty : ℕ) × (get_best_bid two_orders
      ≡ some (bid, bid_qty))
    × (get_best_ask two_orders ≡ some (ask, ask_qty))
    × (100 ≤ bid)
    × (ask ≤ 105)
    × (spread two_orders ≡ some (ask - bid))
spread-eq_example =
    spread-eq two_orders 7 9 buy_order sell_order two_orders-WellFormed
      (unfold lookup in ground arith) (unfold lookup in ground arith) refl refl

cancel_order-add_order_example :
    (add_order release two_orders 8 Side.sell 105 6 >>= λ book. cancel_order release book 8 6)
    ≡ ok two_orders
cancel_order-add_order_example =
    cancel_order-add_order release two_orders 8 Side.sell 105 6 two_orders-WellFormed
      (unfold lookup in ground arith) (unfold lookup in ground arith)

add_order-duplicate_example :
    (book : L3OrderBook) × (add_order debug two_orders 7 Side.buy 99 1 ≡ ok book)
    × ¬ WellFormed book
add_order-duplicate_example =
    add_order-duplicate debug two_orders 7 Side.buy 99 1 buy_order two_orders-WellFormed
      (unfold lookup in ground arith) (unfold lookup in ground arith)

cancel_order-excess_example :
    (cancel_order debug two_orders 9 5 ≡ panic)
    × ((book : L3OrderBook) × (cancel_order release two_orders 9 5 ≡ ok book)
        × (lookup 9 book.orders ≡ some (record sell_order { quantity = u32_mod - (5 - 4) })))
cancel_order-excess_example =
    cancel_order-excess two_orders 9 5 sell_order (unfold lookup in ground arith) (omega arith)
      (omega arith)
