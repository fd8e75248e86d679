-- ===== src/Orderbook/Scenarios.antt =====
-- The unit tests of crates/orderbook/src/lib.rs: each is a run of its body.
use hft_demo.Orderbook
use hft_demo.Orderbook.{
  L3OrderBook, new_book, cancel_order, get_best_bid, get_best_ask, spread, ℕ, Build, Outcome, ok,
}
use hft_demo.Common.{Side}
use hft_demo.Prelude.Bytes.{or_panic}
use hft_demo.Prelude.Map.{lookup, insert, remove, first, last}
use hft_demo.Prelude.{not, refl, ◌>>=◌, ◌>>◌, Build, ℕ, Outcome, ◌≡◌, ok, assert, is_none, ◌==◌}

-- `*book.bids.get(&price).unwrap()` and `book.orders.get(&id).unwrap().quantity`.
abbrev level : L3OrderBook → ℕ → Outcome ℕ
level book price = or_panic (lookup price book.bids)

abbrev quantity_of : L3OrderBook → ℕ → Outcome ℕ
quantity_of book id = do order ← or_panic (lookup id book.orders); ok order.quantity

test_add_order_and_aggreation : Build → Outcome (Unit {0})
unfolding Orderbook.add_order cancel_order lookup insert
test_add_order_and_aggreation b = do
  let book : L3OrderBook = new_book
  book ← Orderbook.add_order b book 101 Side.buy 150 10
  order ← or_panic (lookup 101 book.orders)
  assert (order.quantity == 10)
  assert (order.price == 150)
  total ← level book 150
  assert (total == 10)
  book ← Orderbook.add_order b book 102 Side.buy 150 20
  total ← level book 150
  assert (total == 30)
  q1 ← quantity_of book 101
  assert (q1 == 10)
  q2 ← quantity_of book 102
  assert (q2 == 20)

test_add_order_and_aggreation-passes : (b : Build) → test_add_order_and_aggreation b ≡ ok tt
unfolding test_add_order_and_aggreation
test_add_order_and_aggreation-passes b = refl

test_partial_cancel : Build → Outcome (Unit {0})
unfolding Orderbook.add_order cancel_order lookup insert
test_partial_cancel b = do
  let book : L3OrderBook = new_book
  book ← Orderbook.add_order b book 101 Side.buy 150 50
  book ← cancel_order b book 101 25
  total ← level book 150
  assert (total == 25)
  q ← quantity_of book 101
  assert (q == 25)

test_partial_cancel-passes : (b : Build) → test_partial_cancel b ≡ ok tt
unfolding test_partial_cancel
test_partial_cancel-passes b = refl

test_full_cancel : Build → Outcome (Unit {0})
unfolding Orderbook.add_order cancel_order lookup insert
test_full_cancel b = do
  let book : L3OrderBook = new_book
  book ← Orderbook.add_order b book 101 Side.buy 150 50
  book ← cancel_order b book 101 50
  assert (is_none (lookup 150 book.bids))
  assert (is_none (lookup 101 book.orders))

test_full_cancel-passes : (b : Build) → test_full_cancel b ≡ ok tt
unfolding test_full_cancel remove
test_full_cancel-passes b = refl

test_mixed_cleanup : Build → Outcome (Unit {0})
unfolding Orderbook.add_order cancel_order lookup insert
test_mixed_cleanup b = do
  let book : L3OrderBook = new_book
  book ← Orderbook.add_order b book 101 Side.buy 150 50
  book ← Orderbook.add_order b book 102 Side.buy 150 25
  total ← level book 150
  assert (total == 75)
  book ← cancel_order b book 101 50
  assert (is_none (lookup 101 book.orders))
  assert (not (is_none (lookup 102 book.orders)))
  left ← level book 150
  assert (left == 25)

test_mixed_cleanup-passes : (b : Build) → test_mixed_cleanup b ≡ ok tt
unfolding test_mixed_cleanup remove
test_mixed_cleanup-passes b = refl

test_best_ask_bid_spread : Build → Outcome (Unit {0})
unfolding Orderbook.add_order lookup insert get_best_bid get_best_ask spread first last
test_best_ask_bid_spread b = do
  let book : L3OrderBook = new_book
  book ← Orderbook.add_order b book 101 Side.buy 100 50
  book ← Orderbook.add_order b book 102 Side.buy 105 25
  book ← Orderbook.add_order b book 103 Side.buy 95 33
  book ← Orderbook.add_order b book 104 Side.sell 110 21
  book ← Orderbook.add_order b book 105 Side.sell 160 25
  book ← Orderbook.add_order b book 106 Side.sell 225 25
  bid ← or_panic (get_best_bid book)
  assert (bid.0 == 105)
  ask ← or_panic (get_best_ask book)
  assert (ask.0 == 110)
  gap ← or_panic (spread book)
  assert (gap == 5)

test_best_ask_bid_spread-passes : (b : Build) → test_best_ask_bid_spread b ≡ ok tt
unfolding test_best_ask_bid_spread
test_best_ask_bid_spread-passes b = refl
