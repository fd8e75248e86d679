-- ===== src/Orderbook/Faults.antt =====
-- What the book does outside the conditions of its invariant: an id in use, too large a cancellation.
use hft_demo.Prelude.{
  ℕ, ◌+◌, ◌-◌, ◌<◌, ◌≡◌, refl, some, arith, ◌==◌, leb, ==_iff, if◌then◌else◌, Build, debug, release,
  ok, panic, Option-cases, inl, inr,
}
use hft_demo.Prelude.Map.{Map, lookup, insert, remove, lookup-insert}
use hft_demo.Prelude.Word.{u32_mod}
use hft_demo.Common.{Side}
use hft_demo.Orderbook.{
  Order, L3OrderBook, or_zero, add_order, cancel_order, cancel_found, reduce_level,
}
use hft_demo.Orderbook.Levels.{total-insert, lookup-AllLive}
use hft_demo.Orderbook.Invariant.{WellFormed, level}

-- Adding an order under an id in use replaces the order, and leaves its shares in the level: the
-- levels are no longer the sums of the orders.
pub add_order-duplicate :
    (b : Build) (book : L3OrderBook) (id : ℕ) (s : Side) (price quantity : ℕ) (old : Order)
    → WellFormed book
    → lookup id book.orders ≡ some old
    → level s price book + quantity < u32_mod
    → (book' : L3OrderBook) × (add_order b book id s price quantity ≡ ok book') × ¬ WellFormed book'
unfolding add_order
add_order-duplicate b book id Side.buy price quantity old w e fits = (
  record {
    orders = insert id o book.orders;
    bids = insert price (or_zero (lookup price book.bids) + quantity) book.bids;
    asks = book.asks;
  },
  ground arith,
  λ w'. ground (
    arith,
    w'.buy_side.sums old.price,
    w'.sell_side.sums old.price,
    w.buy_side.sums old.price,
    w.sell_side.sums old.price,
    w.buy_side.sums price,
    lookup-insert old.price price (or_zero (lookup price book.bids) + quantity) book.bids,
    total-insert Side.buy old.price id o old book.orders w.orders_sorted e,
    total-insert Side.sell old.price id o old book.orders w.orders_sorted e,
    lookup-AllLive id old book.orders w.live e,
    ==_iff old.price old.price,
  ),
)
  where
    o : Order
    o = record { price = price; quantity = quantity; side = Side.buy }
add_order-duplicate b book id Side.sell price quantity old w e fits = (
  record {
    orders = insert id o book.orders;
    bids = book.bids;
    asks = insert price (or_zero (lookup price book.asks) + quantity) book.asks;
  },
  ground arith,
  λ w'. ground (
    arith,
    w'.buy_side.sums old.price,
    w'.sell_side.sums old.price,
    w.buy_side.sums old.price,
    w.sell_side.sums old.price,
    w.sell_side.sums price,
    lookup-insert old.price price (or_zero (lookup price book.asks) + quantity) book.asks,
    total-insert Side.buy old.price id o old book.orders w.orders_sorted e,
    total-insert Side.sell old.price id o old book.orders w.orders_sorted e,
    lookup-AllLive id old book.orders w.live e,
    ==_iff old.price old.price,
  ),
)
  where
    o : Order
    o = record { price = price; quantity = quantity; side = Side.sell }

reduce_level-release :
    (price quantity : ℕ) (m : Map ℕ)
    → (m' : Map ℕ) × (reduce_level release price quantity m (lookup price m) ≡ ok m')
unfolding reduce_level
reduce_level-release price quantity m = elim (Option-cases (lookup price m)) [
  | inl e ↦ (m, rw e)
  | inr (t, e) ↦
      let left : ℕ = if leb quantity t then t - quantity else t + u32_mod - quantity in
      (
        (if left == 0 then remove price (insert price left m) else insert price left m),
        rw (e, reduce_level) (ground arith),
      )
]

module _ (book : L3OrderBook) (id quantity : ℕ) (o : Order) (more : o.quantity < quantity)
    (fits : quantity < u32_mod) where
  excess_found :
      (s : Side)
      → o.side ≡ s
      → (cancel_found debug book id quantity (some o) ≡ panic)
        × ((book' : L3OrderBook) × (cancel_found release book id quantity (some o) ≡ ok book')
            × (lookup id book'.orders
                ≡ some (record o { quantity = u32_mod - (quantity - o.quantity) })))
  unfolding cancel_found
  excess_found Side.buy es =
      let (m, r) = reduce_level-release o.price quantity book.bids in
      let x : Order = record o { quantity = o.quantity + u32_mod - quantity } in
      (
        ground arith,
        (
          record { orders = insert id x book.orders; bids = m; asks = book.asks },
          ground arith,
          ground (arith, lookup-insert id id x book.orders, ==_iff id id),
        ),
      )
  excess_found Side.sell es =
      let (m, r) = reduce_level-release o.price quantity book.asks in
      let x : Order = record o { quantity = o.quantity + u32_mod - quantity } in
      (
        ground arith,
        (
          record { orders = insert id x book.orders; bids = book.bids; asks = m },
          ground arith,
          ground (arith, lookup-insert id id x book.orders, ==_iff id id),
        ),
      )

-- A cancellation of more than the order has, within u32, panics in a debug build; in a release build it succeeds
-- and leaves the order with 2^32 shares less the excess.
pub cancel_order-excess :
    (book : L3OrderBook) (id quantity : ℕ) (o : Order)
    → lookup id book.orders ≡ some o
    → o.quantity < quantity
    → quantity < u32_mod
    → (cancel_order debug book id quantity ≡ panic)
      × ((book' : L3OrderBook) × (cancel_order release book id quantity ≡ ok book')
          × (lookup id book'.orders
              ≡ some (record o { quantity = u32_mod - (quantity - o.quantity) })))
unfolding cancel_order
cancel_order-excess book id quantity o e more fits =
    rw (e, cancel_order) (excess_found book id quantity o more fits o.side refl)
