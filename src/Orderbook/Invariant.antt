-- ===== src/Orderbook/Invariant.antt =====
-- The levels of a book and the sums of its orders: the invariant of the book.
use hft_demo.Prelude.{ℕ, ◌+◌, ◌<◌, ◌≡◌, refl, none, [], arith, Build, ok}
use hft_demo.Prelude.Map.{lookup, insert, IsSorted, insert-IsSorted}
use hft_demo.Prelude.Word.{u32_mod}
use hft_demo.Common.{Side}
use hft_demo.Orderbook.{Order, L3OrderBook, new_book, levels, or_zero, add_order}
use hft_demo.Orderbook.Levels.{total, AllLive, total-insert_new, insert-AllLive}
use hft_demo.Orderbook.Sides.{SideWellFormed, SideWellFormed-same, SideWellFormed-add}

-- The level of a side and price, zero where there is none.
abbrev pub level : Side → ℕ → L3OrderBook → ℕ
level s p book = or_zero (lookup p (levels s book))

-- Ids and prices are sorted, resting orders have shares left, and on both sides the levels are the
-- sums of the orders, none of them empty.
pub record WellFormed (book : L3OrderBook) : Type 0 where
  pub orders_sorted : IsSorted book.orders
  pub live : AllLive book.orders
  pub buy_side : SideWellFormed Side.buy book.orders book.bids
  pub sell_side : SideWellFormed Side.sell book.orders book.asks

no_orders : (s : Side) → SideWellFormed s [] []
unfolding lookup total
no_orders s = record { sorted = tt; sums = λ p. refl; full = λ p e. cc }

pub new_book-WellFormed : WellFormed new_book
new_book-WellFormed = record {
  orders_sorted = tt;
  live = tt;
  buy_side = no_orders Side.buy;
  sell_side = no_orders Side.sell;
}

-- Adding an order of a fresh id and at least one share, to a level that stays within u32, succeeds
-- in both builds and keeps the book well formed.
pub add_order-WellFormed :
    (b : Build) (book : L3OrderBook) (id : ℕ) (s : Side) (price quantity : ℕ)
    → WellFormed book
    → lookup id book.orders ≡ none
    → 0 < quantity
    → level s price book + quantity < u32_mod
    → (book' : L3OrderBook) × (add_order b book id s price quantity ≡ ok book') × WellFormed book'
unfolding add_order
add_order-WellFormed b book id Side.buy price quantity w fresh more fits = (
  record {
    orders = insert id order book.orders;
    bids = insert price (or_zero (lookup price book.bids) + quantity) book.bids;
    asks = book.asks;
  },
  ground arith,
  record {
    orders_sorted = insert-IsSorted id order book.orders w.orders_sorted;
    live = insert-AllLive id order book.orders more w.live;
    buy_side =
        SideWellFormed-add Side.buy book.orders _ book.bids w.buy_side price quantity more
          (λ p. ground (arith, total-insert_new Side.buy p id order book.orders fresh));
    sell_side =
        SideWellFormed-same Side.sell book.orders _ book.asks w.sell_side
          (λ p. ground (arith, total-insert_new Side.sell p id order book.orders fresh));
  },
)
  where
    order : Order
    order = record { price = price; quantity = quantity; side = Side.buy }
add_order-WellFormed b book id Side.sell price quantity w fresh more fits = (
  record {
    orders = insert id order book.orders;
    bids = book.bids;
    asks = insert price (or_zero (lookup price book.asks) + quantity) book.asks;
  },
  ground arith,
  record {
    orders_sorted = insert-IsSorted id order book.orders w.orders_sorted;
    live = insert-AllLive id order book.orders more w.live;
    buy_side =
        SideWellFormed-same Side.buy book.orders _ book.bids w.buy_side
          (λ p. ground (arith, total-insert_new Side.buy p id order book.orders fresh));
    sell_side =
        SideWellFormed-add Side.sell book.orders _ book.asks w.sell_side price quantity more
          (λ p. ground (arith, total-insert_new Side.sell p id order book.orders fresh));
  },
)
  where
    order : Order
    order = record { price = price; quantity = quantity; side = Side.sell }
