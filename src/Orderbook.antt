-- ===== src/Orderbook.antt =====
-- crates/orderbook/src/lib.rs: the book of one stock, its orders (L3) and its price levels (L2).
mod Tests
mod Scenarios
pub mod Levels
pub mod Sides
pub mod Invariant
pub mod Cancel
pub mod Best
pub mod Undo
pub mod Faults
pub mod Prices
pub mod Release
use hft_demo.Prelude.{
  ℕ, ◌-◌, Option, none, some, ◌==◌, if◌then◌else◌, Build, Outcome, ok, ◌>>=◌, [],
}
use hft_demo.Prelude.Map.{Map, lookup, insert, remove, first, last}
use hft_demo.Prelude.Word.{u32_mod, add_word, sub_word}
use hft_demo.Common.{Side}

pub record Order : Type 0 where
  pub price : ℕ
  pub quantity : ℕ
  pub side : Side

pub record L3OrderBook : Type 0 where
  pub orders : Map Order
  pub bids : Map ℕ
  pub asks : Map ℕ

abbrev pub new_book : L3OrderBook
new_book = record { orders = []; bids = []; asks = [] }

-- `book_side`: the levels of a side, and the book with those levels replaced.
abbrev pub levels : Side → L3OrderBook → Map ℕ
levels Side.buy book = book.bids
levels Side.sell book = book.asks

abbrev pub with_levels : Side → Map ℕ → L3OrderBook → L3OrderBook
with_levels Side.buy m book = record book { bids = m }
with_levels Side.sell m book = record book { asks = m }

abbrev pub or_zero : Option ℕ → ℕ
or_zero none = 0
or_zero (some n) = n

unfoldable pub add_order : Build → L3OrderBook → ℕ → Side → ℕ → ℕ → Outcome L3OrderBook
add_order b book id side price quantity = do
  let new_order : Order = record { price = price; quantity = quantity; side = side }
  let book_side = levels side book
  total ← add_word u32_mod b (or_zero (lookup price book_side)) quantity
  ok (
      with_levels side (insert price total book_side)
        (record book { orders = insert id new_order book.orders }))

-- A level that falls to zero is removed; one that is missing is left so.
pub reduce_level : Build → ℕ → ℕ → Map ℕ → Option ℕ → Outcome (Map ℕ)
reduce_level b price quantity book_side none = ok book_side
reduce_level b price quantity book_side (some total) = do
  left ← sub_word u32_mod b total quantity
  let book_side' = insert price left book_side
  ok (if left == 0 then remove price book_side' else book_side')

pub cancel_found : Build → L3OrderBook → ℕ → ℕ → Option Order → Outcome L3OrderBook
unfolding reduce_level
cancel_found b book id quantity_to_cancel none = ok book
cancel_found b book id quantity_to_cancel (some order) = do
  left ← sub_word u32_mod b order.quantity quantity_to_cancel
  let book_side = levels order.side book
  book_side' ←
      reduce_level b order.price quantity_to_cancel book_side (lookup order.price book_side)
  let orders' = insert id (record order { quantity = left }) book.orders
  ok (
      with_levels order.side book_side'
        (record book { orders = if left == 0 then remove id orders' else orders' }))

unfoldable pub cancel_order : Build → L3OrderBook → ℕ → ℕ → Outcome L3OrderBook
unfolding cancel_found
cancel_order b book id quantity_to_cancel =
    cancel_found b book id quantity_to_cancel (lookup id book.orders)

-- The price and total quantity of the best buyer and of the best seller.
unfoldable pub get_best_bid : L3OrderBook → Option (ℕ × ℕ)
get_best_bid book = last book.bids

unfoldable pub get_best_ask : L3OrderBook → Option (ℕ × ℕ)
get_best_ask book = first book.asks

-- `saturating_sub` stops at 0.
abbrev spread_of : Option (ℕ × ℕ) → Option (ℕ × ℕ) → Option ℕ
spread_of (some (bid, _)) (some (ask, _)) = some (ask - bid)
spread_of (some _) none = none
spread_of none _ = none

unfoldable pub spread : L3OrderBook → Option ℕ
unfolding get_best_bid get_best_ask
spread book = spread_of (get_best_bid book) (get_best_ask book)
