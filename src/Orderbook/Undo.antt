-- ===== src/Orderbook/Undo.antt =====
-- The addition of an order, and its cancellation in full.
use hft_demo.Prelude.{ℕ, ◌+◌, ◌-◌, ◌<◌, ◌≡◌, none, arith, ==_iff, Build, ok, ◌>>=◌}
use hft_demo.Prelude.Map.{
  Map, lookup, insert, remove, IsSorted, lookup-insert, remove-insert, remove-absent, insert-insert,
  insert-present,
}
use hft_demo.Prelude.Word.{u32_mod}
use hft_demo.Common.{Side}
use hft_demo.Orderbook.{Order, L3OrderBook, or_zero, add_order, cancel_order, reduce_level}
use hft_demo.Orderbook.Sides.{SideWellFormed}
use hft_demo.Orderbook.Invariant.{WellFormed, level}

-- A level that gained shares and loses them again is as it was, absent if it was absent.
level_restored :
    (b : Build) (s : Side) (orders : Map Order) (m : Map ℕ) (price quantity : ℕ)
    → SideWellFormed s orders m
    → let m₁ = insert price (or_zero (lookup price m) + quantity) m in
      reduce_level b price quantity m₁ (lookup price m₁) ≡ ok m
unfolding reduce_level
level_restored b s orders m price quantity w =
    let old : ℕ = or_zero (lookup price m) in
    ground (
      arith,
      lookup-insert price price (old + quantity) m,
      insert-insert price old (old + quantity) m,
      remove-insert price old m w.sorted,
      remove-absent price m,
      insert-present price old m w.sorted,
      w.full price,
      ==_iff price price,
    )

orders_restored :
    (id : ℕ) (o x : Order) (m : Map Order)
    → IsSorted m
    → lookup id m ≡ none
    → remove id (insert id o (insert id x m)) ≡ m
orders_restored id o x m v e =
    rw (insert-insert id o x m, remove-insert id o m v) (remove-absent id m e)

-- Where an order is added under a fresh id, cancelling all its shares gives the very book back.
pub cancel_order-add_order :
    (b : Build) (book : L3OrderBook) (id : ℕ) (s : Side) (price quantity : ℕ)
    → WellFormed book
    → lookup id book.orders ≡ none
    → level s price book + quantity < u32_mod
    → (add_order b book id s price quantity >>= λ book'. cancel_order b book' id quantity) ≡ ok book
unfolding add_order cancel_order
cancel_order-add_order b book id Side.buy price quantity w fresh fits =
    let o : Order = record { price = price; quantity = quantity; side = Side.buy } in
    ground (
      arith,
      lookup-insert id id o book.orders,
      ==_iff id id,
      level_restored b Side.buy book.orders book.bids price quantity w.buy_side,
      orders_restored id (record o { quantity = quantity - quantity }) o book.orders w.orders_sorted
          fresh,
    )
cancel_order-add_order b book id Side.sell price quantity w fresh fits =
    let o : Order = record { price = price; quantity = quantity; side = Side.sell } in
    ground (
      arith,
      lookup-insert id id o book.orders,
      ==_iff id id,
      level_restored b Side.sell book.orders book.asks price quantity w.sell_side,
      orders_restored id (record o { quantity = quantity - quantity }) o book.orders w.orders_sorted
          fresh,
    )
