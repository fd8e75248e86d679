-- ===== src/Orderbook/Release.antt =====
-- The operations of the book in a release build.
use hft_demo.Prelude.Word.{sub_word-release, add_word-release, u32_mod}
use hft_demo.Common.{Side}
use hft_demo.Prelude.Map.{Map, lookup}
use hft_demo.Prelude.{ℕ, Option, Returns, release, bind-Returns_both, none, refl}
use hft_demo.Orderbook.{
  cancel_order, cancel_found, add_order, reduce_level, L3OrderBook, ℕ, Map, Side, Option, Order,
  some, u32_mod, or_zero, levels, lookup,
}

reduce_level-Returns :
    (price quantity : ℕ) (m : Map ℕ) (found : Option ℕ)
    → Returns (reduce_level release price quantity m found)
unfolding reduce_level
reduce_level-Returns price quantity m none = (m, refl)
reduce_level-Returns price quantity m (some t) =
    bind-Returns_both _ _ (sub_word-release u32_mod t quantity) (λ left. (_, refl))

cancel_found-Returns :
    (book : L3OrderBook) (id quantity : ℕ) (found : Option Order)
    → Returns (cancel_found release book id quantity found)
unfolding cancel_found
cancel_found-Returns book id quantity none = (book, refl)
cancel_found-Returns book id quantity (some o) =
    bind-Returns_both _ _ (sub_word-release u32_mod o.quantity quantity) (λ left.
      bind-Returns_both _ _ (reduce_level-Returns o.price quantity (levels o.side book) _)
        (λ book_side. (_, refl)))

pub cancel_order-Returns :
    (book : L3OrderBook) (id quantity : ℕ) → Returns (cancel_order release book id quantity)
unfolding cancel_order
cancel_order-Returns book id quantity = cancel_found-Returns book id quantity _

pub add_order-Returns :
    (book : L3OrderBook) (id : ℕ) (side : Side) (price quantity : ℕ)
    → Returns (add_order release book id side price quantity)
unfolding add_order
add_order-Returns book id side price quantity =
    bind-Returns_both _ _
      (add_word-release u32_mod (or_zero (lookup price (levels side book))) quantity)
      (λ total. (_, refl))
