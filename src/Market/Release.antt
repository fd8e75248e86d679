-- ===== src/Market/Release.antt =====
-- The steps of an event in a release build, in which overflow wraps around.
pub mod Event
pub mod Feed
pub mod Packet
use hft_demo.Orderbook.Release.{cancel_order-Returns, add_order-Returns}
use hft_demo.Market.{
  apply_message, execute, SymbolProcessor, aggressor_of, execute_found, delete_found,
}
use hft_demo.Strategies.{Strategy}
use hft_demo.Prelude.Float.{FloatOps}
use hft_demo.Prelude.Map.{lookup}
use hft_demo.Orderbook.{cancel_order, cancel_found, L3OrderBook, or_zero, levels, Order}
use hft_demo.Prelude.Word.{
  sub_word, abs_signed, signed_result, add_word, i32_half, u64_mod, in_range, as_i32, wrap_signed,
  u32_mod, signed_result-release, add_word-release,
}
use hft_demo.Risk.{
  signed_qty, check, decide_position, LocalRisk, fail, position_exceeds, qty_exceeds, commit,
  outside_band,
}
use hft_demo.Prelude.Int.{ℤ, pos, ltb_ℤ, ◌-ℤ◌, ◌+ℤ◌}
use hft_demo.Prelude.{
  ℕ, Returns, release, Gives, Bool-cases, bind-Returns, if◌then◌else◌, ltb, leb, ◌+◌, inl, ◌-◌,
  arith, ◌%◌, inr, refl, bind-Returns_both, Option, none, some,
}
use hft_demo.Ticker.{add_trade, TradeTicker}
use hft_demo.Common.{OrderSide, AggressorSide, Side, OrderCommand}
use hft_demo.Orderbook
use hft_demo.Itch.{
  ItchMessage, add_order, modify_order, trade, delete_order, order_executed,
  order_executed_with_price, stock_directory,
}

add_trade-release :
    (t : TradeTicker) (price quantity match_number : ℕ) (side : AggressorSide)
    → Returns (add_trade release t price quantity match_number side)
unfolding add_trade
add_trade-release t price quantity match_number side =
    bind-Returns_both _ _ (add_word-release u64_mod t.total_volume quantity) (λ total. (_, refl))

signed_qty-release : (side : OrderSide) (qty : ℕ) → Returns (signed_qty release side qty)
signed_qty-release OrderSide.buy qty = (_, refl)
signed_qty-release OrderSide.sell qty = signed_result-release i32_half (pos 0 -ℤ as_i32 qty)

abs_signed-release : (z : ℤ) → Returns (abs_signed i32_half release z)
abs_signed-release z = elim (Bool-cases (ltb_ℤ z (pos 0))) [
  | inl e ↦ rw e (signed_result-release i32_half (pos 0 -ℤ z))
  | inr e ↦ (z, rw e refl)
]

module _ (f : FloatOps) where
  decide_position-Returns :
      (r : LocalRisk f) (cmd : OrderCommand) (bid ask : Option (ℕ × ℕ)) (projected size : ℤ)
      → Returns (decide_position f r cmd bid ask projected size)
  unfolding decide_position
  decide_position-Returns r cmd bid ask projected size =
      elim (Bool-cases (ltb_ℤ r.max_absolute_position size)) [
        | inl over ↦ ((r, fail (position_exceeds projected r.max_absolute_position)), rw over refl)
        | inr fits ↦ (
          commit f r projected (outside_band f r.price_band_percentage cmd.side cmd.price bid ask),
          rw fits refl,
        )
      ]

  pub check-Returns :
      (r : LocalRisk f) (cmd : OrderCommand) (bid ask : Option (ℕ × ℕ))
      → Returns (check f release r cmd bid ask)
  unfolding check
  check-Returns r cmd bid ask = elim (Bool-cases (ltb r.max_qty_per_order cmd.quantity)) [
    | inl over ↦ ((r, fail (qty_exceeds cmd.quantity r.max_qty_per_order)), rw over refl)
    | inr fits ↦ rw fits (
        bind-Returns_both _ _ (signed_qty-release cmd.side cmd.quantity) (λ delta.
          bind-Returns_both _ _ (signed_result-release i32_half (r.current_position +ℤ delta))
            (λ projected.
              bind-Returns_both _ _ (abs_signed-release projected)
                (decide_position-Returns r cmd bid ask projected))))
  ]

module _ (f : FloatOps) (st : Strategy) where
  execute-Returns :
      (p : SymbolProcessor f st) (id quantity price match_number : ℕ) (side : Side)
      → Returns (execute f st release p id quantity price match_number side)
  unfolding execute
  execute-Returns p id quantity price match_number side =
      bind-Returns_both _ _ (add_trade-release p.ticker price quantity match_number _) (λ ticker.
        bind-Returns_both _ _ (cancel_order-Returns p.order_book id quantity) (λ book. (_, refl)))

  delete_found-Returns :
      (p : SymbolProcessor f st) (id : ℕ) (found : Option Order)
      → Returns (delete_found f st release p id found)
  delete_found-Returns p id none = (p, refl)
  delete_found-Returns p id (some o) =
      bind-Returns_both _ _ (cancel_order-Returns p.order_book id o.quantity) (λ book. (_, refl))

  execute_found-Returns :
      (p : SymbolProcessor f st) (id quantity match_number : ℕ) (price : Option ℕ)
      (found : Option Order)
      → Returns (execute_found f st release p id quantity match_number price found)
  execute_found-Returns p id quantity match_number price none = (p, refl)
  execute_found-Returns p id quantity match_number none (some o) =
      execute-Returns p id quantity o.price match_number o.side
  execute_found-Returns p id quantity match_number (some price) (some o) =
      execute-Returns p id quantity price match_number o.side

  pub apply_message-Returns :
      (p : SymbolProcessor f st) (msg : ItchMessage) → Returns (apply_message f st release p msg)
  unfolding apply_message
  apply_message-Returns p (add_order l id side quantity price) =
      bind-Returns_both _ _ (add_order-Returns p.order_book id side price quantity)
        (λ book. (_, refl))
  apply_message-Returns p (modify_order l id quantity) =
      bind-Returns_both _ _ (cancel_order-Returns p.order_book id quantity) (λ book. (_, refl))
  apply_message-Returns p (trade l price quantity n side) =
      bind-Returns_both _ _ (add_trade-release p.ticker price quantity n (aggressor_of side))
        (λ ticker. (_, refl))
  apply_message-Returns p (delete_order l id) = delete_found-Returns p id _
  apply_message-Returns p (order_executed l id quantity n) =
      execute_found-Returns p id quantity n none _
  apply_message-Returns p (order_executed_with_price l id quantity price n) =
      execute_found-Returns p id quantity n (some price) _
  apply_message-Returns p (stock_directory l symbol) = (p, refl)
