-- ===== src/Risk.antt =====
-- crates/risk-engine/src/lib.rs: the check of an order against the limits of one stock.
-- A failure carries the numbers that the source's message is formatted from.
mod Tests
mod Scenarios
pub mod Position
use hft_demo.Prelude.Decimal.{decimal, signed_decimal}
use hft_demo.Prelude.Text.{Text, text}
use hft_demo.Prelude.{
  ℕ, Bool, Option, none, some, if◌then◌else◌, ltb, Build, Outcome, ok, ◌>>=◌, ◌++◌,
}
use hft_demo.Prelude.Int.{ℤ, pos, ltb_ℤ}
use hft_demo.Prelude.Word.{i32_half, as_i32, neg_signed, add_signed, abs_signed}
use hft_demo.Prelude.Float.{FloatOps}
use hft_demo.Common.{OrderSide, OrderCommand}

pub data Reason : Type 0 where
  qty_exceeds : (qty limit : ℕ) → Reason
  position_exceeds : (projected limit : ℤ) → Reason
  buy_price_too_far sell_price_too_far : Reason

-- The message of a failure.
unfoldable pub message : Reason → Text
unfolding decimal signed_decimal
message (qty_exceeds qty limit) =
    text "Qty " ++ (decimal qty ++ (text " exceeds limit " ++ decimal limit))
message (position_exceeds projected limit) =
    text "Projected pos "
    ++ (signed_decimal projected ++ (text " exceeds limit " ++ signed_decimal limit))
message buy_price_too_far = text "Buy price too far above best ask"
message sell_price_too_far = text "Sell price too far below best bid"

pub data RiskDecision : Type 0 where
  pass : RiskDecision
  fail : Reason → RiskDecision

-- `cmd_qty as i32`, negated for a sale.
abbrev pub signed_qty : Build → OrderSide → ℕ → Outcome ℤ
signed_qty b OrderSide.buy qty = ok (as_i32 qty)
signed_qty b OrderSide.sell qty = neg_signed i32_half b (as_i32 qty)

module _ (f : FloatOps) where
  open f use {Float, of_nat, add, sub, mul, less}

  pub record LocalRisk : Type 0 where
    pub max_qty_per_order : ℕ
    pub price_band_percentage : Float
    pub max_absolute_position : ℤ
    pub current_position : ℤ

  abbrev pub new_risk : ℕ → Float → ℤ → LocalRisk
  new_risk max_qty price_band max_pos = record {
    max_qty_per_order = max_qty;
    price_band_percentage = price_band;
    max_absolute_position = max_pos;
    current_position = pos 0;
  }

  -- The price band: a limit over the best ask for a buyer, under the best bid for a seller, and none
  -- where that side of the book is empty.
  unfoldable pub outside_band :
      Float → OrderSide → ℕ → Option (ℕ × ℕ) → Option (ℕ × ℕ) → Option Reason
  outside_band band OrderSide.buy price best_bid none = none
  outside_band band OrderSide.buy price best_bid (some (ask_price, _)) =
      if less (mul (of_nat ask_price) (add (of_nat 1) band)) (of_nat price)
      then some buy_price_too_far
      else none
  outside_band band OrderSide.sell price none best_ask = none
  outside_band band OrderSide.sell price (some (bid_price, _)) best_ask =
      if less (of_nat price) (mul (of_nat bid_price) (sub (of_nat 1) band))
      then some sell_price_too_far
      else none

  abbrev pub commit : LocalRisk → ℤ → Option Reason → LocalRisk × RiskDecision
  commit r projected none = (record r { current_position = projected }, pass)
  commit r projected (some reason) = (r, fail reason)

  unfoldable pub decide_position :
      LocalRisk
      → OrderCommand
      → Option (ℕ × ℕ)
      → Option (ℕ × ℕ)
      → ℤ
      → ℤ
      → Outcome (LocalRisk × RiskDecision)
  decide_position r cmd best_bid best_ask projected_pos size =
      if ltb_ℤ r.max_absolute_position size
      then ok (r, fail (position_exceeds projected_pos r.max_absolute_position))
      else ok (
          commit r projected_pos
            (outside_band r.price_band_percentage cmd.side cmd.price best_bid best_ask))

  unfoldable pub check :
      Build
      → LocalRisk
      → OrderCommand
      → Option (ℕ × ℕ)
      → Option (ℕ × ℕ)
      → Outcome (LocalRisk × RiskDecision)
  unfolding decide_position
  check b r cmd best_bid best_ask =
      if ltb r.max_qty_per_order cmd.quantity
      then ok (r, fail (qty_exceeds cmd.quantity r.max_qty_per_order))
      else do
        delta ← signed_qty b cmd.side cmd.quantity
        projected_pos ← add_signed i32_half b r.current_position delta
        size ← abs_signed i32_half b projected_pos
        decide_position r cmd best_bid best_ask projected_pos size
