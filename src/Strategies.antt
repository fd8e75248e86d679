-- ===== src/Strategies.antt =====
-- crates/strategies/src/lib.rs: the trait `Strategy` and its one implementation, `SimpleMidPoint`.
mod Tests
mod Scenarios
pub mod Orders
pub mod Position
pub mod Release
use hft_demo.Prelude.{
  ℕ, ◌+◌, ◌%◌, Bool, ◌&&◌, Option, none, some, if◌then◌else◌, Build, Outcome, ok, ◌>>=◌, leb, not,
}
use hft_demo.Prelude.Int.{ℤ, pos, negsuc, ltb_ℤ}
use hft_demo.Prelude.Word.{u32_mod, u64_mod, i32_half, add_word, as_i32, add_signed, sub_signed}
use hft_demo.Prelude.Float.{FloatOps}
use hft_demo.Common.{AggressorSide, buyer, seller, OrderSide, OrderCommand}

-- The price and quantity of a best bid or ask.
abbrev pub Quote : Type 0
Quote = Option (ℕ × ℕ)

-- `trait Strategy`, with the methods of its implementing type.
pub record Strategy : Type 1 where
  pub State : Type 0
  pub on_trade : Build → State → ℕ → ℕ → AggressorSide → Outcome (State × Option OrderCommand)
  pub on_book_update : Build → State → Quote → Quote → Outcome (State × Option OrderCommand)

module _ (f : FloatOps) where
  open f use {Float, of_nat, sub, div, less, equal}

  pub record SimpleMidPoint : Type 0 where
    pub mid_price : Float
    pub prev_mid_price : Float
    pub trade_count : ℕ
    pub position : ℤ
    pub next_order_id : ℕ
    pub imbalance_threshold : Float

  abbrev pub new_mid_point : Float → SimpleMidPoint
  new_mid_point threshold = record {
    mid_price = of_nat 0;
    prev_mid_price = of_nat 0;
    trade_count = 0;
    position = pos 0;
    next_order_id = 1;
    imbalance_threshold = threshold;
  }

  unfoldable pub generate_id : Build → SimpleMidPoint → Outcome (ℕ × SimpleMidPoint)
  generate_id b s = do
    next ← add_word u64_mod b s.next_order_id 1
    ok (s.next_order_id, record s { next_order_id = next })

  -- The order that a signal sends: 100 shares at the given price.
  unfoldable pub send :
      Build → SimpleMidPoint → OrderSide → ℕ → Outcome (SimpleMidPoint × Option OrderCommand)
  unfolding generate_id
  send b s side price = do
    (id, s') ← generate_id b s
    ok (
      s',
      some (record {
        symbol_locate = 0;
        order_id = id;
        price = price % u32_mod;
        quantity = 100;
        side = side;
      }),
    )

  -- The two signals, on the state with the new mid price and the buyers' share of the volume.
  unfoldable pub is_buy_signal : SimpleMidPoint → Float → Bool
  is_buy_signal s imbalance =
      less s.imbalance_threshold imbalance
      && (less s.prev_mid_price s.mid_price && not (ltb_ℤ (pos 5000) s.position))

  unfoldable pub is_sell_signal : SimpleMidPoint → Float → Bool
  is_sell_signal s imbalance =
      less imbalance (sub (of_nat 1) s.imbalance_threshold)
      && (less s.mid_price s.prev_mid_price && ltb_ℤ (negsuc 4999) s.position)

  unfoldable pub decide :
      Build → SimpleMidPoint → ℕ → ℕ → Float → Outcome (SimpleMidPoint × Option OrderCommand)
  unfolding send is_buy_signal is_sell_signal
  decide b s bid_price ask_price imbalance =
      if is_buy_signal s imbalance
      then send b s OrderSide.buy ask_price
      else if is_sell_signal s imbalance
      then send b s OrderSide.sell bid_price
      else ok (s, none)

  unfoldable pub on_book_update :
      Build → SimpleMidPoint → Quote → Quote → Outcome (SimpleMidPoint × Option OrderCommand)
  unfolding decide
  on_book_update b s (some (bid_price, bid_qty)) (some (ask_price, ask_qty)) = do
    prices ← add_word u64_mod b bid_price ask_price
    let s' : SimpleMidPoint = record s {
      prev_mid_price = s.mid_price;
      mid_price = div (of_nat prices) (of_nat 2);
    }
    volume ← add_word u32_mod b bid_qty ask_qty
    let total_qty = of_nat volume
    (if equal total_qty (of_nat 0)
        then ok (s', none)
        else decide b s' bid_price ask_price (div (of_nat bid_qty) total_qty))
  on_book_update b s (some _) none = ok (s, none)
  on_book_update b s none _ = ok (s, none)

  unfoldable pub on_trade :
      Build
      → SimpleMidPoint
      → ℕ
      → ℕ
      → AggressorSide
      → Outcome (SimpleMidPoint × Option OrderCommand)
  on_trade b s price quantity side = do
    count ← add_word u64_mod b s.trade_count 1
    position ← (elim side [
      | buyer ↦ add_signed i32_half b s.position (as_i32 quantity)
      | seller ↦ sub_signed i32_half b s.position (as_i32 quantity)
    ])
    ok (record s { trade_count = count; position = position }, none)

  abbrev pub simple_mid_point : Strategy
  simple_mid_point = record {
    State = SimpleMidPoint;
    on_trade = on_trade;
    on_book_update = on_book_update;
  }
