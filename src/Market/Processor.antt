-- ===== src/Market/Processor.antt =====
-- `SymbolProcessor`: the book, ticker, strategy and risk limits of one stock.
use hft_demo.Prelude.{
  ℕ, ◌/◌, ◌%◌, Bool, false, ◌&&◌, ◌||◌, not, Option, none, some, List, [], ◌∷◌, if◌then◌else◌, ltb,
  ◌==◌, Build, Outcome, ok, ◌>>=◌,
}
use hft_demo.Prelude.Int.{pos}
use hft_demo.Prelude.Map.{lookup}
use hft_demo.Prelude.Text.{Text}
use hft_demo.Prelude.Word.{u32_mod, u64_mod, i64_half, add_word, add_signed, mul_signed}
use hft_demo.Prelude.Float.{FloatOps}
use hft_demo.Common.{Side, AggressorSide, buyer, seller, OrderCommand, payload_bytes}
use hft_demo.Itch.{
  ItchMessage, add_order, modify_order, trade, delete_order, order_executed,
  order_executed_with_price, stock_directory,
}
use hft_demo.Orderbook
use hft_demo.Orderbook.{L3OrderBook, Order, cancel_order, get_best_bid, get_best_ask}
use hft_demo.Ticker.{TradeTicker, add_trade}
use hft_demo.Risk.{LocalRisk, RiskDecision, pass, fail, check}
use hft_demo.Strategies.{Strategy, Quote}
use hft_demo.Market.Traits.{ExchangeGateway, MessageAnalyticsWriter}

-- `HashSet<u64>`.
abbrev pub contains : ℕ → List ℕ → Bool
contains x [] = false
contains x (y ∷ ys) = x == y || contains x ys

abbrev pub insert_id : ℕ → List ℕ → List ℕ
insert_id x ys = if contains x ys then ys else x ∷ ys

abbrev pub remove_id : ℕ → List ℕ → List ℕ
remove_id x [] = []
remove_id x (y ∷ ys) = let rest = remove_id x ys in if x == y then rest else y ∷ rest

-- The aggressor of a trade by its side, and of an execution by the side of the resting order.
abbrev pub aggressor_of : Side → AggressorSide
aggressor_of Side.buy = buyer
aggressor_of Side.sell = seller

abbrev pub aggressor_against : Side → AggressorSide
aggressor_against Side.buy = seller
aggressor_against Side.sell = buyer

module _ (f : FloatOps) (st : Strategy) where
  pub record SymbolProcessor : Type 0 where
    pub symbol : Text
    pub stock_locate : ℕ
    pub order_book : L3OrderBook
    pub strategy : st.State
    pub ticker : TradeTicker
    pub order_tracker : List ℕ
    pub risk_engine : LocalRisk f
    pub last_midpoint : ℕ

  -- An execution against a resting order: its trade, then its shares leave the book.
  unfoldable pub execute :
      Build
      → SymbolProcessor
      → (order_id quantity price match_number : ℕ) → Side
      → Outcome SymbolProcessor
  execute b p order_id quantity price match_number side = do
    ticker ← add_trade b p.ticker price quantity match_number (aggressor_against side)
    book ← cancel_order b p.order_book order_id quantity
    ok (record p { ticker = ticker; order_book = book })

  abbrev pub delete_found : Build → SymbolProcessor → ℕ → Option Order → Outcome SymbolProcessor
  delete_found b p order_id none = ok p
  delete_found b p order_id (some order) = do
    book ← cancel_order b p.order_book order_id order.quantity
    ok (record p { order_book = book })

  abbrev pub execute_found :
      Build
      → SymbolProcessor
      → (order_id quantity match_number : ℕ) → Option ℕ
      → Option Order
      → Outcome SymbolProcessor
  execute_found b p order_id quantity match_number price none = ok p
  execute_found b p order_id quantity match_number none (some order) =
      execute b p order_id quantity order.price match_number order.side
  execute_found b p order_id quantity match_number (some price) (some order) =
      execute b p order_id quantity price match_number order.side

  -- The `match` of `handle_event`: what a message does to the book and the ticker.
  unfoldable pub apply_message : Build → SymbolProcessor → ItchMessage → Outcome SymbolProcessor
  unfolding execute
  apply_message b p (add_order _ order_id side quantity price) = do
    book ← Orderbook.add_order b p.order_book order_id side price quantity
    ok (record p { order_book = book })
  apply_message b p (modify_order _ order_id quantity_to_remove) = do
    book ← cancel_order b p.order_book order_id quantity_to_remove
    ok (record p { order_book = book })
  apply_message b p (trade _ price quantity match_number bid) = do
    ticker ← add_trade b p.ticker price quantity match_number (aggressor_of bid)
    ok (record p { ticker = ticker })
  apply_message b p (delete_order _ order_id) =
      delete_found b p order_id (lookup order_id p.order_book.orders)
  apply_message b p (order_executed _ order_id quantity match_number) =
      execute_found b p order_id quantity match_number none (lookup order_id p.order_book.orders)
  apply_message b p (order_executed_with_price _ order_id quantity price match_number) =
      execute_found b p order_id quantity match_number (some price)
        (lookup order_id p.order_book.orders)
  apply_message b p (stock_directory _ _) = ok p

  module _ (gw : ExchangeGateway) (wr : MessageAnalyticsWriter) where
    -- What the processors share: the exchange, the telemetry sink and the counter of order ids.
    pub record World : Type 0 where
      pub gateway : gw.State
      pub telemetry_writer : wr.State
      pub global_order_id : ℕ

    abbrev pub Step : Type 0
    Step = SymbolProcessor × World

    -- An order that the risk engine has decided on: sent under the next id and tracked, or dropped.
    unfoldable pub route : Build → Step → OrderCommand → LocalRisk f × RiskDecision → Outcome Step
    route b (p, w) cmd (risk, fail reason) = ok (record p { risk_engine = risk }, w)
    route b (p, w) cmd (risk, pass) = do
      next ← add_word u64_mod b w.global_order_id 1
      gateway ← gw.send_order w.gateway (record cmd { order_id = w.global_order_id })
      ok (
        record p {
          risk_engine = risk;
          order_tracker = insert_id w.global_order_id p.order_tracker;
        },
        record w { gateway = gateway; global_order_id = next },
      )

    unfoldable pub submit : Build → Step → Option OrderCommand → Outcome Step
    unfolding route
    submit b (p, w) none = ok (p, w)
    submit b (p, w) (some cmd) = do
      let cmd' : OrderCommand = record cmd { symbol_locate = p.stock_locate }
      decision ←
          check f b p.risk_engine cmd' (get_best_bid p.order_book) (get_best_ask p.order_book)
      route b (p, w) cmd' decision

    -- The strategy sees the best prices, and may answer with an order.
    unfoldable pub consult : Build → Step → Outcome Step
    unfolding submit
    consult b (p, w) = do
      (s, answer) ←
          st.on_book_update b p.strategy (get_best_bid p.order_book) (get_best_ask p.order_book)
      submit b (record p { strategy = s }, w) answer

    abbrev pub price_or_zero : Quote → ℕ
    price_or_zero none = 0
    price_or_zero (some (price, _)) = price

    unfoldable pub midpoint : Build → L3OrderBook → Outcome ℕ
    midpoint b book =
        let bid = price_or_zero (get_best_bid book) in
        let ask = price_or_zero (get_best_ask book) in
        if ltb 0 bid && ltb 0 ask
        then (do total ← add_word u64_mod b bid ask; ok (total / 2 % u32_mod))
        else ok 0

    -- The record of a new midpoint: the equity is the cash and the worth of the position.
    unfoldable pub report : Build → Step → ℕ → ℕ → Outcome Step
    report b (p, w) now mid = do
      let position = gw.get_position w.gateway p.stock_locate
      worth ← mul_signed i64_half b position (pos mid)
      equity ← add_signed i64_half b (gw.get_cash_balance w.gateway p.stock_locate) worth
      writer ← wr.write w.telemetry_writer (
          payload_bytes (record {
            timestamp_ns = now;
            realised_pnl = equity;
            midpoint_px = mid;
            position = position;
            latency_ns = 30;
            locate_id = p.stock_locate;
          }))
      ok (record p { last_midpoint = mid }, record w { telemetry_writer = writer })

    unfoldable pub send_telemetry : Build → Step → ℕ → Outcome Step
    unfolding midpoint report
    send_telemetry b (p, w) now = do
      mid ← midpoint b p.order_book
      (if ltb 0 mid && not (mid == p.last_midpoint) then report b (p, w) now mid else ok (p, w))

    unfoldable pub handle_event : Build → Step → ItchMessage → ℕ → Outcome Step
    unfolding apply_message consult send_telemetry
    handle_event b (p, w) msg now = do
      p' ← apply_message b p msg
      s ← consult b (p', w)
      send_telemetry b s now
