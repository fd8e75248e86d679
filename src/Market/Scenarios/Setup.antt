-- ===== src/Market/Scenarios/Setup.antt =====
-- The mocks of the unit tests, the markets that they start from, and the sending of a message.
use hft_demo.Market.{
  MarketState, SymbolProcessor, MessageAnalyticsWriter, ExchangeGateway, Running, new,
  handle_raw_packet, remove_id,
}
use hft_demo.Orderbook
use hft_demo.Orderbook.{cancel_order, get_best_bid, get_best_ask}
use hft_demo.Risk.{check, outside_band}
use hft_demo.Ticker.{add_trade}
use hft_demo.Strategies.{on_book_update}
use hft_demo.Market.{handle_event, handle_stock_directory}
use hft_demo.Itch.{
  parse_itch_message, parse_stock_directory, parse_add_order, parse_modify_order,
  parse_delete_order, parse_trade, parse_order_executed, parse_order_executed_with_price,
}
use hft_demo.Itch.Encode.{
  create_itch_packet, stock_directory_packet, add_order_packet, order_executed_packet,
  executed_with_price_packet, modify_order_packet, delete_order_packet, trade_packet, header,
  symbol_field,
}
use hft_demo.Common.{payload_bytes}
use hft_demo.Prelude.Bytes.{from_be, be_bytes, be_field, le_bytes, splice, slice, index}
use hft_demo.Prelude.Text.{text_eq, trim, trim_matches, from_utf8_lossy, is_whitespace}
use hft_demo.Prelude.Map.{lookup, insert, remove, first, last}
use hft_demo.Prelude.Int.{◌+ℤ◌, ◌-ℤ◌, ◌*ℤ◌}
use hft_demo.Common.{OrderCommand, buyer}
use hft_demo.Strategies.{Strategy, simple_mid_point, new_mid_point, on_trade}
use hft_demo.Prelude.Bytes.{or_panic}
use hft_demo.Prelude.Float.{fractions}
use hft_demo.Prelude.Int.{pos}
use hft_demo.Prelude.Text.{Text}
use hft_demo.Prelude.{none, [], ◌∷◌, ◌++◌, ◌>>=◌, ℕ, List, ok, Build, map, Outcome}

pub record MockGateway : Type 0 where
  pub sent_orders : List OrderCommand

abbrev pub mock_gateway : ExchangeGateway
mock_gateway = record {
  State = MockGateway;
  send_order = λ g cmd. ok (record { sent_orders = g.sent_orders ++ (cmd ∷ []) });
  poll_confirmed_orders = λ g. ok (g, none);
  get_position = λ _ _. pos 0;
  get_cash_balance = λ _ _. pos 0;
}

abbrev pub no_orders : MockGateway
no_orders = record { sent_orders = [] }

pub record MockAnalytics : Type 0 where
  pub messages : List (List ℕ)

abbrev pub mock_analytics : MessageAnalyticsWriter
mock_analytics = record {
  State = MockAnalytics;
  write = λ w bytes. ok (record { messages = w.messages ++ (bytes ∷ []) });
}

abbrev pub strategy : Strategy
strategy = simple_mid_point fractions

abbrev pub Market : Type 0
Market = MarketState fractions strategy mock_analytics

abbrev pub Processor : Type 0
Processor = SymbolProcessor fractions strategy

abbrev pub Run : Type 0
Run = Running fractions strategy mock_analytics mock_gateway

-- The time of the run, which the tests take from the clock.
abbrev pub now_secs : ℕ
now_secs = 1577836800

-- A message goes to the market as a packet. The gateway has no fills, so that one poll is enough.
unfoldable pub message :
    Build → Run → (msg_type locate id qty price match_number side : ℕ) → Text → Outcome Run
unfolding handle_raw_packet create_itch_packet stock_directory_packet add_order_packet
    order_executed_packet executed_with_price_packet modify_order_packet delete_order_packet
    trade_packet header symbol_field from_be be_bytes be_field splice slice index parse_itch_message
    parse_stock_directory parse_add_order parse_modify_order parse_delete_order parse_trade
    parse_order_executed parse_order_executed_with_price text_eq trim trim_matches from_utf8_lossy
    is_whitespace handle_event handle_stock_directory Orderbook.add_order cancel_order get_best_bid
    get_best_ask lookup insert remove first last on_book_update add_trade check outside_band
    payload_bytes le_bytes ◌+ℤ◌ ◌-ℤ◌ ◌*ℤ◌
message b r msg_type locate id qty price match_number side symbol = do
  packet ← create_itch_packet msg_type locate id qty price match_number side symbol
  answer ← handle_raw_packet fractions strategy mock_analytics mock_gateway b 1 r packet
  or_panic answer

unfoldable pub list_symbols : Build → List (Text × ℕ) → Run → Outcome Run
unfolding message
list_symbols b [] r = ok r
list_symbols b ((name, locate) ∷ symbols) r = do
  r' ← message b r b'R' locate 0 0 0 0 b' ' name
  list_symbols b symbols r'

abbrev pub names_of : List (Text × ℕ) → List Text
names_of symbols = map (λ (s : Text × ℕ). s.0) symbols

unfoldable pub setup_multi_stock_market : Build → List (Text × ℕ) → Outcome Market
unfolding list_symbols new
setup_multi_stock_market b symbols = do
  market ←
      new fractions strategy mock_analytics b now_secs (names_of symbols)
        (new_mid_point fractions (8, 10)) (record { messages = [] })
  r ← list_symbols b symbols (market, no_orders)
  ok r.0

unfoldable pub setup_test_market : Build → Text → ℕ → Outcome Market
unfolding message new
setup_test_market b symbol locate = do
  market ←
      new fractions strategy mock_analytics b now_secs (symbol ∷ [])
        (new_mid_point fractions (8, 10)) (record { messages = [] })
  r ← message b (market, no_orders) b'R' locate 0 0 0 0 b' ' symbol
  ok r.0

-- The fills of 100 shares that the tests give to the strategy for the orders of a list.
unfoldable pub fill_each : Build → ℕ → List ℕ → Processor → Outcome Processor
unfolding on_trade
fill_each b price [] p = ok p
fill_each b price (oid ∷ open_orders) p = do
  traded ← on_trade fractions b p.strategy price 100 buyer
  fill_each b price open_orders
      (record p { strategy = traded.0; order_tracker = remove_id oid p.order_tracker })
