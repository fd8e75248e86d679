-- ===== src/Market/Mock.antt =====
-- What the tests of the market run on: an exchange that keeps the orders and holds fills, a list for
-- the telemetry, a strategy that always sends, and the market of one symbol at its start.
use hft_demo.Prelude.Int.{pos, negsuc}
use hft_demo.Prelude.Float.{fractions}
use hft_demo.Common.{OrderCommand, OrderSide, ExecutionReport}
use hft_demo.Strategies.{Strategy}
use hft_demo.Market.{
  MarketState, SymbolProcessor, MessageAnalyticsWriter, ExchangeGateway, World, new_processor,
}
use hft_demo.Prelude.{ℕ, List, [], ◌∷◌, none, some, ok, Option}

abbrev pub MockState : Type 0
MockState = List OrderCommand × List ExecutionReport

abbrev pub pop : MockState → MockState × Option ExecutionReport
pop (orders, []) = ((orders, []), none)
pop (orders, report ∷ reports) = ((orders, reports), some report)

abbrev pub mock_gateway : ExchangeGateway
mock_gateway = record {
  State = MockState;
  send_order = λ g cmd. ok (cmd ∷ g.0, g.1);
  poll_confirmed_orders = λ g. ok (pop g);
  get_position = λ _ _. pos 0;
  get_cash_balance = λ _ _. pos 0;
}

abbrev pub telemetry_log : MessageAnalyticsWriter
telemetry_log = record { State = List (List ℕ); write = λ log bytes. ok (bytes ∷ log) }

abbrev pub small_order : OrderCommand
small_order = record {
  symbol_locate = 0;
  order_id = 77;
  price = 5;
  quantity = 100;
  side = OrderSide.buy;
}

abbrev pub eager : Strategy
eager = record {
  State = ℕ;
  on_trade = λ _ s _ _ _. ok (s, none);
  on_book_update = λ _ s _ _. ok (s, some small_order);
}

-- The market of the symbol "AB", as it starts.
abbrev pub start : MarketState fractions eager telemetry_log
start = record {
  processors = new_processor fractions eager telemetry_log 0 (65 ∷ 66 ∷ []) ∷ [];
  lookup_table = λ _. negsuc 0;
  global_order_id_counter = 0;
  telemetry_writer = [];
  current_time_ns = 0;
  midnight_today_ns = 86400000000000;
}

abbrev pub before : SymbolProcessor fractions eager
before = new_processor fractions eager telemetry_log 0 (65 ∷ 66 ∷ [])

abbrev pub world : World fractions eager mock_gateway telemetry_log
world = record { gateway = ([], []); telemetry_writer = []; global_order_id = 0 }
