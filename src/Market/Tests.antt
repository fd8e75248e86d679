-- ===== src/Market/Tests.antt =====
-- Runs of the market.
use hft_demo.Market.Mock.{telemetry_log, eager, mock_gateway, before, start, world, small_order}
use hft_demo.Market.Telemetry.{Written, send_telemetry-writes}
use hft_demo.Prelude.Bytes.{index}
use hft_demo.Risk.Position.{signed}
use hft_demo.Prelude.Text.{trim, trim_matches, is_whitespace}
use hft_demo.Market.Fills.{confirm-raises_position}
use hft_demo.Market.Routing.{
  Isolated, filter_message-Isolated, Mapped, handle_stock_directory-Mapped,
}
use hft_demo.Orderbook
use hft_demo.Prelude.Map.{lookup, first, last, insert}
use hft_demo.Risk.{check, outside_band}
use hft_demo.Orderbook.{get_best_bid, get_best_ask}
use hft_demo.Prelude.Int.{pos, negsuc, ◌+ℤ◌, ◌≤ℤ◌, int_laws, ◌*ℤ◌}
use hft_demo.Prelude.Float.{fractions}
use hft_demo.Common.{OrderCommand, ExecutionReport, Side, payload_bytes}
use hft_demo.Strategies.{simple_mid_point, new_mid_point}
use hft_demo.Market.Safety.{Reached-order, Reached, HasLimits, Reached-HasLimits, started}
use hft_demo.Itch.{ItchMessage, add_order}
use hft_demo.Market.Orders.{Sends, Follows, handle_event-Sends, SendsNone}
use hft_demo.Market.{
  new, handle_event, MarketState, SymbolProcessor, World, new_processor, handle_stock_directory,
  filter_message_for_symbols, set_entry, confirm, contains, clean, send_telemetry, midpoint,
}
use hft_demo.Prelude.{
  ℕ, refl, All, ok, [], none, debug, ◌∷◌, some, ◌≡◌, ◌<◌, ◌⊎◌, get_elem?, arith, ◌≤◌, ◌≢◌, false,
}

start-Reached : Reached fractions eager telemetry_log mock_gateway debug start
unfolding new
start-Reached = started 86401 ((65 ∷ 66 ∷ []) ∷ []) 0 [] start refl

Reached-HasLimits_example :
    All (HasLimits fractions eager telemetry_log mock_gateway) start.processors
Reached-HasLimits_example =
    Reached-HasLimits fractions eager telemetry_log mock_gateway debug start start-Reached

-- An event of the processor: an order to buy joins the book, and the strategy answers.
abbrev joined : ItchMessage
joined = add_order 3 9 Side.buy 10 100

abbrev after : SymbolProcessor fractions eager
after = record before {
  order_book = record {
    orders = (9, record { price = 100; quantity = 10; side = Side.buy }) ∷ [];
    bids = (100, 10) ∷ [];
    asks = [];
  };
  order_tracker = 0 ∷ [];
  risk_engine = record before.risk_engine { current_position = pos 100 };
}

abbrev world_after : World fractions eager mock_gateway telemetry_log
world_after = record {
  gateway = (record small_order { order_id = 0 } ∷ [], []);
  telemetry_writer = [];
  global_order_id = 1;
}

handled :
    handle_event fractions eager mock_gateway telemetry_log debug (before, world) joined 5
    ≡ ok (after, world_after)
unfolding handle_event hft_demo.Orderbook.add_order lookup check ◌+ℤ◌ outside_band get_best_ask
    first get_best_bid last insert
handled = refl

handle_event-Sends_example :
    Sends fractions eager mock_gateway telemetry_log debug before after world world_after
    × Follows fractions eager mock_gateway telemetry_log debug before after joined
handle_event-Sends_example =
    handle_event-Sends fractions eager mock_gateway telemetry_log debug before after world
      world_after joined 5 handled

Reached-order_example :
    SendsNone fractions eager mock_gateway telemetry_log before after world world_after
    ⊎ ((cmd : OrderCommand) × (ok (cmd ∷ [], []) ≡ ok world_after.gateway)
        × (cmd.quantity ≤ 1000)
        × (pos 100 ≡ pos 0 +ℤ signed cmd.side cmd.quantity)
        × (pos 100 ≤ℤ pos 3500)
        × (pos 0 ≤ℤ pos 100 +ℤ pos 3500)
        × (outside_band fractions
              (2, 100)
              cmd.side
              cmd.price
              (get_best_bid after.order_book)
              (get_best_ask after.order_book)
            ≡ none))
Reached-order_example =
    Reached-order fractions eager telemetry_log mock_gateway debug start 0 before after world
      world_after joined 5 start-Reached refl handled

abbrev fill : ExecutionReport
fill = record { order_id = 4; last_qty = 100; last_price = 5; exec_type = 0; stock_locate = 3 }

none_before :
    (j : ℕ) (q : SymbolProcessor fractions eager)
    → j < 0
    → get_elem? start.processors j ≡ some q
    → q.symbol ≢ clean (65 ∷ 66 ∷ 32 ∷ 0 ∷ [])
none_before j q h e = absurd (omega (arith, h))

-- The market once the locate 3 is mapped.
abbrev mapped : MarketState fractions eager telemetry_log
mapped = record start {
  processors = record before { stock_locate = 3 } ∷ [];
  lookup_table = set_entry (λ _. negsuc 0) 3 (pos 0);
}

handle_stock_directory-Mapped_example :
    (m : MarketState fractions eager telemetry_log) × (handle_stock_directory fractions eager
        telemetry_log start 3
        (65 ∷ 66 ∷ 32 ∷ 0 ∷ [])
      ≡ ok m)
    × Mapped fractions eager telemetry_log start m 3 0 before
handle_stock_directory-Mapped_example =
    handle_stock_directory-Mapped fractions eager telemetry_log start 3 0 (65 ∷ 66 ∷ 32 ∷ 0 ∷ [])
      before refl (unfold trim trim_matches is_whitespace in refl) none_before (omega arith)

abbrev mapped_after : MarketState fractions eager telemetry_log
mapped_after = record mapped {
  processors = record after { stock_locate = 3 } ∷ [];
  global_order_id_counter = 1;
}

delivered :
    filter_message_for_symbols fractions eager telemetry_log mock_gateway debug
      (mapped, ([], []))
      joined
    ≡ ok (mapped_after, (record small_order { symbol_locate = 3; order_id = 0 } ∷ [], []))
unfolding filter_message_for_symbols index handle_event Orderbook.add_order lookup check ◌+ℤ◌
    outside_band get_best_ask first get_best_bid last insert
delivered = refl

filter_message-Isolated_example :
    Isolated fractions eager telemetry_log mock_gateway mapped mapped_after (pos 0)
filter_message-Isolated_example =
    filter_message-Isolated fractions eager telemetry_log mock_gateway debug mapped mapped_after
      ([], []) (record small_order { symbol_locate = 3; order_id = 0 } ∷ [], []) joined refl
      delivered

-- A sell order of the program's strategy, filled.
abbrev seller_start : SymbolProcessor fractions (simple_mid_point fractions)
seller_start =
    record (new_processor fractions (simple_mid_point fractions) telemetry_log
      (new_mid_point fractions (8, 10)) (65 ∷ 66 ∷ [])) { stock_locate = 3; order_tracker = 4 ∷ [] }

abbrev seller_market : MarketState fractions (simple_mid_point fractions) telemetry_log
seller_market = record {
  processors = seller_start ∷ [];
  lookup_table = set_entry (λ _. negsuc 0) 3 (pos 0);
  global_order_id_counter = 5;
  telemetry_writer = [];
  current_time_ns = 0;
  midnight_today_ns = 0;
}

confirm-raises_position_example :
    (m : MarketState fractions (simple_mid_point fractions) telemetry_log) × (p : SymbolProcessor
      fractions
      (simple_mid_point fractions))
    × (confirm fractions (simple_mid_point fractions) telemetry_log debug seller_market fill ≡ ok m)
    × (get_elem? m.processors 0 ≡ some p)
    × (p.strategy.position ≡ pos 0 +ℤ pos 100)
    × (contains 4 p.order_tracker ≡ false)
confirm-raises_position_example =
    confirm-raises_position fractions telemetry_log debug seller_market fill 0 seller_start refl
      refl refl (omega arith) (omega int_laws) (omega arith) (omega arith)

-- A book with a best price on each side, before it is reported.
abbrev quoted : SymbolProcessor fractions eager
quoted = record before {
  order_book = record {
    orders =
        (7, record { price = 100; quantity = 10; side = Side.buy })
        ∷ (9, record { price = 105; quantity = 4; side = Side.sell })
        ∷ [];
    bids = (100, 10) ∷ [];
    asks = (105, 4) ∷ [];
  };
}

abbrev world_told : World fractions eager mock_gateway telemetry_log
world_told = record world {
  telemetry_writer =
      payload_bytes (record {
        timestamp_ns = 5;
        realised_pnl = pos 0;
        midpoint_px = 102;
        position = pos 0;
        latency_ns = 30;
        locate_id = 0;
      })
      ∷ [];
}

told :
    send_telemetry fractions eager mock_gateway telemetry_log debug (quoted, world) 5
    ≡ ok (record quoted { last_midpoint = 102 }, world_told)
unfolding send_telemetry get_best_bid last get_best_ask first ◌*ℤ◌ ◌+ℤ◌
told = refl

send_telemetry-writes_example :
    (mid : ℕ) × (midpoint fractions eager mock_gateway telemetry_log debug quoted.order_book
      ≡ ok mid)
    × Written fractions eager mock_gateway telemetry_log quoted
        (record quoted { last_midpoint = 102 })
        world
        world_told
        5
        mid
send_telemetry-writes_example =
    send_telemetry-writes fractions eager mock_gateway telemetry_log debug quoted
      (record quoted { last_midpoint = 102 }) world world_told 5 told
