-- ===== src/Live/Tests.antt =====
-- Runs of the live engine's gateway.
use hft_demo.Prelude.Bytes.{le_bytes}
use hft_demo.Orderbook.{get_best_ask, get_best_bid}
use hft_demo.Market.Safety.{new-HasLimits}
use hft_demo.Live.Layout.{report_bytes, ReportFits}
use hft_demo.Risk.{check, outside_band}
use hft_demo.Prelude.Map.{lookup, first, last, insert}
use hft_demo.Itch.{ItchMessage, add_order}
use hft_demo.Live.Sending.{Outbound, Sent, event-Sent}
use hft_demo.Live.Polling.{Inbound, confirm_all, poll_reports-panic_iff, poll-confirm_all}
use hft_demo.Ring.{ShmRing, update, magic, slot_size}
use hft_demo.Market.{
  ExchangeGateway, MarketState, World, poll_confirmed_orders, handle_event, SymbolProcessor,
}
use mathlib.Core.Path.{subst}
use hft_demo.Orderbook
use hft_demo.Ring
use hft_demo.Common.{Side, as_bytes, ExecutionReport, OrderCommand}
use hft_demo.Prelude.{
  [], ◌∷◌, some, refl, zero, suc, All, List, ℕ, arith, length, debug, ◌≡◌, ◌≤◌, ◌+◌, panic, ◌>>=◌,
  ◌++◌, ◌↔◌, get_elem?, ok, ◌<◌, ◌%◌, ◌*◌, ap,
}
use hft_demo.Prelude.Int.{pos, negsuc, ◌+ℤ◌}
use hft_demo.Prelude.Float.{fractions}
use hft_demo.Prelude.Mask.{pow2}
use hft_demo.Market.Mock.{eager, before, small_order}
use hft_demo.Live.Gateway.{ShmGateway, poll_reports, dummy_writer, live_gateway, send_order}

abbrev fill : ExecutionReport
fill = record { order_id = 4; last_qty = 100; last_price = 5; exec_type = 0; stock_locate = 3 }

-- Two slots; the first has a report.
abbrev inbound : ShmRing
inbound = record {
  mmap = record {
    magic_num = magic;
    head = 1;
    slots = λ _. record { timestamp = 7; len = 19; bytes = report_bytes fill ++ (0 ∷ []) };
    mapped = 256;
  };
  capacity = 2;
}

abbrev outbound : ShmRing
outbound = record {
  mmap = record {
    magic_num = magic;
    head = 0;
    slots = λ _. record { timestamp = 0; len = 0; bytes = [] };
    mapped = 256;
  };
  capacity = 2;
}

abbrev gateway : ShmGateway
gateway = record { outbound_shm = outbound; inbound_shm = inbound; next_seq = 0 }

abbrev reports : List ExecutionReport
reports = fill ∷ []

reports_served :
    (n : ℕ) (a : ExecutionReport)
    → length reports ≤ n + pow2 1
    → get_elem? reports n ≡ some a
    → (slot_size + n % pow2 1 * slot_size + slot_size ≤ 256)
      × ((rest : List ℕ) × ((inbound.mmap.slots (n % pow2 1)).bytes ≡ report_bytes a ++ rest))
reports_served zero a near at =
    let same : fill ≡ a = cc in (omega arith, (0 ∷ [], ap (λ r. report_bytes r ++ (0 ∷ [])) same))
reports_served (suc n) a near at = absurd cc

reports_fit : All ReportFits reports
reports_fit zero a at =
    let same : fill ≡ a = cc in
    subst ReportFits same (record {
      order_id = omega arith;
      last_qty = omega arith;
      last_price = omega arith;
      exec_type = omega arith;
      stock_locate = omega arith;
    })
reports_fit (suc n) a at = absurd cc

gateway-Inbound : Inbound 1 gateway reports
gateway-Inbound = record {
  slots = refl;
  serves = record { counted = refl; served = reports_served };
  fit = reports_fit;
  countable = omega arith;
}

-- The market of the symbol "AB", as it starts.
abbrev live_start : MarketState fractions eager dummy_writer
live_start = record {
  processors = before ∷ [];
  lookup_table = λ _. negsuc 0;
  global_order_id_counter = 0;
  telemetry_writer = tt;
  current_time_ns = 0;
  midnight_today_ns = 0;
}

poll_reports-panic_iff_example : (poll_reports debug gateway ≡ panic) ↔ (0 + pow2 1 < 1)
poll_reports-panic_iff_example = poll_reports-panic_iff debug 1 gateway reports gateway-Inbound

poll-confirm_all_example :
    poll_confirmed_orders fractions eager dummy_writer
      (live_gateway debug (λ _. 9))
      debug
      2
      (live_start, gateway)
    ≡ (do
      m ← confirm_all fractions eager dummy_writer debug (λ _. 9) live_start reports
      ok (some (m, record gateway { next_seq = 1 })))
poll-confirm_all_example =
    poll-confirm_all fractions eager dummy_writer debug (λ _. 9) 1 2 live_start gateway reports
      gateway-Inbound (omega arith) (omega arith) (omega arith)

-- An order of the strategy, on its way.
abbrev exchange : ExchangeGateway
exchange = live_gateway debug (λ _. 9)

abbrev world : World fractions eager exchange dummy_writer
world = record { gateway = gateway; telemetry_writer = tt; global_order_id = 0 }

abbrev first_order : OrderCommand
first_order = record small_order { order_id = 0 }

abbrev told : ShmGateway
told = record gateway {
  outbound_shm = record outbound {
    mmap = record outbound.mmap {
      head = 1;
      slots =
          update outbound.mmap.slots 0 (Ring.fill 9 (as_bytes first_order) (outbound.mmap.slots 0));
    };
  };
}

abbrev world_after : World fractions eager exchange dummy_writer
world_after = record { gateway = told; telemetry_writer = tt; global_order_id = 1 }

abbrev joined : ItchMessage
joined = add_order 3 9 Side.buy 10 100

abbrev after : SymbolProcessor fractions eager
after = record before {
  order_book = record {
    orders = (9, record { price = 100; quantity = 10; side = Side.buy }) ∷ [];
    bids = (100, 10) ∷ [];
    asks = [];
  };
  order_tracker = 0 ∷ [];
  risk_engine = record before.risk_engine { current_position = pos 100 };
}

handled :
    handle_event fractions eager exchange dummy_writer debug (before, world) joined 5
    ≡ ok (after, world_after)
unfolding handle_event Orderbook.add_order lookup check ◌+ℤ◌ outside_band get_best_ask first
    get_best_bid last insert send_order as_bytes le_bytes
handled = refl

gateway-Outbound : Outbound 1 gateway []
gateway-Outbound = record {
  slots = refl;
  serves = record { counted = refl; served = λ n a near at. absurd cc };
  room = omega arith;
  countable = omega arith;
}

event-Sent_example : Sent fractions eager dummy_writer debug (λ _. 9) 1 gateway told []
event-Sent_example =
    event-Sent fractions eager dummy_writer debug (λ _. 9) 1 before after world world_after joined 5
      [] (new-HasLimits fractions eager dummy_writer exchange 0 (65 ∷ 66 ∷ [])) gateway-Outbound
      handled
