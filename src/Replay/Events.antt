-- ===== src/Replay/Events.antt =====
-- Runs of events with the replay's own strategy, exchange and ring.
use hft_demo.Prelude.Mask.{pow2}
use hft_demo.Ring.Create.{producer}
use hft_demo.Market.Safety.{new-HasLimits}
use hft_demo.Market.Total.{handle_event-Returns}
use hft_demo.Replay.Ready.{
  HasMargin, simple_mid_point-Answers, replay_gateway-Serves, replay_event-Returns,
}
use hft_demo.Orderbook.Prices.{PricesFit, add_order-PricesFit, new_book-PricesFit}
use hft_demo.Orderbook.Invariant.{WellFormed, add_order-WellFormed, new_book-WellFormed}
use hft_demo.Market.Feed.{Respects, Ready}
use hft_demo.Replay.Outside.{HasRoom, telemetry-Gives}
use hft_demo.Strategies.{simple_mid_point, SimpleMidPoint, Strategy, new_mid_point}
use mathlib.Core.Path.{subst}
use hft_demo.Orderbook.{get_best_ask, get_best_bid, L3OrderBook, new_book}
use hft_demo.Prelude.Map.{lookup, insert}
use hft_demo.Orderbook
use hft_demo.Common.{Side}
use hft_demo.Itch.{add_order}
use hft_demo.Market.{handle_event, SymbolProcessor, World, MessageAnalyticsWriter, new_processor}
use hft_demo.Prelude.{[], ◌∷◌, refl, ◌≡◌, ok, debug, arith, ◌*◌}
use hft_demo.Prelude.Int.{int_laws}
use hft_demo.Prelude.Float.{fractions}
use hft_demo.Ring.{Slot}
use hft_demo.Replay.Gateway.{replay_gateway, new_gateway, telemetry_writer}

abbrev blank : Slot
blank = record { timestamp = 0; len = 0; bytes = [] }

-- A book with one order to sell, the program's own processor with that book, and the replay's outside at
-- its start.
abbrev offered : L3OrderBook
offered = record {
  orders = (8, record { price = 102; quantity = 10; side = Side.sell }) ∷ [];
  bids = [];
  asks = (102, 10) ∷ [];
}

offering : Orderbook.add_order debug new_book 8 Side.sell 102 10 ≡ ok offered
unfolding Orderbook.add_order lookup insert
offering = refl

offered-WellFormed : WellFormed offered
unfolding lookup
offered-WellFormed =
    let (book, added, w) =
      add_order-WellFormed debug new_book 8 Side.sell 102 10 new_book-WellFormed refl (omega arith)
        (omega arith) in
    let same : book ≡ offered = ground (arith, added, offering) in subst WellFormed same w

offered-PricesFit : PricesFit offered
unfolding lookup
offered-PricesFit =
    add_order-PricesFit debug new_book offered new_book-PricesFit 8 Side.sell 102 10 (omega arith)
      (omega arith) offering

abbrev real_strategy : Strategy
real_strategy = simple_mid_point fractions

abbrev real_writer : MessageAnalyticsWriter
real_writer = telemetry_writer debug (λ _. 9)

abbrev fresh_strategy : SimpleMidPoint fractions
fresh_strategy = new_mid_point fractions (8, 10)

abbrev offered_to : SymbolProcessor fractions real_strategy
offered_to =
    record (new_processor fractions real_strategy real_writer fresh_strategy (65 ∷ 66 ∷ [])) {
      order_book = offered;
    }

abbrev real_world : World fractions real_strategy (replay_gateway debug) real_writer
real_world = record {
  gateway = new_gateway;
  telemetry_writer = producer (64 * pow2 2) (λ _. blank);
  global_order_id = 0;
}

offered_to-Ready : Ready fractions real_strategy offered_to
offered_to-Ready = record {
  book = offered-WellFormed;
  prices = offered-PricesFit;
  risk =
      (new-HasLimits fractions real_strategy real_writer (replay_gateway debug) fresh_strategy
        (65 ∷ 66 ∷ [])).safe;
}

bidding-Respects : Respects fractions real_strategy offered_to (add_order 0 9 Side.buy 90 100)
unfolding lookup
bidding-Respects = (refl, omega arith, omega arith, omega arith)

new_gateway-HasMargin : HasMargin new_gateway 0
unfolding lookup
new_gateway-HasMargin = record {
  long = omega int_laws;
  short = omega int_laws;
  rich = omega int_laws;
  poor = omega int_laws;
}

opened-HasRoom : HasRoom 2 1 real_world.telemetry_writer
opened-HasRoom = record {
  counts = refl;
  mapped = refl;
  room = omega arith;
  countable = omega arith;
}

handle_event-Returns_example :
    (p : SymbolProcessor fractions real_strategy) × (w : World fractions real_strategy
      (replay_gateway debug)
      real_writer)
    × (handle_event fractions real_strategy
          (replay_gateway debug)
          real_writer
          debug
          (offered_to, real_world)
          (add_order 0 9 Side.buy 90 100)
          5
        ≡ ok (p, w))
    × Ready fractions real_strategy p
handle_event-Returns_example =
    handle_event-Returns fractions real_strategy (replay_gateway debug) real_writer debug offered_to
      real_world (add_order 0 9 Side.buy 90 100) 5 offered_to-Ready bidding-Respects (omega arith)
      (simple_mid_point-Answers fractions debug fresh_strategy (omega arith))
      (replay_gateway-Serves debug new_gateway 0 new_gateway-HasMargin)
      (λ t.
        let (r, written, _) = telemetry-Gives fractions (λ _. 9) 2 debug 0 _ t opened-HasRoom in
        (r, written))

replay_event-Returns_example :
    (p : SymbolProcessor fractions real_strategy) × (w : World fractions real_strategy
      (replay_gateway debug)
      real_writer)
    × (handle_event fractions real_strategy
          (replay_gateway debug)
          real_writer
          debug
          (offered_to, real_world)
          (add_order 0 9 Side.buy 90 100)
          5
        ≡ ok (p, w))
    × Ready fractions real_strategy p
replay_event-Returns_example =
    replay_event-Returns fractions debug (λ _. 9) 2 offered_to real_world
      (add_order 0 9 Side.buy 90 100) 5 offered_to-Ready bidding-Respects (omega arith)
      (omega arith) new_gateway-HasMargin opened-HasRoom
