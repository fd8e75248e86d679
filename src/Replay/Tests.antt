-- ===== src/Replay/Tests.antt =====
-- Runs of the replay.
use hft_demo.Replay.Outside.{replay_outside}
use hft_demo.Replay.Total.{AreWhole, Sends, main-returns}
use hft_demo.Strategies.{simple_mid_point}
use hft_demo.Replay.Whole.{replay-Accounts, Feeds, main-ends}
use mathlib.Core.Path.{subst}
use hft_demo.Replay.Frames.{messages_in, frames, send_all, replay-frames, AreMessages}
use hft_demo.Replay.File.{replay, next_message}
use hft_demo.Replay.Ends.{Finishes}
use hft_demo.Replay.Ledger.{total_at, Books, last_price, send_order-Books}
use hft_demo.Replay.Session.{Admits}
use hft_demo.Replay.Balance.{Accounts}
use hft_demo.Replay.Listing.{Fresh}
use hft_demo.Orderbook.{get_best_ask, get_best_bid, L3OrderBook, new_book}
use hft_demo.Risk.{check, outside_band}
use hft_demo.Prelude.Map.{lookup, first, last, insert}
use hft_demo.Orderbook
use hft_demo.Common.{Side, OrderCommand, OrderSide}
use hft_demo.Prelude.Bytes.{from_be, index}
use hft_demo.Prelude.Text.{from_utf8_lossy, trim, is_whitespace, trim_matches, text_eq}
use hft_demo.Itch.{parse_itch_message, stock_directory, add_order, parse_add_order, ItchMessage}
use hft_demo.Market.{
  MarketState, handle_raw_packet, set_entry, timestamp, filter_message_for_symbols,
  poll_confirmed_orders, handle_stock_directory, handle_event, new,
}
use hft_demo.Prelude.{
  [], ◌∷◌, some, refl, List, ℕ, replicate, ◌++◌, ◌≡◌, ok, debug, arith, inl, Option, ◌∙◌, release,
}
use hft_demo.Prelude.Int.{pos, negsuc, ◌+ℤ◌, ◌*ℤ◌, ◌-ℤ◌, int_laws}
use hft_demo.Prelude.Float.{fractions}
use hft_demo.Market.Mock.{eager, telemetry_log, start, before}
use hft_demo.Replay.Main.{main}
use hft_demo.Ring.{Slot}
use hft_demo.Replay.Gateway.{
  replay_gateway, new_gateway, ReplayGateway, send_order, telemetry_writer,
}

-- The directory message of the stock "AB", locate 3, and an order to buy it.
abbrev listing : List ℕ
listing = 82 ∷ 0 ∷ 3 ∷ (replicate 8 0 ++ (65 ∷ 66 ∷ (replicate 6 32 ++ replicate 20 0)))

abbrev adding : List ℕ
adding = 65 ∷ 0 ∷ 3 ∷ (replicate 15 0 ++ (9 ∷ 66 ∷ 0 ∷ 0 ∷ 0 ∷ 10 ∷ (replicate 11 0 ++ (100 ∷ []))))

abbrev listed_market : MarketState fractions eager telemetry_log
listed_market = record start {
  processors = record before { stock_locate = 3 } ∷ [];
  lookup_table = set_entry (λ _. negsuc 0) 3 (pos 0);
  current_time_ns = 86400000000000;
}

parsed_listing : parse_itch_message listing ≡ ok (some (stock_directory 3 (65 ∷ 66 ∷ [])))
unfolding parse_itch_message from_utf8_lossy trim from_be is_whitespace
    hft_demo.Itch.parse_stock_directory
parsed_listing = refl

took_listing :
    handle_raw_packet fractions eager telemetry_log
      (replay_gateway debug)
      debug
      2
      (start, new_gateway)
      listing
    ≡ ok (some (listed_market, new_gateway))
unfolding handle_raw_packet timestamp filter_message_for_symbols poll_confirmed_orders
    handle_stock_directory trim trim_matches is_whitespace from_be index text_eq
took_listing = rw parsed_listing refl

-- The market and the exchange behind the order: the strategy has bought, and was told of the fill.
abbrev bought_market : MarketState fractions eager telemetry_log
bought_market = record listed_market {
  processors =
      record before {
        stock_locate = 3;
        order_book = record {
          orders = (9, record { price = 100; quantity = 10; side = Side.buy }) ∷ [];
          bids = (100, 10) ∷ [];
          asks = [];
        };
        order_tracker = [];
        risk_engine = record before.risk_engine { current_position = pos 100 };
      }
      ∷ [];
  global_order_id_counter = 1;
}

abbrev bought_gateway : ReplayGateway
bought_gateway = record {
  pending_fills = [];
  cash_balances = (3, negsuc 499) ∷ [];
  positions = (3, pos 100) ∷ [];
  last_prices = (3, 5) ∷ [];
}

parsed_adding : parse_itch_message adding ≡ ok (some (add_order 3 9 Side.buy 10 100))
unfolding parse_itch_message from_be parse_add_order
parsed_adding = refl

took_adding :
    handle_raw_packet fractions eager telemetry_log
      (replay_gateway debug)
      debug
      2
      (listed_market, new_gateway)
      adding
    ≡ ok (some (bought_market, bought_gateway))
unfolding handle_raw_packet timestamp filter_message_for_symbols poll_confirmed_orders index
    handle_event Orderbook.add_order lookup check ◌*ℤ◌ ◌+ℤ◌ ◌-ℤ◌ outside_band get_best_ask first
    get_best_bid last insert from_be send_order
took_adding = rw parsed_adding refl

listing-Fresh : Fresh fractions eager telemetry_log debug start new_gateway 3 (65 ∷ 66 ∷ [])
unfolding lookup
listing-Fresh = record {
  unused = λ i q at. ground arith;
  untraded = refl;
  flat = λ i p at here. (ground arith, ground arith);
}

-- The file of the two messages, and the first byte of a third.
abbrev packets : List (List ℕ)
packets = listing ∷ adding ∷ []

replay-frames_example :
    replay fractions eager telemetry_log
      (replay_gateway debug)
      debug
      2
      3
      (frames packets ++ (0 ∷ []))
      0
      0
      (start, new_gateway)
    ≡ send_all fractions eager telemetry_log
        (replay_gateway debug)
        debug
        2
        packets
        0
        (start, new_gateway)
replay-frames_example =
    replay-frames fractions eager telemetry_log (replay_gateway debug) debug 2 3 [] packets (0 ∷ [])
      0 (start, new_gateway) (omega arith, omega arith, (omega arith, omega arith, tt))
      (inl (omega arith)) (omega arith)

abbrev bid : OrderCommand
bid = record { symbol_locate = 3; order_id = 0; price = 5; quantity = 100; side = OrderSide.buy }

new-Books : Books new_gateway [] []
unfolding total_at lookup last_price
new-Books = record { fills = refl; positions = λ l. refl; balances = λ l. refl; prices = λ l. refl }

send_order-Books_example :
    (g : ReplayGateway) × (send_order debug new_gateway bid ≡ ok g) × Books g [] (bid ∷ [])
unfolding total_at
send_order-Books_example =
    send_order-Books debug new_gateway [] [] bid new-Books (omega arith) (omega arith)
      (omega int_laws, omega int_laws) (omega int_laws, omega int_laws)

-- The whole run on the file.
abbrev Admitted : MarketState fractions eager telemetry_log → Option ItchMessage → Type 0
Admitted m parsed = Admits fractions eager telemetry_log debug m new_gateway parsed

listing-Admitted :
    (parsed : Option ItchMessage) → parse_itch_message listing ≡ ok parsed → Admitted start parsed
listing-Admitted parsed e =
    let same : some (stock_directory 3 (65 ∷ 66 ∷ [])) ≡ parsed =
      ground (arith, parsed_listing, e) in
    subst (Admitted start) same listing-Fresh

adding-Admitted :
    (parsed : Option ItchMessage)
    → parse_itch_message adding ≡ ok parsed
    → Admitted listed_market parsed
adding-Admitted parsed e =
    let same : some (add_order 3 9 Side.buy 10 100) ≡ parsed = ground (arith, parsed_adding, e) in
    subst (Admitted listed_market) same tt

packets-Feeds : Feeds fractions eager telemetry_log debug 2 start new_gateway packets
packets-Feeds = (
  listing-Admitted,
  λ m g e.
      let same : (listed_market ≡ m) × (new_gateway ≡ g) = ground (arith, took_listing, e) in
      subst (λ g. Feeds fractions eager telemetry_log debug 2 m g (adding ∷ [])) same.1
        (subst (λ m. Feeds fractions eager telemetry_log debug 2 m new_gateway (adding ∷ [])) same.0
          (adding-Admitted, λ m g e. tt)),
)

sent_packets :
    send_all fractions eager telemetry_log
      (replay_gateway debug)
      debug
      2
      packets
      0
      (start, new_gateway)
    ≡ ok (some (2, (bought_market, bought_gateway)))
unfolding send_all
sent_packets = rw (took_listing, took_adding) refl

replay-Accounts_example :
    Accounts fractions eager telemetry_log debug bought_market bought_gateway
    × (bought_gateway.pending_fills ≡ [])
unfolding new
replay-Accounts_example =
    replay-Accounts fractions eager telemetry_log debug 2 3 86401 2 ((65 ∷ 66 ∷ []) ∷ []) 0 []
      packets (0 ∷ []) start bought_market bought_gateway refl
      (omega arith, omega arith, (omega arith, omega arith, tt)) (inl (omega arith)) (omega arith)
      packets-Feeds
      (replay-frames fractions eager telemetry_log (replay_gateway debug) debug 2 3 [] packets
          (0 ∷ []) 0 (start, new_gateway) (omega arith, omega arith, (omega arith, omega arith, tt))
          (inl (omega arith)) (omega arith)
        ∙ sent_packets)

abbrev blank : Slot
blank = record { timestamp = 0; len = 0; bytes = [] }

main-ends_example :
    Finishes fractions
      (simple_mid_point fractions)
      (telemetry_writer debug (λ _. 9))
      debug
      1
      (main fractions debug (λ _. 9) 86401 (λ _. blank) 2 42 (0 ∷ 39 ∷ listing))
unfolding messages_in next_message from_be
main-ends_example =
    main-ends fractions debug (λ _. 9) 86401 (λ _. blank) 2 42 (0 ∷ 39 ∷ listing) (omega arith)
      (omega arith) (omega arith)

-- The directory message of a target symbol, at the locate of the order to buy.
abbrev apple : List ℕ
apple = 82 ∷ 0 ∷ 3 ∷ (replicate 8 0 ++ (65 ∷ 65 ∷ 80 ∷ 76 ∷ (replicate 4 32 ++ replicate 20 0)))

both-AreMessages : AreMessages (apple ∷ adding ∷ [])
both-AreMessages = (omega arith, omega arith, (omega arith, omega arith, tt))

both-AreWhole : AreWhole (apple ∷ adding ∷ [])
both-AreWhole = ((omega arith, omega arith), ((omega arith, omega arith), tt))

main-returns_example :
    Sends fractions
      (simple_mid_point fractions)
      (replay_gateway release)
      (telemetry_writer release (λ _. 9))
      (replay_outside fractions (λ _. 9) 20)
      2
      (main fractions release (λ _. 9) 86401 (λ _. blank) 2 3 (frames (apple ∷ adding ∷ []) ++ []))
main-returns_example =
    main-returns fractions (λ _. 9) 86401 (λ _. blank) 2 3 (apple ∷ adding ∷ []) [] both-AreMessages
      both-AreWhole (inl (omega arith)) (omega arith) (omega arith) (omega arith)
