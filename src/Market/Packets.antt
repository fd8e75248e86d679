-- ===== src/Market/Packets.antt =====
-- The entry points of `MarketState`: a packet, the routing of its message, and the polling of fills.
use hft_demo.Itch.{
  ItchMessage, parse_itch_message, add_order, modify_order, trade, delete_order, order_executed,
  order_executed_with_price, stock_directory,
}
use hft_demo.Market.State.{MarketState, processor_at, is_ignored, confirm, handle_stock_directory}
use hft_demo.Market.Processor.{handle_event}
use hft_demo.Market.Traits.{MessageAnalyticsWriter, ExchangeGateway}
use hft_demo.Strategies.{Strategy}
use hft_demo.Prelude.Float.{FloatOps}
use hft_demo.Prelude.Word.{u64_mod, add_word}
use hft_demo.Prelude.Bytes.{index, from_be}
use hft_demo.Prelude.Int.{ℤ}
use hft_demo.Prelude.{
  ℕ, zero, suc, Option, none, some, List, [], ◌∷◌, if◌then◌else◌, Build, Outcome, ok, ◌>>=◌, set,
}

abbrev pub get_locate_from_msg : ItchMessage → ℕ
get_locate_from_msg (add_order stock_locate _ _ _ _) = stock_locate
get_locate_from_msg (modify_order stock_locate _ _) = stock_locate
get_locate_from_msg (trade stock_locate _ _ _ _) = stock_locate
get_locate_from_msg (delete_order stock_locate _) = stock_locate
get_locate_from_msg (order_executed stock_locate _ _ _) = stock_locate
get_locate_from_msg (order_executed_with_price stock_locate _ _ _ _) = stock_locate
get_locate_from_msg (stock_directory stock_locate _) = stock_locate

-- The six bytes of the timestamp, nanoseconds since midnight.
unfoldable pub timestamp : List ℕ → Outcome ℕ
timestamp raw_data = do
  b5 ← index raw_data 5
  b6 ← index raw_data 6
  b7 ← index raw_data 7
  b8 ← index raw_data 8
  b9 ← index raw_data 9
  b10 ← index raw_data 10
  ok (from_be (0 ∷ 0 ∷ b5 ∷ b6 ∷ b7 ∷ b8 ∷ b9 ∷ b10 ∷ []))

module _ (f : FloatOps) (st : Strategy) (wr : MessageAnalyticsWriter) where
  module _ (gw : ExchangeGateway) where
    abbrev pub Running : Type 0
    Running = MarketState f st wr × gw.State

    -- The loop over the fills that the gateway holds, on fuel: none when the fuel runs out first.
    unfoldable pub poll_confirmed_orders : Build → ℕ → Running → Outcome (Option Running)
    unfolding confirm
    poll_confirmed_orders b zero m = ok none
    poll_confirmed_orders b (suc fuel) (m, g) = do
      (g', answer) ← gw.poll_confirmed_orders g
      elim answer [
        | none ↦ ok (some (m, g'))
        | some report ↦ do m' ← confirm f st wr b m report; poll_confirmed_orders b fuel (m', g')
      ]

    -- One of our stocks: its processor handles the message.
    unfoldable pub deliver : Build → Running → ℤ → ItchMessage → Outcome Running
    deliver b (m, g) slot msg = do
      (i, p) ← processor_at f st wr m.processors slot
      (p', w) ←
          handle_event f st gw wr b
            (
              p,
              record {
                gateway = g;
                telemetry_writer = m.telemetry_writer;
                global_order_id = m.global_order_id_counter;
              },
            )
            msg m.current_time_ns
      ok (
        record m {
          processors = set m.processors i p';
          telemetry_writer = w.telemetry_writer;
          global_order_id_counter = w.global_order_id;
        },
        w.gateway,
      )

    abbrev pub dispatch : Build → Running → ItchMessage → Outcome Running
    dispatch b (m, g) msg =
        let slot = m.lookup_table (get_locate_from_msg msg) in
        if is_ignored slot then ok (m, g) else deliver b (m, g) slot msg

    unfoldable pub filter_message_for_symbols : Build → Running → ItchMessage → Outcome Running
    unfolding deliver handle_stock_directory
    filter_message_for_symbols b (m, g) (stock_directory stock_locate symbol) = do
      m' ← handle_stock_directory f st wr m stock_locate symbol
      ok (m', g)
    filter_message_for_symbols b (m, g) (add_order l i s q p) =
        dispatch b (m, g) (add_order l i s q p)
    filter_message_for_symbols b (m, g) (modify_order l i q) =
        dispatch b (m, g) (modify_order l i q)
    filter_message_for_symbols b (m, g) (trade l p q n s) = dispatch b (m, g) (trade l p q n s)
    filter_message_for_symbols b (m, g) (delete_order l i) = dispatch b (m, g) (delete_order l i)
    filter_message_for_symbols b (m, g) (order_executed l i q n) =
        dispatch b (m, g) (order_executed l i q n)
    filter_message_for_symbols b (m, g) (order_executed_with_price l i q p n) =
        dispatch b (m, g) (order_executed_with_price l i q p n)

    abbrev pub filter_parsed : Build → Running → Option ItchMessage → Outcome Running
    filter_parsed b r none = ok r
    filter_parsed b r (some msg) = filter_message_for_symbols b r msg

    unfoldable pub handle_raw_packet : Build → ℕ → Running → List ℕ → Outcome (Option Running)
    unfolding filter_message_for_symbols poll_confirmed_orders timestamp
    handle_raw_packet b fuel (m, g) raw_data = do
      ns_since_midnight ← timestamp raw_data
      now ← add_word u64_mod b m.midnight_today_ns ns_since_midnight
      parsed ← parse_itch_message raw_data
      r ← filter_parsed b (record m { current_time_ns = now }, g) parsed
      poll_confirmed_orders b fuel r
