-- ===== src/Market/Orders.antt =====
-- What reaches the exchange: the orders of one event, and the risk engine's answer to them.
use hft_demo.Risk.Position.{check-fail}
use hft_demo.Prelude.Word.{add_word, u64_mod}
use hft_demo.Risk.{check, pass, LocalRisk, RiskDecision, fail}
use hft_demo.Orderbook.{get_best_bid, get_best_ask}
use hft_demo.Common.{OrderCommand}
use hft_demo.Itch.{
  ItchMessage, add_order, modify_order, trade, delete_order, order_executed,
  order_executed_with_price, stock_directory,
}
use hft_demo.Market.{
  ExchangeGateway, apply_message, MessageAnalyticsWriter, execute, send_telemetry, SymbolProcessor,
  report, midpoint, World, consult, submit, route, insert_id, handle_event,
}
use hft_demo.Strategies.{Strategy}
use hft_demo.Prelude.Float.{FloatOps}
use hft_demo.Prelude.{
  ℕ, Build, ◌≡◌, ok, arith, ◌⊎◌, some, bind-ok, Option, none, inl, Outcome-cases, inr,
}

module _ (f : FloatOps) (st : Strategy) where
  -- A message changes the book and the ticker, and nothing else.
  pub apply_message-keeps :
      (b : Build) (p p' : SymbolProcessor f st) (msg : ItchMessage)
      → apply_message f st b p msg ≡ ok p'
      → p' ≡ record p { order_book = p'.order_book; ticker = p'.ticker }
  unfolding apply_message execute
  apply_message-keeps b p p' (add_order l i s q c) e = ground arith
  apply_message-keeps b p p' (modify_order l i q) e = ground arith
  apply_message-keeps b p p' (trade l c q n s) e = ground arith
  apply_message-keeps b p p' (delete_order l i) e = ground arith
  apply_message-keeps b p p' (order_executed l i q n) e = ground arith
  apply_message-keeps b p p' (order_executed_with_price l i q c n) e = ground arith
  apply_message-keeps b p p' (stock_directory l s) e = ground arith

  module _ (gw : ExchangeGateway) (wr : MessageAnalyticsWriter) where
    send_telemetry-keeps :
        (b : Build) (p p' : SymbolProcessor f st) (w w' : World f st gw wr) (now : ℕ)
        → send_telemetry f st gw wr b (p, w) now ≡ ok (p', w')
        → (p' ≡ record p { last_midpoint = p'.last_midpoint })
          × (w' ≡ record w { telemetry_writer = w'.telemetry_writer })
    unfolding send_telemetry report midpoint
    send_telemetry-keeps b p p' w w' now e = ground arith

    -- One order went out: the answer of the strategy to the best prices, under the next id and the
    -- processor's locate, after the risk engine passed it; its id is tracked, the counter moved on.
    pub record SendsOne (b : Build) (p p' : SymbolProcessor f st) (w w' : World f st gw wr)
        : Type 0 where
      pub answer : OrderCommand
      pub asked :
          st.on_book_update b p.strategy (get_best_bid p'.order_book) (get_best_ask p'.order_book)
          ≡ ok (p'.strategy, some answer)
      pub passed :
          check f b p.risk_engine
            (record answer { symbol_locate = p.stock_locate })
            (get_best_bid p'.order_book)
            (get_best_ask p'.order_book)
          ≡ ok (p'.risk_engine, pass)
      pub sent :
          gw.send_order w.gateway
            (record answer { symbol_locate = p.stock_locate; order_id = w.global_order_id })
          ≡ ok w'.gateway
      pub tracked : p'.order_tracker ≡ insert_id w.global_order_id p.order_tracker
      pub counted : add_word u64_mod b w.global_order_id 1 ≡ ok w'.global_order_id

    -- No order went out: neither the exchange nor the engine, the tracker or the counter changed.
    pub record SendsNone (p p' : SymbolProcessor f st) (w w' : World f st gw wr) : Type 0 where
      pub same_gateway : w'.gateway ≡ w.gateway
      pub same_risk : p'.risk_engine ≡ p.risk_engine
      pub same_tracker : p'.order_tracker ≡ p.order_tracker
      pub same_counter : w'.global_order_id ≡ w.global_order_id

    abbrev pub Sends :
        Build
        → SymbolProcessor f st
        → SymbolProcessor f st
        → World f st gw wr
        → World f st gw wr
        → Type 0
    Sends b p p' w w' = SendsOne b p p' w w' ⊎ SendsNone p p' w w'

    -- Consulting the strategy leaves the book and the names alone.
    abbrev Frame : SymbolProcessor f st → SymbolProcessor f st → Type 0
    Frame p p' = p' ≡ record p {
      strategy = p'.strategy;
      order_tracker = p'.order_tracker;
      risk_engine = p'.risk_engine;
    }

    abbrev Consulted :
        Build
        → SymbolProcessor f st
        → SymbolProcessor f st
        → World f st gw wr
        → World f st gw wr
        → Type 0
    Consulted b p p' w w' =
        Frame p p' × (w'.telemetry_writer ≡ w.telemetry_writer) × Sends b p p' w w'

    -- The order that the strategy answered with, after the engine's decision.
    routed :
        (b : Build) (p p' : SymbolProcessor f st) (w w' : World f st gw wr) (s : st.State)
        (answer : OrderCommand) (r : LocalRisk f) (d : RiskDecision)
        → let cmd : OrderCommand = record answer { symbol_locate = p.stock_locate } in
          st.on_book_update b p.strategy (get_best_bid p.order_book) (get_best_ask p.order_book)
            ≡ ok (s, some answer)
          → check f b p.risk_engine cmd (get_best_bid p.order_book) (get_best_ask p.order_book)
            ≡ ok (r, d)
          → route f st gw wr b (record p { strategy = s }, w) cmd (r, d) ≡ ok (p', w')
          → Consulted b p p' w w'
    unfolding route
    routed b p p' w w' s answer r (fail reason) asked checked e =
        let same : r ≡ p.risk_engine = check-fail f b p.risk_engine r _ _ _ reason checked in
        ground (arith, same)
    routed b p p' w w' s answer r pass asked checked e =
        let cmd : OrderCommand = record answer {
          symbol_locate = p.stock_locate;
          order_id = w.global_order_id;
        } in
        let counted = Outcome-cases (add_word u64_mod b w.global_order_id 1) in
        let sent = Outcome-cases (gw.send_order w.gateway cmd) in
        (
          ground arith,
          ground arith,
          inl (record {
            answer = answer;
            asked = ground (arith, asked);
            passed = ground (arith, checked);
            sent = ground (arith, sent);
            tracked = ground arith;
            counted = ground (arith, counted);
          }),
        )

    answered :
        (b : Build) (p p' : SymbolProcessor f st) (w w' : World f st gw wr) (s : st.State)
        (answer : Option OrderCommand)
        → st.on_book_update b p.strategy (get_best_bid p.order_book) (get_best_ask p.order_book)
          ≡ ok (s, answer)
        → submit f st gw wr b (record p { strategy = s }, w) answer ≡ ok (p', w')
        → Consulted b p p' w w'
    unfolding submit
    answered b p p' w w' s none asked e = ground arith
    answered b p p' w w' s (some answer) asked e =
        let ((r, d), checked, e') = bind-ok _ _ e in
        routed b p p' w w' s answer r d asked checked e'

    consult-Sends :
        (b : Build) (p p' : SymbolProcessor f st) (w w' : World f st gw wr)
        → consult f st gw wr b (p, w) ≡ ok (p', w')
        → Consulted b p p' w w'
    unfolding consult
    consult-Sends b p p' w w' e =
        let ((s, answer), asked, e') = bind-ok _ _ e in answered b p p' w w' s answer asked e'

    -- What else an event does: the book and the ticker are those that the message leaves, and the
    -- names stay.
    pub record Follows (b : Build) (p p' : SymbolProcessor f st) (msg : ItchMessage) : Type 0 where
      pub after : SymbolProcessor f st
      pub applied : apply_message f st b p msg ≡ ok after
      pub same_book : p'.order_book ≡ after.order_book
      pub same_ticker : p'.ticker ≡ after.ticker
      pub same_symbol : p'.symbol ≡ p.symbol
      pub same_locate : p'.stock_locate ≡ p.stock_locate

    -- The message before the consultation and the telemetry after it do not matter to what is sent.
    Sends-widen :
        (b : Build) (p q p1 p' : SymbolProcessor f st) (w w1 w' : World f st gw wr)
        → q ≡ record p { order_book = q.order_book; ticker = q.ticker }
        → p' ≡ record p1 { last_midpoint = p'.last_midpoint }
        → w' ≡ record w1 { telemetry_writer = w'.telemetry_writer }
        → Sends b q p1 w w1
        → Sends b p p' w w'
    Sends-widen b p q p1 p' w w1 w' kept told wrote (inl one) = inl (record {
      answer = one.answer;
      asked = ground (arith, kept, told, one.asked);
      passed = ground (arith, kept, told, one.passed);
      sent = ground (arith, kept, wrote, one.sent);
      tracked = ground (arith, kept, told, one.tracked);
      counted = ground (arith, wrote, one.counted);
    })
    Sends-widen b p q p1 p' w w1 w' kept told wrote (inr none_sent) = inr (record {
      same_gateway = ground (arith, wrote, none_sent.same_gateway);
      same_risk = ground (arith, kept, told, none_sent.same_risk);
      same_tracker = ground (arith, kept, told, none_sent.same_tracker);
      same_counter = ground (arith, wrote, none_sent.same_counter);
    })

    -- Whatever the strategy, the exchange and the state: an event that is handled sends at most one
    -- order. If it sends one, that is the answer of the strategy to the best prices of the book after
    -- the message, it passed the risk engine at these prices, and it goes out under the next id, which
    -- is tracked. If it sends none, the engine's state, the tracker and the counter are unchanged.
    pub handle_event-Sends :
        (b : Build) (p p' : SymbolProcessor f st) (w w' : World f st gw wr) (msg : ItchMessage)
        (now : ℕ)
        → handle_event f st gw wr b (p, w) msg now ≡ ok (p', w')
        → Sends b p p' w w' × Follows b p p' msg
    unfolding handle_event
    handle_event-Sends b p p' w w' msg now e =
        let (q, applied, e1) = bind-ok (apply_message f st b p msg) _ e in
        let ((p1, w1), consulted, e2) = bind-ok (consult f st gw wr b (q, w)) _ e1 in
        let kept = apply_message-keeps b p q msg applied in
        let (frame, written, sends) = consult-Sends b q p1 w w1 consulted in
        let (told, wrote) = send_telemetry-keeps b p1 p' w1 w' now e2 in
        (
          Sends-widen b p q p1 p' w w1 w' kept told wrote sends,
          record {
            after = q;
            applied = applied;
            same_book = ground (arith, frame, told);
            same_ticker = ground (arith, frame, told);
            same_symbol = ground (arith, frame, told, kept);
            same_locate = ground (arith, frame, told, kept);
          },
        )
