-- ===== src/Market/Total.antt =====
-- Events, in both builds, where the feed and the outside keep to their contracts.
use hft_demo.Itch.{ItchMessage}
use hft_demo.Prelude.Int.{ℤ, ◌*ℤ◌, pos, mul-within, int_laws, ◌+ℤ◌}
use hft_demo.Prelude.Word.{
  u32_mod, u64_mod, add_word-ok, mul_signed, i64_half, signed_result-ok, add_signed,
}
use hft_demo.Risk.{LocalRisk, RiskDecision, fail, pass}
use hft_demo.Orderbook.Prices.{IsSound, best_bid-lt, best_ask-lt, best_bid-light, best_ask-light}
use hft_demo.Orderbook.{L3OrderBook, get_best_bid, get_best_ask}
use hft_demo.Risk.Position.{IsSafe, check-IsSafe}
use hft_demo.Prelude.{
  Build, ℕ, ◌<◌, ◌≡◌, Option, Outcome, some, ◌+◌, ok, arith, ◌^◌, if◌then◌else◌, ltb, ◌&&◌, ◌/◌,
  refl, none, Bool-cases, not, ◌==◌, inl, inr, Returns,
}
use hft_demo.Market.{
  ExchangeGateway, MessageAnalyticsWriter, submit, SymbolProcessor, route, midpoint, report,
  consult, World, price_or_zero, insert_id, send_telemetry, handle_event,
}
use hft_demo.Strategies.{Strategy, Quote}
use hft_demo.Prelude.Float.{FloatOps}
use hft_demo.Market.Feed.{
  Answers, IsModest, IsQuoted, IsBalanced, Serves, Ready, Respects, apply_message-Applies,
}
use hft_demo.Common.{payload_bytes, OrderCommand, TelemetryPayload}

module _ (f : FloatOps) (st : Strategy) (gw : ExchangeGateway) (wr : MessageAnalyticsWriter) where
  -- What the consultation comes to: the book, the names and the sink stay, the engine is safe and the
  -- exchange's reports are in bounds.
  record Consults (p p' : SymbolProcessor f st) (w w' : World f st gw wr) : Type 0 where
    same_book : p'.order_book ≡ p.order_book
    same_locate : p'.stock_locate ≡ p.stock_locate
    same_writer : w'.telemetry_writer ≡ w.telemetry_writer
    safe : IsSafe f p'.risk_engine
    balanced : IsBalanced gw w'.gateway p.stock_locate

  abbrev Consultation :
      SymbolProcessor f st
      → World f st gw wr
      → Outcome (SymbolProcessor f st × World f st gw wr)
      → Type 0
  Consultation p w r =
      (p' : SymbolProcessor f st) × (w' : World f st gw wr) × (r ≡ ok (p', w')) × Consults p p' w w'

  route-Returns :
      (b : Build) (p : SymbolProcessor f st) (w : World f st gw wr) (s : st.State)
      (cmd : OrderCommand) (r : LocalRisk f) (d : RiskDecision)
      → IsSafe f r
      → w.global_order_id + 1 < u64_mod
      → Serves gw w.gateway p.stock_locate
      → cmd.symbol_locate ≡ p.stock_locate
      → IsModest (some cmd)
      → Consultation p w (route f st gw wr b (record p { strategy = s }, w) cmd (r, d))
  unfolding route
  route-Returns b p w s cmd r (fail reason) safe ids serves here modest = (
    record p { strategy = s; risk_engine = r },
    w,
    refl,
    record {
      same_book = refl;
      same_locate = refl;
      same_writer = refl;
      safe = safe;
      balanced = serves.balanced;
    },
  )
  route-Returns b p w s cmd r pass safe ids serves here modest =
      let (g, taken, balanced) =
        serves.takes (record cmd { order_id = w.global_order_id }) here modest.0 modest.1 in
      (
        record p {
          strategy = s;
          risk_engine = r;
          order_tracker = insert_id w.global_order_id p.order_tracker;
        },
        record w { gateway = g; global_order_id = w.global_order_id + 1 },
        rw (add_word-ok u64_mod b w.global_order_id 1 ids, taken) refl,
        record {
          same_book = refl;
          same_locate = refl;
          same_writer = refl;
          safe = safe;
          balanced = balanced;
        },
      )

  submit-Returns :
      (b : Build) (p : SymbolProcessor f st) (w : World f st gw wr) (s : st.State)
      (answer : Option OrderCommand)
      → IsSafe f p.risk_engine
      → w.global_order_id + 1 < u64_mod
      → Serves gw w.gateway p.stock_locate
      → IsModest answer
      → Consultation p w (submit f st gw wr b (record p { strategy = s }, w) answer)
  unfolding submit
  submit-Returns b p w s none safe ids serves modest = (
    record p { strategy = s },
    w,
    refl,
    record {
      same_book = refl;
      same_locate = refl;
      same_writer = refl;
      safe = safe;
      balanced = serves.balanced;
    },
  )
  submit-Returns b p w s (some cmd) safe ids serves modest =
      let cmd' : OrderCommand = record cmd { symbol_locate = p.stock_locate } in
      let (r, d, checked, leaves) =
        check-IsSafe f b p.risk_engine cmd' (get_best_bid p.order_book) (get_best_ask p.order_book)
          safe in
      rw checked (route-Returns b p w s cmd' r d leaves.0 ids serves refl modest)

  quoted :
      (q : Quote)
      → ((price qty : ℕ) → q ≡ some (price, qty) → price < u32_mod)
      → ((price qty : ℕ) → q ≡ some (price, qty) → qty < 2 ^ 31)
      → IsQuoted q
  quoted none low light = tt
  quoted (some (price, qty)) low light = (low price qty refl, light price qty refl)

  consult-Returns :
      (b : Build) (p : SymbolProcessor f st) (w : World f st gw wr)
      → IsSound p.order_book
      → IsSafe f p.risk_engine
      → w.global_order_id + 1 < u64_mod
      → Answers st b p.strategy
      → Serves gw w.gateway p.stock_locate
      → Consultation p w (consult f st gw wr b (p, w))
  unfolding consult
  consult-Returns b p w (well, fit) safe ids answers serves =
      let bid = get_best_bid p.order_book in
      let ask = get_best_ask p.order_book in
      let (s, answer, asked, modest) =
        answers bid ask
          (quoted bid (best_bid-lt p.order_book well fit) (best_bid-light p.order_book well fit))
          (quoted ask (best_ask-lt p.order_book well fit) (best_ask-light p.order_book well fit)) in
      rw asked (submit-Returns b p w s answer safe ids serves modest)

  price-lt :
      (q : Quote)
      → ((price qty : ℕ) → q ≡ some (price, qty) → price < u32_mod)
      → price_or_zero f st gw wr q < u32_mod
  price-lt none low = omega arith
  price-lt (some (price, qty)) low = low price qty refl

  midpoint-Returns :
      (b : Build) (book : L3OrderBook)
      → IsSound book
      → (mid : ℕ) × (midpoint f st gw wr b book ≡ ok mid) × (mid < u32_mod)
  unfolding midpoint
  midpoint-Returns b book (w, fit) =
      let bid : ℕ = price_or_zero f st gw wr (get_best_bid book) in
      let ask : ℕ = price_or_zero f st gw wr (get_best_ask book) in
      let low = price-lt (get_best_bid book) (best_bid-lt book w fit) in
      let low' = price-lt (get_best_ask book) (best_ask-lt book w fit) in
      (
        (if ltb 0 bid && ltb 0 ask then (bid + ask) / 2 else 0),
        ground (arith, low, low'),
        ground (arith, low, low'),
      )

  report-Returns :
      (b : Build) (p : SymbolProcessor f st) (w : World f st gw wr) (now mid : ℕ)
      → mid < u32_mod
      → IsBalanced gw w.gateway p.stock_locate
      → ((t : TelemetryPayload) → Returns (wr.write w.telemetry_writer (payload_bytes t)))
      → (w' : World f st gw wr) × (report f st gw wr b (p, w) now mid
          ≡ ok (record p { last_midpoint = mid }, w'))
  unfolding report
  report-Returns b p w now mid small x writes =
      let position : ℤ = gw.get_position w.gateway p.stock_locate in
      let cash : ℤ = gw.get_cash_balance w.gateway p.stock_locate in
      let worth : ℤ = position *ℤ pos mid in
      let (top, low) =
        mul-within position mid (2 ^ 30) (2 ^ 32) x.long x.short (omega (arith, small)) in
      let valued : mul_signed i64_half b position (pos mid) ≡ ok worth =
        signed_result-ok i64_half b worth (omega (int_laws, top)) (omega (int_laws, low)) in
      let summed : add_signed i64_half b cash worth ≡ ok (cash +ℤ worth) =
        signed_result-ok i64_half b (cash +ℤ worth) (omega (int_laws, top, x.rich))
          (omega (int_laws, low, x.poor)) in
      let (writer, written) = writes (record {
        timestamp_ns = now;
        realised_pnl = cash +ℤ worth;
        midpoint_px = mid;
        position = position;
        latency_ns = 30;
        locate_id = p.stock_locate;
      }) in
      (record w { telemetry_writer = writer }, rw (valued, summed, written) refl)

  telemetry-Returns :
      (b : Build) (p : SymbolProcessor f st) (w : World f st gw wr) (now : ℕ)
      → IsSound p.order_book
      → IsBalanced gw w.gateway p.stock_locate
      → ((t : TelemetryPayload) → Returns (wr.write w.telemetry_writer (payload_bytes t)))
      → (mid : ℕ) × (w' : World f st gw wr) × (send_telemetry f st gw wr b (p, w) now
          ≡ ok (record p { last_midpoint = mid }, w'))
  unfolding send_telemetry
  telemetry-Returns b p w now sound balanced writes =
      let (mid, found, small) = midpoint-Returns b p.order_book sound in
      let (w', told) = report-Returns b p w now mid small balanced writes in
      elim (Bool-cases (ltb 0 mid && not (mid == p.last_midpoint))) [
        | inl changed ↦ (mid, w', rw (found, changed) told)
        | inr same ↦ (p.last_midpoint, w, rw (found, same) refl)
      ]

  -- From a processor that is ready, a message that respects the contract of the feed is handled
  -- without a panic in both builds, and leaves a processor that is ready: while ids are left in u64,
  -- the strategy answers the best prices of a sound book, if with an order then with one of at most
  -- 1000 shares at a price in u32, the exchange takes such orders for the stock and reports balances
  -- in bounds, and the sink takes a telemetry record.
  pub handle_event-Returns :
      (b : Build) (p : SymbolProcessor f st) (w : World f st gw wr) (msg : ItchMessage) (now : ℕ)
      → Ready f st p
      → Respects f st p msg
      → w.global_order_id + 1 < u64_mod
      → Answers st b p.strategy
      → Serves gw w.gateway p.stock_locate
      → ((t : TelemetryPayload) → Returns (wr.write w.telemetry_writer (payload_bytes t)))
      → (p' : SymbolProcessor f st) × (w' : World f st gw wr) × (handle_event f st gw wr b
            (p, w)
            msg
            now
          ≡ ok (p', w'))
        × Ready f st p'
  unfolding handle_event
  handle_event-Returns b p w msg now ready respects ids answers serves writes =
      let (book, ticker, applied, sound) =
        apply_message-Applies f st b p msg (ready.book, ready.prices) respects in
      let q : SymbolProcessor f st = record p { order_book = book; ticker = ticker } in
      let (p1, w1, consulted, c) = consult-Returns b q w sound ready.risk ids answers serves in
      let sound1 : IsSound p1.order_book = rw c.same_book sound in
      let balanced : IsBalanced gw w1.gateway p1.stock_locate = rw c.same_locate c.balanced in
      let (mid, w', told) =
        telemetry-Returns b p1 w1 now sound1 balanced (rw c.same_writer writes) in
      (
        record p1 { last_midpoint = mid },
        w',
        rw (applied, consulted) told,
        record { book = sound1.0; prices = sound1.1; risk = c.safe },
      )
