-- ===== src/Market/Release/Event.antt =====
-- What a release build of the market needs of the outside, and an event on such an outside.
use hft_demo.Prelude.Int.{ℤ, ◌*ℤ◌, pos, ◌+ℤ◌}
use hft_demo.Prelude.Word.{signed_result-release, i64_half, add_word-release, u64_mod}
use hft_demo.Risk.{LocalRisk, RiskDecision, pass}
use hft_demo.Itch.{ItchMessage}
use hft_demo.Orderbook.{L3OrderBook, get_best_bid, get_best_ask}
use hft_demo.Market.{
  ExchangeGateway, MessageAnalyticsWriter, midpoint, route, consult, send_telemetry, submit, report,
  handle_event, World, Step, SymbolProcessor, price_or_zero,
}
use hft_demo.Prelude.{
  ℕ, Option, suc, ◌≡◌, ◌≤◌, Gives, ◌<◌, Returns, none, ◌+◌, release, arith, bind-Returns,
  bind-Gives, refl, Bool-cases, ltb, ap, ◌&&◌, not, ◌==◌, bind-Returns_both, ok,
}
use hft_demo.Strategies.{Strategy, Quote}
use hft_demo.Prelude.Float.{FloatOps}
use hft_demo.Market.Release.{
  apply_message-Returns, check-Returns, Strategy, FloatOps, ℕ, Option, L3OrderBook, some, Returns,
  ItchMessage, Gives, release, LocalRisk, arith, bind-Returns, Bool-cases, signed_result-release,
  fail, ltb, add_word-release, u64_mod, inl, bind-Returns_both, inr, ℤ, pos,
}
use hft_demo.Common.{payload_bytes, TelemetryPayload, ExecutionReport, OrderCommand, AggressorSide}

-- How many fills a poll leaves: none where it finds none, fewer where it finds one.
abbrev pub Left : ℕ → Option ExecutionReport → ℕ → Type 0
Left before none after = after ≡ 0
Left before (some _) after = after < before

-- A strategy and an exchange that answer every call, of which an order leaves at most one more fill
-- to poll and a poll one fewer; and a sink that takes as many records as it has room for.
pub record Outside (st : Strategy) (gw : ExchangeGateway) (wr : MessageAnalyticsWriter)
    : Type 1 where
  pub waiting : gw.State → ℕ
  pub Room : ℕ → wr.State → Type 0
  pub less_room : (n : ℕ) (s : wr.State) → Room (suc n) s → Room n s
  pub answers : (s : st.State) (bid ask : Quote) → Returns (st.on_book_update release s bid ask)
  pub trades :
      (s : st.State) (price quantity : ℕ) (side : AggressorSide)
      → Returns (st.on_trade release s price quantity side)
  pub sends :
      (g : gw.State) (cmd : OrderCommand)
      → Gives (λ g'. waiting g' ≤ waiting g + 1) (gw.send_order g cmd)
  pub polls :
      (g : gw.State)
      → Gives
          (λ (r : gw.State × Option ExecutionReport). Left (waiting g) r.1 (waiting r.0))
          (gw.poll_confirmed_orders g)
  pub writes :
      (n : ℕ) (s : wr.State) (t : TelemetryPayload)
      → Room (suc n) s
      → Gives (Room n) (wr.write s (payload_bytes t))

module _ (f : FloatOps) (st : Strategy) (gw : ExchangeGateway) (wr : MessageAnalyticsWriter)
    (o : Outside st gw wr) where
  -- The sink is as it was, and at most one fill more is waiting.
  abbrev Consulted : World f st gw wr → Step f st gw wr → Type 0
  Consulted w s =
      (s.1.telemetry_writer ≡ w.telemetry_writer)
      × (o.waiting s.1.gateway ≤ o.waiting w.gateway + 1)

  route-Gives :
      (p : SymbolProcessor f st) (w : World f st gw wr) (cmd : OrderCommand) (r : LocalRisk f)
      (d : RiskDecision)
      → Gives (Consulted w) (route f st gw wr release (p, w) cmd (r, d))
  unfolding route
  route-Gives p w cmd r (fail reason) = (_, refl, (refl, omega arith))
  route-Gives p w cmd r pass =
      bind-Returns _ _ (add_word-release u64_mod w.global_order_id 1)
        (λ next. bind-Gives _ _ (o.sends w.gateway _) (λ g more. (_, refl, (refl, more))))

  submit-Gives :
      (p : SymbolProcessor f st) (w : World f st gw wr) (answer : Option OrderCommand)
      → Gives (Consulted w) (submit f st gw wr release (p, w) answer)
  unfolding submit
  submit-Gives p w none = (_, refl, (refl, omega arith))
  submit-Gives p w (some cmd) =
      bind-Returns _ _ (check-Returns f p.risk_engine _ _ _)
        (λ (r, d). route-Gives p w (record cmd { symbol_locate = p.stock_locate }) r d)

  consult-Gives :
      (p : SymbolProcessor f st) (w : World f st gw wr)
      → Gives (Consulted w) (consult f st gw wr release (p, w))
  unfolding consult
  consult-Gives p w =
      bind-Returns _ _ (o.answers p.strategy _ _)
        (λ (s, answer). submit-Gives (record p { strategy = s }) w answer)

  -- One record fewer fits the sink, and the exchange is as it was.
  abbrev Told : ℕ → World f st gw wr → Step f st gw wr → Type 0
  Told n w s = o.Room n s.1.telemetry_writer × (s.1.gateway ≡ w.gateway)

  report-Gives :
      (n : ℕ) (p : SymbolProcessor f st) (w : World f st gw wr) (now mid : ℕ)
      → o.Room (suc n) w.telemetry_writer
      → Gives (Told n w) (report f st gw wr release (p, w) now mid)
  unfolding report
  report-Gives n p w now mid room =
      let position : ℤ = gw.get_position w.gateway p.stock_locate in
      let cash : ℤ = gw.get_cash_balance w.gateway p.stock_locate in
      bind-Returns _ _ (signed_result-release i64_half (position *ℤ pos mid)) (λ worth.
        bind-Returns _ _ (signed_result-release i64_half (cash +ℤ worth)) (λ equity.
          let payload : TelemetryPayload = record {
            timestamp_ns = now;
            realised_pnl = equity;
            midpoint_px = mid;
            position = position;
            latency_ns = 30;
            locate_id = p.stock_locate;
          } in
          bind-Gives (wr.write w.telemetry_writer (payload_bytes payload))
            (λ s. ok (record p { last_midpoint = mid }, record w { telemetry_writer = s }))
            (o.writes n w.telemetry_writer payload room)
            (λ s left. (
              (record p { last_midpoint = mid }, record w { telemetry_writer = s }),
              refl,
              (left, refl),
            ))))

  midpoint-Returns : (book : L3OrderBook) → Returns (midpoint f st gw wr release book)
  unfolding midpoint
  midpoint-Returns book =
      let bid = price_or_zero f st gw wr (get_best_bid book) in
      let ask = price_or_zero f st gw wr (get_best_ask book) in
      elim (Bool-cases (ltb 0 bid && ltb 0 ask)) [
        | inl quoted ↦
            rw quoted
              (bind-Returns_both _ _ (add_word-release u64_mod bid ask) (λ total. (_, refl)))
        | inr one_sided ↦ (0, rw one_sided refl)
      ]

  send_telemetry-Gives :
      (n : ℕ) (p : SymbolProcessor f st) (w : World f st gw wr) (now : ℕ)
      → o.Room (suc n) w.telemetry_writer
      → Gives (Told n w) (send_telemetry f st gw wr release (p, w) now)
  unfolding send_telemetry
  send_telemetry-Gives n p w now room = bind-Returns _ _ (midpoint-Returns p.order_book) (λ mid.
      elim (Bool-cases (ltb 0 mid && not (mid == p.last_midpoint))) [
        | inl changed ↦ rw changed (report-Gives n p w now mid room)
        | inr same ↦ rw same ((p, w), refl, (o.less_room n w.telemetry_writer room, refl))
      ])

  -- An event returns, in a release build, whatever the processor and the message: it takes up at most
  -- one record of the sink's room, and leaves at most one fill more to poll.
  pub handle_event-Gives :
      (n : ℕ) (p : SymbolProcessor f st) (w : World f st gw wr) (msg : ItchMessage) (now : ℕ)
      → o.Room (suc n) w.telemetry_writer
      → Gives
          (λ (s : Step f st gw wr).
            o.Room n s.1.telemetry_writer × (o.waiting s.1.gateway ≤ o.waiting w.gateway + 1))
          (handle_event f st gw wr release (p, w) msg now)
  unfolding handle_event
  handle_event-Gives n p w msg now room = bind-Returns _ _ (apply_message-Returns f st p msg) (λ q.
      bind-Gives _ _ (consult-Gives q w) (λ s1 consulted.
        let (s2, e, (room', same)) = send_telemetry-Gives n s1.0 s1.1 now (rw consulted.0 room) in
        (s2, e, (room', omega (arith, consulted.1, ap o.waiting same)))))
