-- ===== src/Market/Safety.antt =====
-- The limits of the risk engines, in the states that the market can reach.
use hft_demo.Orderbook.{get_best_bid, get_best_ask}
use hft_demo.Market.Every.{handle_raw_packet-All}
use hft_demo.Market.Orders.{handle_event-Sends, SendsNone}
use hft_demo.Prelude.Int.{pos, int_laws, ◌+ℤ◌, ◌≤ℤ◌}
use hft_demo.Prelude.Text.{Text}
use hft_demo.Itch.{ItchMessage}
use hft_demo.Common.{OrderCommand, ExecutionReport}
use hft_demo.Risk.Position.{IsSafe, check-IsSafe, signed, check-passed}
use hft_demo.Risk.{LocalRisk, check, pass, outside_band}
use hft_demo.Market.{
  MessageAnalyticsWriter, ExchangeGateway, SymbolProcessor, World, MarketState, handle_event, new,
  handle_raw_packet, new_processor, report_fill,
}
use hft_demo.Strategies.{Strategy}
use hft_demo.Prelude.Float.{FloatOps}
use mathlib.Core.Path.{subst}
use hft_demo.Prelude.{
  ℕ, Build, ◌≡◌, List, Option, ok, some, inl, arith, ◌∙◌, inr, sym, All, map, All-map, refl, none,
  get_elem?, ◌⊎◌, ◌≤◌, ap,
}

module _ (f : FloatOps) (st : Strategy) (wr : MessageAnalyticsWriter) (gw : ExchangeGateway) where
  -- The states that the market comes to from its start, packet by packet, with polls as long as they
  -- need and whatever happens at the exchange in between.
  pub data Reached (b : Build) : MarketState f st wr → Type 0 where
    started :
        (now_secs : ℕ) (symbols : List Text) (s : st.State) (writer : wr.State)
        (m : MarketState f st wr)
        → new f st wr b now_secs symbols s writer ≡ ok m
        → Reached b m
    packet :
        (fuel : ℕ) (m m' : MarketState f st wr) (g g' : gw.State) (raw_data : List ℕ)
        → Reached b m
        → handle_raw_packet f st wr gw b fuel (m, g) raw_data ≡ ok (some (m', g'))
        → Reached b m'

  -- The engine of a processor is safe, with the limits that it was made with.
  pub record HasLimits (p : SymbolProcessor f st) : Type 0 where
    pub safe : IsSafe f p.risk_engine
    pub qty_limit : p.risk_engine.max_qty_per_order ≡ 1000
    pub position_limit : p.risk_engine.max_absolute_position ≡ pos 3500
    pub price_band : p.risk_engine.price_band_percentage ≡ f.div (f.of_nat 2) (f.of_nat 100)

  check-limits :
      (b : Build) (r r' : LocalRisk f) (cmd : OrderCommand) (bid ask : Option (ℕ × ℕ))
      → check f b r cmd bid ask ≡ ok (r', pass)
      → IsSafe f r
      → IsSafe f r'
        × (r'.max_qty_per_order ≡ r.max_qty_per_order)
        × (r'.max_absolute_position ≡ r.max_absolute_position)
        × (r'.price_band_percentage ≡ r.price_band_percentage)
  check-limits b r r' cmd bid ask e s =
      let (r1, d, e1, (safe, qty, position, band, _)) = check-IsSafe f b r cmd bid ask s in
      let same : r1 ≡ r' = ground arith in
      (subst (IsSafe f) same safe, ground arith, ground arith, ground arith)

  pub event-HasLimits :
      (b : Build) (p p' : SymbolProcessor f st) (w w' : World f st gw wr) (msg : ItchMessage)
      (now : ℕ)
      → handle_event f st gw wr b (p, w) msg now ≡ ok (p', w')
      → HasLimits p
      → HasLimits p'
  event-HasLimits b p p' w w' msg now e h =
      elim (handle_event-Sends f st gw wr b p p' w w' msg now e).0 [
        | inl one ↦
            let (safe, qty, position, band) =
              check-limits b p.risk_engine p'.risk_engine _ _ _ one.passed h.safe in
            record {
              safe = safe;
              qty_limit = qty ∙ h.qty_limit;
              position_limit = position ∙ h.position_limit;
              price_band = band ∙ h.price_band;
            }
        | inr kept ↦ record {
          safe = subst (IsSafe f) (sym kept.same_risk) h.safe;
          qty_limit = ground (arith, kept.same_risk, h.qty_limit);
          position_limit = ground (arith, kept.same_risk, h.position_limit);
          price_band = ground (arith, kept.same_risk, h.price_band);
        }
      ]

  pub location-HasLimits :
      (p : SymbolProcessor f st) (l : ℕ) → HasLimits p → HasLimits (record p { stock_locate = l })
  location-HasLimits p l h = record {
    safe = h.safe;
    qty_limit = h.qty_limit;
    position_limit = h.position_limit;
    price_band = h.price_band;
  }

  pub fill-HasLimits :
      (b : Build) (p p' : SymbolProcessor f st) (report : ExecutionReport)
      → report_fill f st wr b p report ≡ ok p'
      → HasLimits p
      → HasLimits p'
  unfolding report_fill
  fill-HasLimits b p p' report e h =
      let same : p.risk_engine ≡ p'.risk_engine = ground arith in
      record {
        safe = subst (IsSafe f) same h.safe;
        qty_limit = ground (arith, same, h.qty_limit);
        position_limit = ground (arith, same, h.position_limit);
        price_band = ground (arith, same, h.price_band);
      }

  pub new-HasLimits : (s : st.State) (symbol : Text) → HasLimits (new_processor f st wr s symbol)
  new-HasLimits s symbol = record {
    safe = record {
      limited = omega int_laws;
      limited_short = omega int_laws;
      no_overflow = omega int_laws;
    };
    qty_limit = refl;
    position_limit = refl;
    price_band = refl;
  }

  -- In every state that the market reaches, whatever the packets, the strategy and the exchange did,
  -- the engine of each processor is safe: its position is from -3500 to 3500, with the limits and the
  -- price band of 2/100 that it was made with.
  pub Reached-HasLimits :
      (b : Build) (m : MarketState f st wr) → Reached b m → All HasLimits m.processors
  Reached-HasLimits b _ (started now_secs symbols s writer m e) =
      let made : m.processors ≡ map (new_processor f st wr s) symbols =
        unfold new in ground arith in
      rw made (All-map HasLimits (new_processor f st wr s) symbols (new-HasLimits s))
  Reached-HasLimits b _ (packet fuel m0 m g g' raw_data r e) =
      handle_raw_packet-All f st wr gw HasLimits event-HasLimits location-HasLimits fill-HasLimits b
        fuel m0 m g g' raw_data (Reached-HasLimits b m0 r) e

  -- An event in such a state sends nothing, or it sends one order of at most 1000 shares within the
  -- price band; the engine then counts the order as filled in full, and the position with it is from
  -- -3500 to 3500.
  pub Reached-order :
      (b : Build) (m : MarketState f st wr) (i : ℕ) (p p' : SymbolProcessor f st)
      (w w' : World f st gw wr) (msg : ItchMessage) (now : ℕ)
      → Reached b m
      → get_elem? m.processors i ≡ some p
      → handle_event f st gw wr b (p, w) msg now ≡ ok (p', w')
      → SendsNone f st gw wr p p' w w'
        ⊎ ((cmd : OrderCommand) × (gw.send_order w.gateway cmd ≡ ok w'.gateway)
            × (cmd.quantity ≤ 1000)
            × (p'.risk_engine.current_position
                ≡ p.risk_engine.current_position +ℤ signed cmd.side cmd.quantity)
            × (p'.risk_engine.current_position ≤ℤ pos 3500)
            × (pos 0 ≤ℤ p'.risk_engine.current_position +ℤ pos 3500)
            × (outside_band f p.risk_engine.price_band_percentage cmd.side cmd.price
                  (get_best_bid p'.order_book)
                  (get_best_ask p'.order_book)
                ≡ none))
  Reached-order b m i p p' w w' msg now reached at e =
      let h : HasLimits p = Reached-HasLimits b m reached i p at in
      let h' : HasLimits p' = event-HasLimits b p p' w w' msg now e h in
      elim (handle_event-Sends f st gw wr b p p' w w' msg now e).0 [
        | inl one ↦
            let (small, moved, inside) =
              check-passed f b p.risk_engine p'.risk_engine _ _ _ h.safe one.passed in
            inr (
              record one.answer { symbol_locate = p.stock_locate; order_id = w.global_order_id },
              one.sent,
              omega (arith, h.qty_limit, small),
              ap (λ r. r.current_position) moved,
              subst (λ z. p'.risk_engine.current_position ≤ℤ z) h'.position_limit h'.safe.limited,
              subst (λ z. pos 0 ≤ℤ p'.risk_engine.current_position +ℤ z) h'.position_limit
                  h'.safe.limited_short,
              inside,
            )
        | inr nothing ↦ inl nothing
      ]
