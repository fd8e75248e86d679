-- ===== src/Market/Telemetry.antt =====
-- The telemetry of a processor: the midpoint of its book, and when it is written.
use hft_demo.Common.{payload_bytes}
use hft_demo.Prelude.Int.{ℤ, pos}
use hft_demo.Prelude.Word.{u32_mod, mul_signed, i64_half, add_signed}
use hft_demo.Orderbook.{L3OrderBook, get_best_bid, get_best_ask}
use hft_demo.Market.{
  ExchangeGateway, MessageAnalyticsWriter, midpoint, send_telemetry, SymbolProcessor, World, report,
}
use hft_demo.Strategies.{Strategy}
use hft_demo.Prelude.Float.{FloatOps}
use hft_demo.Prelude.{
  ℕ, some, Build, ◌≡◌, ok, ◌<◌, ◌⊎◌, ◌≤◌, ◌≢◌, ◌+◌, bind-ok, ◌/◌, arith, Bool-cases, ltb, ◌&&◌, not,
  ◌==◌, inl, ◌∙◌, inr, if◌then◌else◌,
}

module _ (f : FloatOps) (st : Strategy) (gw : ExchangeGateway) (wr : MessageAnalyticsWriter) where
  -- Where both sides of the book have a best price, positive and within u32, and they do not cross, the
  -- midpoint is found in both builds and lies between them.
  midpoint-between :
      (b : Build) (book : L3OrderBook) (bid bid_qty ask ask_qty : ℕ)
      → get_best_bid book ≡ some (bid, bid_qty)
      → get_best_ask book ≡ some (ask, ask_qty)
      → 0 < bid
      → bid ≤ ask
      → ask < u32_mod
      → (mid : ℕ) × (midpoint f st gw wr b book ≡ ok mid) × (bid ≤ mid) × (mid ≤ ask)
  unfolding midpoint
  midpoint-between b book bid bid_qty ask ask_qty eb ea positive ordered fits =
      ((bid + ask) / 2, rw (eb, ea, midpoint) (ground arith), omega arith, omega arith)

  reported :
      (b : Build) (p p' : SymbolProcessor f st) (w w' : World f st gw wr) (now mid : ℕ)
      → report f st gw wr b (p, w) now mid ≡ ok (p', w')
      → (p' ≡ record p { last_midpoint = mid })
        × ((equity : ℤ) × (wr.write w.telemetry_writer (
                payload_bytes (record {
                  timestamp_ns = now;
                  realised_pnl = equity;
                  midpoint_px = mid;
                  position = gw.get_position w.gateway p.stock_locate;
                  latency_ns = 30;
                  locate_id = p.stock_locate;
                }))
              ≡ ok w'.telemetry_writer))
  unfolding report
  reported b p p' w w' now mid e =
      let position : ℤ = gw.get_position w.gateway p.stock_locate in
      let (worth, a, e1) = bind-ok (mul_signed i64_half b position (pos mid)) _ e in
      let (equity, c, e2) =
        bind-ok (add_signed i64_half b (gw.get_cash_balance w.gateway p.stock_locate) worth) _ e1 in
      let (writer, d, e3) = bind-ok (wr.write w.telemetry_writer _) _ e2 in
      (ground (arith, e3), (equity, d ∙ ground (arith, e3)))

  abbrev pub Written :
      SymbolProcessor f st
      → SymbolProcessor f st
      → World f st gw wr
      → World f st gw wr
      → ℕ
      → ℕ
      → Type 0
  Written p p' w w' now mid =
      (((mid ≡ 0) ⊎ (mid ≡ p.last_midpoint)) × (p' ≡ p) × (w' ≡ w))
      ⊎ ((0 < mid)
          × (mid ≢ p.last_midpoint)
          × (p' ≡ record p { last_midpoint = mid })
          × ((equity : ℤ) × (wr.write w.telemetry_writer (
                  payload_bytes (record {
                    timestamp_ns = now;
                    realised_pnl = equity;
                    midpoint_px = mid;
                    position = gw.get_position w.gateway p.stock_locate;
                    latency_ns = 30;
                    locate_id = p.stock_locate;
                  }))
                ≡ ok w'.telemetry_writer)))

  told :
      (b : Build) (p p' : SymbolProcessor f st) (w w' : World f st gw wr) (now mid : ℕ)
      → (if ltb 0 mid && not (mid == p.last_midpoint)
          then report f st gw wr b (p, w) now mid
          else ok (p, w))
        ≡ ok (p', w')
      → Written p p' w w' now mid
  told b p p' w w' now mid e = elim (Bool-cases (ltb 0 mid && not (mid == p.last_midpoint))) [
    | inl changed ↦
        let (kept, wrote) = reported b p p' w w' now mid (ground (arith, changed, e)) in
        inr (ground (arith, changed), ground (arith, changed), kept, wrote)
    | inr same ↦ inl (ground (arith, same), ground (arith, same, e), ground (arith, same, e))
  ]

  -- Telemetry that is handled changes nothing, where the midpoint is zero or the last one reported; or
  -- it is one write, of the new midpoint with the position that the exchange has, and that midpoint is
  -- the last reported from then on.
  pub send_telemetry-writes :
      (b : Build) (p p' : SymbolProcessor f st) (w w' : World f st gw wr) (now : ℕ)
      → send_telemetry f st gw wr b (p, w) now ≡ ok (p', w')
      → (mid : ℕ) × (midpoint f st gw wr b p.order_book ≡ ok mid) × Written p p' w w' now mid
  unfolding send_telemetry
  send_telemetry-writes b p p' w w' now e =
      let (mid, found, e1) = bind-ok (midpoint f st gw wr b p.order_book) _ e in
      (mid, found, told b p p' w w' now mid e1)
