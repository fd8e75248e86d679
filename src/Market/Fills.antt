-- ===== src/Market/Fills.antt =====
-- The polling loop: its fuel, and what it tells the strategies.
use hft_demo.Prelude.Bytes.{index-there}
use mathlib.Core.Path.{subst}
use hft_demo.Prelude.Word.{i32_half, u64_mod, add_word-ok, as_i32-pos, signed_result-ok}
use hft_demo.Prelude.Int.{pos, ◌+ℤ◌, ◌≤ℤ◌, neg_part, int_laws}
use hft_demo.Common.{ExecutionReport, buyer}
use hft_demo.Market.{
  MessageAnalyticsWriter, ExchangeGateway, confirm, confirm_at, poll_confirmed_orders, report_fill,
  MarketState, SymbolProcessor, contains, remove_id,
}
use hft_demo.Strategies.{Strategy, simple_mid_point, SimpleMidPoint, on_trade}
use hft_demo.Prelude.Float.{FloatOps}
use hft_demo.Prelude.{
  ℕ, Build, ◌≡◌, ok, some, ◌<◌, panic, get_elem?, ◌⊎◌, none, arith, true, suc, Outcome-cases, inl,
  ◌-◌, inr, ◌≤◌, ◌+◌, false, [], zero, refl, sym, List, set, ◌∷◌, Bool-cases, ◌==◌,
  get_elem?-set_self, get_elem?-lt,
}

module _ (f : FloatOps) (st : Strategy) (wr : MessageAnalyticsWriter) (gw : ExchangeGateway) where
  -- If each poll that finds a fill leaves fewer to come, the loop ends within one more step than there
  -- are fills: it panics, or it returns at a poll that finds nothing.
  poll_confirmed_orders-ends :
      (left : gw.State → ℕ)
      → ((g g' : gw.State) (report : ExecutionReport)
          → gw.poll_confirmed_orders g ≡ ok (g', some report)
          → left g' < left g)
      → (b : Build) (fuel : ℕ) (m : MarketState f st wr) (g : gw.State) → left g < fuel
      → (poll_confirmed_orders f st wr gw b fuel (m, g) ≡ panic)
        ⊎ ((m' : MarketState f st wr) × (g0 : gw.State) × (g' : gw.State) × (poll_confirmed_orders f
                st wr gw b fuel
                (m, g)
              ≡ ok (some (m', g')))
            × (gw.poll_confirmed_orders g0 ≡ ok (g', none)))
  unfolding poll_confirmed_orders
  poll_confirmed_orders-ends left fewer b zero m g h = absurd (omega (arith, h))
  poll_confirmed_orders-ends left fewer b (suc fuel) m g h =
      elim (Outcome-cases (gw.poll_confirmed_orders g)) [
        | inl stops ↦ inl (rw stops)
        | inr ((g1, none), polled) ↦ inr (m, g, g1, rw polled, polled)
        | inr ((g1, some report), polled) ↦ elim (Outcome-cases (confirm f st wr b m report)) [
          | inl stops ↦ inl (rw (polled, stops))
          | inr (m1, done) ↦
              let rest =
                poll_confirmed_orders-ends left fewer b fuel m1 g1
                  (omega (arith, h, fewer g g1 report polled)) in
              let step : poll_confirmed_orders f st wr gw b (suc fuel) (m, g)
                  ≡ poll_confirmed_orders f st wr gw b fuel (m1, g1) =
                rw (polled, done) in
              subst
                (λ o.
                  (o ≡ panic)
                  ⊎ ((m' : MarketState f st wr) × (g0 : gw.State) × (g' : gw.State) × (o
                        ≡ ok (some (m', g')))
                      × (gw.poll_confirmed_orders g0 ≡ ok (g', none))))
                (sym step) rest
        ]
      ]

module _ (f : FloatOps) (wr : MessageAnalyticsWriter) where
  bought :
      (b : Build) (s : SimpleMidPoint f) (price qty : ℕ)
      → qty < i32_half
      → s.position +ℤ pos qty ≤ℤ pos (i32_half - 1)
      → neg_part s.position ≤ i32_half
      → s.trade_count + 1 < u64_mod
      → on_trade f b s price qty buyer
        ≡ ok (record s { trade_count = s.trade_count + 1; position = s.position +ℤ pos qty }, none)
  unfolding on_trade
  bought b s price qty small top bottom count = rw (
    add_word-ok u64_mod b s.trade_count 1 count,
    as_i32-pos qty small,
    signed_result-ok i32_half b (s.position +ℤ pos qty) (omega int_laws) (omega int_laws),
  )

  remove_id-gone : (x : ℕ) (ys : List ℕ) → contains x (remove_id x ys) ≡ false
  remove_id-gone x [] = refl
  remove_id-gone x (y ∷ ys) = elim (Bool-cases (x == y)) [
    | inl e ↦ rw (e, remove_id-gone x ys)
    | inr e ↦ rw (e, e, remove_id-gone x ys)
  ]

  -- The fill of a tracked order raises the position of the strategy, on whichever side the order was
  -- sent: the order's side is not among what the loop looks at. The order is tracked no more, whatever
  -- part of it was filled.
  pub confirm-raises_position :
      (b : Build) (m : MarketState f (simple_mid_point f) wr) (report : ExecutionReport) (i : ℕ)
      (p : SymbolProcessor f (simple_mid_point f))
      → m.lookup_table report.stock_locate ≡ pos i
      → get_elem? m.processors i ≡ some p
      → contains report.order_id p.order_tracker ≡ true
      → report.last_qty < i32_half
      → p.strategy.position +ℤ pos report.last_qty ≤ℤ pos (i32_half - 1)
      → neg_part p.strategy.position ≤ i32_half
      → p.strategy.trade_count + 1 < u64_mod
      → (m' : MarketState f (simple_mid_point f) wr) × (p' : SymbolProcessor f (simple_mid_point f))
        × (confirm f (simple_mid_point f) wr b m report ≡ ok m')
        × (get_elem? m'.processors i ≡ some p')
        × (p'.strategy.position ≡ p.strategy.position +ℤ pos report.last_qty)
        × (contains report.order_id p'.order_tracker ≡ false)
  unfolding confirm confirm_at report_fill
  confirm-raises_position b m report i p mapped at tracked small top bottom count =
      let s' : SimpleMidPoint f = record p.strategy {
        trade_count = p.strategy.trade_count + 1;
        position = p.strategy.position +ℤ pos report.last_qty;
      } in
      let p' : SymbolProcessor f (simple_mid_point f) = record p {
        strategy = s';
        order_tracker = remove_id report.order_id p.order_tracker;
      } in
      (
        record m { processors = set m.processors i p' },
        p',
        rw (
          mapped,
          index-there m.processors i p at,
          tracked,
          bought b p.strategy report.last_price report.last_qty small top bottom count,
        ),
        get_elem?-set_self m.processors i p' (get_elem?-lt m.processors i p at),
        refl,
        remove_id-gone report.order_id p.order_tracker,
      )
