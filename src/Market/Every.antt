-- ===== src/Market/Every.antt =====
-- A predicate of processors, through every event, fill, directory message and packet.
use hft_demo.Prelude.Word.{add_word, u64_mod}
use mathlib.Core.Path.{subst}
use hft_demo.Prelude.Bytes.{index, index-ok}
use hft_demo.Prelude.Int.{ℤ, pos, negsuc}
use hft_demo.Common.{ExecutionReport}
use hft_demo.Itch.{
  ItchMessage, parse_itch_message, stock_directory, add_order, modify_order, trade, delete_order,
  order_executed, order_executed_with_price,
}
use hft_demo.Market.{
  MessageAnalyticsWriter, ExchangeGateway, SymbolProcessor, World, handle_event, report_fill,
  confirm, MarketState, confirm_at, processor_at, map_slot, deliver, poll_confirmed_orders,
  handle_raw_packet, filter_message_for_symbols, handle_stock_directory, filter_parsed, timestamp,
  dispatch, position_of, get_locate_from_msg, clean,
}
use hft_demo.Strategies.{Strategy}
use hft_demo.Prelude.Float.{FloatOps}
use hft_demo.Prelude.{
  ℕ, Build, ◌≡◌, ok, List, Option, All, some, bind-ok, inl, inr, set, arith, All-set, ◌∙◌, ap,
  Outcome-cases, suc, ◌⊎◌, zero, none,
}

module _ (f : FloatOps) (st : Strategy) (wr : MessageAnalyticsWriter) (gw : ExchangeGateway)
    (P : SymbolProcessor f st → Type 0)
    (event : (b : Build) (p p' : SymbolProcessor f st) (w w' : World f st gw wr) (msg : ItchMessage)
        (now : ℕ)
      → handle_event f st gw wr b (p, w) msg now ≡ ok (p', w')
      → P p
      → P p')
    (located : (p : SymbolProcessor f st) (l : ℕ) → P p → P (record p { stock_locate = l }))
    (filled : (b : Build) (p p' : SymbolProcessor f st) (report : ExecutionReport)
      → report_fill f st wr b p report ≡ ok p'
      → P p
      → P p') where
  map_slot-All :
      (m m' : MarketState f st wr) (l : ℕ) (found : Option ℕ)
      → All P m.processors
      → map_slot f st wr m l found ≡ ok m'
      → All P m'.processors
  map_slot-All m m' l none h e =
      let same : m ≡ m' = ground arith in subst (λ m. All P m.processors) same h
  map_slot-All m m' l (some i) h e =
      let (p, at, e') = bind-ok (index m.processors i) _ e in
      let p' : SymbolProcessor f st = record p { stock_locate = l } in
      let same : m'.processors ≡ set m.processors i p' = ground arith in
      rw same (All-set m.processors i p' h (located p l (h i p (index-ok m.processors i p at))))

  processor_at-All :
      (ps : List (SymbolProcessor f st)) (slot : ℤ) (i : ℕ) (p : SymbolProcessor f st)
      → All P ps
      → processor_at f st wr ps slot ≡ ok (i, p)
      → P p
  processor_at-All ps (pos n) i p h e =
      let (q, at, e') = bind-ok (index ps n) _ e in
      let same : q ≡ p = ground arith in h n p (index-ok ps n p (at ∙ ap ok same))
  processor_at-All ps (negsuc n) i p h e = absurd cc

  confirm_at-All :
      (b : Build) (m m' : MarketState f st wr) (report : ExecutionReport) (i : ℕ)
      (p : SymbolProcessor f st)
      → All P m.processors
      → P p
      → confirm_at f st wr b m report (i, p) ≡ ok m'
      → All P m'.processors
  unfolding confirm_at
  confirm_at-All b m m' report i p h hp e = elim (Outcome-cases (report_fill f st wr b p report)) [
    | inl stops ↦
        let same : m ≡ m' = ground (arith, stops) in subst (λ m. All P m.processors) same h
    | inr (p', fill) ↦
        let same : (m ≡ m') ⊎ (m'.processors ≡ set m.processors i p') = ground (arith, fill) in
        elim same [
          | inl s ↦ subst (λ m. All P m.processors) s h
          | inr s ↦ rw s (All-set m.processors i p' h (filled b p p' report fill hp))
        ]
  ]

  confirm-All :
      (b : Build) (m m' : MarketState f st wr) (report : ExecutionReport)
      → All P m.processors
      → confirm f st wr b m report ≡ ok m'
      → All P m'.processors
  unfolding confirm
  confirm-All b m m' report h e =
      elim (Outcome-cases
        (processor_at f st wr m.processors (m.lookup_table report.stock_locate))) [
          | inl stops ↦
              let same : m ≡ m' = ground (arith, stops) in subst (λ m. All P m.processors) same h
          | inr ((i, p), at) ↦
              let same : (m ≡ m') ⊎ (confirm_at f st wr b m report (i, p) ≡ ok m') =
                ground (arith, at) in
              elim same [
                | inl s ↦ subst (λ m. All P m.processors) s h
                | inr s ↦
                    confirm_at-All b m m' report i p h (processor_at-All m.processors _ i p h at) s
              ]
        ]

  poll-All :
      (b : Build) (fuel : ℕ) (m m' : MarketState f st wr) (g g' : gw.State)
      → All P m.processors
      → poll_confirmed_orders f st wr gw b fuel (m, g) ≡ ok (some (m', g'))
      → All P m'.processors
  unfolding poll_confirmed_orders
  poll-All b zero m m' g g' h e = absurd (ground arith)
  poll-All b (suc fuel) m m' g g' h e = elim (Outcome-cases (gw.poll_confirmed_orders g)) [
    | inl stops ↦ absurd (ground (arith, stops))
    | inr ((g1, none), polled) ↦
        let same : m ≡ m' = ground (arith, polled) in subst (λ m. All P m.processors) same h
    | inr ((g1, some report), polled) ↦ elim (Outcome-cases (confirm f st wr b m report)) [
      | inl stops ↦ absurd (ground (arith, polled, stops))
      | inr (m1, done) ↦
          poll-All b fuel m1 m' g1 g' (confirm-All b m m1 report h done)
            (ground (arith, polled, done))
    ]
  ]

  deliver-All :
      (b : Build) (m m' : MarketState f st wr) (g g' : gw.State) (slot : ℤ) (msg : ItchMessage)
      → All P m.processors
      → deliver f st wr gw b (m, g) slot msg ≡ ok (m', g')
      → All P m'.processors
  unfolding deliver
  deliver-All b m m' g g' slot msg h e =
      let ((i, p), at, e1) = bind-ok (processor_at f st wr m.processors slot) _ e in
      let ((p', w), handled, e2) =
        bind-ok (handle_event f st gw wr b _ msg m.current_time_ns) _ e1 in
      let same : m'.processors ≡ set m.processors i p' = ground arith in
      rw same (
        All-set m.processors i p' h (
          event b p p' _ w msg m.current_time_ns handled
            (processor_at-All m.processors slot i p h at)))

  dispatch-All :
      (b : Build) (m m' : MarketState f st wr) (g g' : gw.State) (msg : ItchMessage)
      → All P m.processors
      → dispatch f st wr gw b (m, g) msg ≡ ok (m', g')
      → All P m'.processors
  dispatch-All b m m' g g' msg h e =
      let slot : ℤ = m.lookup_table (get_locate_from_msg msg) in
      let same : (m ≡ m') ⊎ (deliver f st wr gw b (m, g) slot msg ≡ ok (m', g')) = ground arith in
      elim same [
        | inl s ↦ subst (λ m. All P m.processors) s h
        | inr s ↦ deliver-All b m m' g g' slot msg h s
      ]

  filter-All :
      (b : Build) (m m' : MarketState f st wr) (g g' : gw.State) (msg : ItchMessage)
      → All P m.processors
      → filter_message_for_symbols f st wr gw b (m, g) msg ≡ ok (m', g')
      → All P m'.processors
  unfolding filter_message_for_symbols handle_stock_directory
  filter-All b m m' g g' (stock_directory l symbol) h e =
      let (m1, mapped, e1) =
        bind-ok (map_slot f st wr m l (position_of f st wr (clean symbol) m.processors)) _ e in
      let same : m1 ≡ m' = ground arith in
      subst (λ m. All P m.processors) same (map_slot-All m m1 l _ h mapped)
  filter-All b m m' g g' (add_order l i s q c) h e =
      dispatch-All b m m' g g' (add_order l i s q c) h e
  filter-All b m m' g g' (modify_order l i q) h e =
      dispatch-All b m m' g g' (modify_order l i q) h e
  filter-All b m m' g g' (trade l c q n s) h e = dispatch-All b m m' g g' (trade l c q n s) h e
  filter-All b m m' g g' (delete_order l i) h e = dispatch-All b m m' g g' (delete_order l i) h e
  filter-All b m m' g g' (order_executed l i q n) h e =
      dispatch-All b m m' g g' (order_executed l i q n) h e
  filter-All b m m' g g' (order_executed_with_price l i q c n) h e =
      dispatch-All b m m' g g' (order_executed_with_price l i q c n) h e

  -- A predicate that every event, every fill and every new locate preserves is preserved by every
  -- packet, for all the processors.
  pub handle_raw_packet-All :
      (b : Build) (fuel : ℕ) (m m' : MarketState f st wr) (g g' : gw.State) (raw_data : List ℕ)
      → All P m.processors
      → handle_raw_packet f st wr gw b fuel (m, g) raw_data ≡ ok (some (m', g'))
      → All P m'.processors
  unfolding handle_raw_packet
  handle_raw_packet-All b fuel m m' g g' raw_data h e =
      let (ns, stamped, e1) = bind-ok (timestamp raw_data) _ e in
      let (now, added, e2) = bind-ok (add_word u64_mod b m.midnight_today_ns ns) _ e1 in
      let (parsed, read, e3) = bind-ok (parse_itch_message raw_data) _ e2 in
      let m1 : MarketState f st wr = record m { current_time_ns = now } in
      let ((m2, g2), fed, e4) = bind-ok (filter_parsed f st wr gw b (m1, g) parsed) _ e3 in
      poll-All b fuel m2 m' g2 g' (fed-All m1 m2 g g2 parsed h fed) e4
    where
      fed-All :
          (m1 m2 : MarketState f st wr) (g1 g2 : gw.State) (parsed : Option ItchMessage)
          → All P m1.processors
          → filter_parsed f st wr gw b (m1, g1) parsed ≡ ok (m2, g2)
          → All P m2.processors
      fed-All m1 m2 g1 g2 none h e =
          let same : m1 ≡ m2 = ground arith in subst (λ m. All P m.processors) same h
      fed-All m1 m2 g1 g2 (some msg) h e = filter-All b m1 m2 g1 g2 msg h e
