-- ===== src/Market/Release/Packet.antt =====
-- A packet and its fills, in a release build.
use hft_demo.Prelude.Word.{add_word-release, u64_mod}
use hft_demo.Itch.{ItchMessage}
use hft_demo.Prelude.Int.{ℤ}
use hft_demo.Common.{ExecutionReport, buyer}
use hft_demo.Prelude.{
  Outcome, ℕ, Option, List, ◌<◌, release, ◌≡◌, Gives, suc, Returns, Bool-cases, bind-Returns_both,
  arith, ok, some, inl, refl, bind-Returns, inr, none, ◌>>=◌, zero,
}
use hft_demo.Market.{
  ExchangeGateway, MessageAnalyticsWriter, confirm, poll_confirmed_orders, report_fill,
  handle_raw_packet, confirm_at, MarketState, SymbolProcessor, Running, is_ignored, filter_parsed,
  contains,
}
use hft_demo.Strategies.{Strategy}
use hft_demo.Prelude.Float.{FloatOps}
use hft_demo.Market.Release.Event.{Outside, Left}
use hft_demo.Market.Release.Feed.{
  IsRouted, IsWhole, Kept, Fed, replaced-IsRouted, processor-Returns, filter-Gives,
  timestamp-Returns, parse-Returns,
}

module _ (f : FloatOps) (st : Strategy) (gw : ExchangeGateway) (wr : MessageAnalyticsWriter)
    (o : Outside st gw wr) where
  report_fill-Returns :
      (p : SymbolProcessor f st) (report : ExecutionReport)
      → Returns (report_fill f st wr release p report)
  unfolding report_fill
  report_fill-Returns p report =
      bind-Returns_both _ _ (o.trades p.strategy report.last_price report.last_qty buyer)
        (λ (s, answer). (_, refl))

  confirm_at-Gives :
      (m : MarketState f st wr) (report : ExecutionReport) (i : ℕ) (p : SymbolProcessor f st)
      → IsRouted f st gw wr o m
      → Gives (Kept f st gw wr o m) (confirm_at f st wr release m report (i, p))
  unfolding confirm_at
  confirm_at-Gives m report i p r = elim (Bool-cases (contains report.order_id p.order_tracker)) [
    | inl tracked ↦ rw tracked (
        bind-Returns _ _ (report_fill-Returns p report)
          (λ p'. (_, refl, (replaced-IsRouted f st gw wr o m _ i p' r refl refl, refl))))
    | inr unknown ↦ rw unknown (m, refl, (r, refl))
  ]

  confirm-Gives :
      (m : MarketState f st wr) (report : ExecutionReport)
      → IsRouted f st gw wr o m
      → Gives (Kept f st gw wr o m) (confirm f st wr release m report)
  unfolding confirm
  confirm-Gives m report r =
      let slot : ℤ = m.lookup_table report.stock_locate in
      elim (Bool-cases (is_ignored slot)) [
        | inl ignored ↦ rw ignored (m, refl, (r, refl))
        | inr ours ↦ rw ours (
            bind-Returns _ _ (processor-Returns f st gw wr o m slot (r.points _) ours)
              (λ (i, p). confirm_at-Gives m report i p r))
      ]

  -- A run of the market that ends: routed, with no fill waiting, and the sink satisfies `S`.
  abbrev pub Done : (wr.State → Type 0) → Outcome (Option (Running f st wr gw)) → Type 0
  Done S r =
      (m : MarketState f st wr) × (g : gw.State) × (r ≡ ok (some (m, g)))
      × IsRouted f st gw wr o m
      × S m.telemetry_writer
      × (o.waiting g ≡ 0)

  polled :
      (fuel : ℕ) (m : MarketState f st wr) (g g' : gw.State) (answer : Option ExecutionReport)
      → gw.poll_confirmed_orders g ≡ ok (g', answer)
      → poll_confirmed_orders f st wr gw release (suc fuel) (m, g) ≡ elim answer [
        | none ↦ ok (some (m, g'))
        | some report ↦ do
          m' ← confirm f st wr release m report
          poll_confirmed_orders f st wr gw release fuel (m', g')
      ]
  unfolding poll_confirmed_orders
  polled fuel m g g' answer e = rw (e, poll_confirmed_orders) refl

  poll-Done :
      (S : wr.State → Type 0) (fuel : ℕ) (m : MarketState f st wr) (g : gw.State)
      → IsRouted f st gw wr o m
      → S m.telemetry_writer
      → o.waiting g < fuel
      → Done S (poll_confirmed_orders f st wr gw release fuel (m, g))
  poll-Done S zero m g r s h = absurd (omega (arith, h))
  poll-Done S (suc fuel) m g r s h =
      let ((g', answer), e, left) = o.polls g in
      rw (polled fuel m g g' answer e) (
        next g' answer left
          (λ m' r' s' fewer. poll-Done S fuel m' g' r' s' (omega (arith, h, fewer))))
    where
      next :
          (g' : gw.State) (answer : Option ExecutionReport)
          → Left (o.waiting g) answer (o.waiting g')
          → ((m' : MarketState f st wr)
              → IsRouted f st gw wr o m'
              → S m'.telemetry_writer
              → o.waiting g' < o.waiting g
              → Done S (poll_confirmed_orders f st wr gw release fuel (m', g')))
          → Done S (elim answer [
            | none ↦ ok (some (m, g'))
            | some report ↦ do
              m' ← confirm f st wr release m report
              poll_confirmed_orders f st wr gw release fuel (m', g')
          ])
      next g' none left again = (m, g', refl, r, s, left)
      next g' (some report) left again =
          let (m', e, (r', same)) = confirm-Gives m report r in rw e (again m' r' (rw same s) left)

  -- A release build handles every packet that is as long as its type needs, from a market whose table
  -- points into its processors and with no fill waiting: it does not panic, it takes up at most one
  -- record of the sink's room, and the market is left in such a state; fuel for two polls is enough.
  pub handle_raw_packet-Done :
      (n fuel : ℕ) (m : MarketState f st wr) (g : gw.State) (raw_data : List ℕ)
      → IsRouted f st gw wr o m
      → o.Room (suc n) m.telemetry_writer
      → o.waiting g ≡ 0
      → IsWhole raw_data
      → 1 < fuel
      → Done (o.Room n) (handle_raw_packet f st wr gw release fuel (m, g) raw_data)
  unfolding handle_raw_packet
  handle_raw_packet-Done n fuel m g raw_data r room empty whole more =
      let (ns, stamped) = timestamp-Returns raw_data whole.0 in
      let (now, added) = add_word-release u64_mod m.midnight_today_ns ns in
      let (parsed, read) = parse-Returns raw_data whole.1 in
      let m1 : MarketState f st wr = record m { current_time_ns = now } in
      let ((m2, g2), fed, (r2, room2, waits)) =
        parsed-Gives m1 parsed (record { few = r.few; points = r.points }) room in
      rw (stamped, added, read, fed)
        (poll-Done (o.Room n) fuel m2 g2 r2 room2 (omega (arith, waits, empty, more)))
    where
      parsed-Gives :
          (m1 : MarketState f st wr) (parsed : Option ItchMessage)
          → IsRouted f st gw wr o m1
          → o.Room (suc n) m1.telemetry_writer
          → Gives (Fed f st gw wr o n g) (filter_parsed f st wr gw release (m1, g) parsed)
      parsed-Gives m1 none r room =
          ((m1, g), refl, (r, o.less_room n m1.telemetry_writer room, omega arith))
      parsed-Gives m1 (some msg) r room = filter-Gives f st gw wr o n m1 g msg r room
