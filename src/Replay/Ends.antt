-- ===== src/Replay/Ends.antt =====
-- The end of the replay: the fills that a packet leaves to poll, and the cursor's way over the
-- file.
use hft_demo.Replay.Frames.{last_turn, one_turn, messages_in}
use hft_demo.Replay.Balance.{poll-empty, poll-next}
use hft_demo.Prelude.Word.{add_word, u64_mod, add_word-ok}
use hft_demo.Market.Orders.{handle_event-Sends}
use hft_demo.Itch.{
  ItchMessage, stock_directory, add_order, modify_order, trade, delete_order, order_executed,
  order_executed_with_price, parse_itch_message,
}
use hft_demo.Prelude.Int.{ℤ}
use hft_demo.Market.{
  Running, MessageAnalyticsWriter, MarketState, SymbolProcessor, deliver,
  filter_message_for_symbols, World, handle_event, filter_parsed, dispatch, get_locate_from_msg,
  processor_at, handle_stock_directory, handle_raw_packet, poll_confirmed_orders, timestamp,
  confirm,
}
use hft_demo.Strategies.{Strategy}
use hft_demo.Common.{OrderCommand}
use hft_demo.Replay.File.{next_message, replay}
use hft_demo.Prelude.Float.{FloatOps}
use mathlib.Core.Path.{subst}
use hft_demo.Prelude.{
  zero, suc, none, some, [], refl, sym, ◌≡◌, Build, List, ℕ, ok, length, ◌++◌, ◌+◌, ◌≤◌, Option,
  ◌∷◌, arith, bind-ok, inl, ◌⊎◌, length-append, inr, ◌<◌, Outcome, Outcome-cases, panic, List-cases,
  ◌∙◌, ap, ◌>>=◌, Option-cases,
}
use hft_demo.Replay.Gateway.{ReplayGateway, send_order, fill_of, replay_gateway}

send_order-pending :
    (b : Build) (g g' : ReplayGateway) (cmd : OrderCommand)
    → send_order b g cmd ≡ ok g'
    → g'.pending_fills ≡ g.pending_fills ++ (fill_of cmd ∷ [])
unfolding send_order
send_order-pending b g g' cmd e = ground arith

next_message-moves :
    (file p : List ℕ) (cursor next : ℕ)
    → next_message file cursor ≡ some (p, next)
    → (cursor + 2 ≤ next) × (next ≤ length file)
unfolding next_message
next_message-moves file p cursor next e = (ground arith, ground arith)

module _ (f : FloatOps) (st : Strategy) (wr : MessageAnalyticsWriter) (b : Build) where
  abbrev waiting : ReplayGateway → ℕ
  waiting g = length g.pending_fills

  event-pending :
      (p p' : SymbolProcessor f st) (w w' : World f st (replay_gateway b) wr) (msg : ItchMessage)
      (now : ℕ)
      → handle_event f st (replay_gateway b) wr b (p, w) msg now ≡ ok (p', w')
      → waiting w'.gateway ≤ waiting w.gateway + 1
  event-pending p p' w w' msg now e =
      let (sends, _) = handle_event-Sends f st (replay_gateway b) wr b p p' w w' msg now e in
      elim sends [
        | inl one ↦
            let cmd : OrderCommand = record one.answer {
              symbol_locate = p.stock_locate;
              order_id = w.global_order_id;
            } in
            ground (
              arith,
              send_order-pending b w.gateway w'.gateway cmd one.sent,
              length-append {0} w.gateway.pending_fills (fill_of cmd ∷ []),
            )
        | inr nothing ↦ ground (arith, nothing.same_gateway)
      ]

  deliver-pending :
      (m m' : MarketState f st wr) (g g' : ReplayGateway) (slot : ℤ) (msg : ItchMessage)
      → deliver f st wr (replay_gateway b) b (m, g) slot msg ≡ ok (m', g')
      → waiting g' ≤ waiting g + 1
  unfolding deliver
  deliver-pending m m' g g' slot msg e =
      let ((i, p), at, e1) = bind-ok (processor_at f st wr m.processors slot) _ e in
      let w : World f st (replay_gateway b) wr = record {
        gateway = g;
        telemetry_writer = m.telemetry_writer;
        global_order_id = m.global_order_id_counter;
      } in
      let ((p', w'), done, e2) =
        bind-ok (handle_event f st (replay_gateway b) wr b (p, w) msg m.current_time_ns) _ e1 in
      let same : w'.gateway ≡ g' = ground (arith, e2) in
      ground (arith, event-pending p p' w w' msg m.current_time_ns done, same)

  dispatch-pending :
      (m m' : MarketState f st wr) (g g' : ReplayGateway) (msg : ItchMessage)
      → dispatch f st wr (replay_gateway b) b (m, g) msg ≡ ok (m', g')
      → waiting g' ≤ waiting g + 1
  dispatch-pending m m' g g' msg e =
      let slot : ℤ = m.lookup_table (get_locate_from_msg msg) in
      let same : (g ≡ g') ⊎ (deliver f st wr (replay_gateway b) b (m, g) slot msg ≡ ok (m', g')) =
        ground arith in
      elim same [ inl s ↦ ground (arith, s) | inr s ↦ deliver-pending m m' g g' slot msg s ]

  parsed-pending :
      (m m' : MarketState f st wr) (g g' : ReplayGateway) (parsed : Option ItchMessage)
      → filter_parsed f st wr (replay_gateway b) b (m, g) parsed ≡ ok (m', g')
      → waiting g' ≤ waiting g + 1
  unfolding filter_message_for_symbols
  parsed-pending m m' g g' none e = let same : g ≡ g' = ground arith in ground (arith, same)
  parsed-pending m m' g g' (some (stock_directory l symbol)) e =
      let (m1, done, e1) = bind-ok (handle_stock_directory f st wr m l symbol) _ e in
      let same : g ≡ g' = ground arith in ground (arith, same)
  parsed-pending m m' g g' (some (add_order l i s q c)) e =
      dispatch-pending m m' g g' (add_order l i s q c) e
  parsed-pending m m' g g' (some (modify_order l i q)) e =
      dispatch-pending m m' g g' (modify_order l i q) e
  parsed-pending m m' g g' (some (trade l c q n s)) e =
      dispatch-pending m m' g g' (trade l c q n s) e
  parsed-pending m m' g g' (some (delete_order l i)) e =
      dispatch-pending m m' g g' (delete_order l i) e
  parsed-pending m m' g g' (some (order_executed l i q n)) e =
      dispatch-pending m m' g g' (order_executed l i q n) e
  parsed-pending m m' g g' (some (order_executed_with_price l i q c n)) e =
      dispatch-pending m m' g g' (order_executed_with_price l i q c n) e

  -- A run that ends: it panics, or it returns with no fill waiting.
  abbrev pub Ends : Outcome (Option (MarketState f st wr × ReplayGateway)) → Type 0
  Ends o =
      (o ≡ panic)
      ⊎ ((m : MarketState f st wr) × (g : ReplayGateway) × (o ≡ ok (some (m, g)))
          × (g.pending_fills ≡ []))

  poll-Ends :
      (fuel : ℕ) (m : MarketState f st wr) (g : ReplayGateway)
      → waiting g < fuel
      → Ends (poll_confirmed_orders f st wr (replay_gateway b) b fuel (m, g))
  poll-Ends zero m g h = absurd (omega (arith, h))
  poll-Ends (suc fuel) m g h = elim (List-cases g.pending_fills) [
    | inl done ↦ inr (m, g, poll-empty f st wr b fuel m g done, done)
    | inr (report, reports, left) ↦
        let g1 : ReplayGateway = record g { pending_fills = reports } in
        let step = poll-next f st wr b fuel m g report reports left in
        elim (Outcome-cases (confirm f st wr b m report)) [
          | inl stops ↦ inl (
              step
              ∙ ap
                  (λ o.
                    o >>= λ m'. poll_confirmed_orders f st wr (replay_gateway b) b fuel (m', g1))
                  stops)
          | inr (m1, done) ↦
              subst Ends
                (sym (
                  step
                  ∙ ap
                      (λ o. o >>= λ m'.
                        poll_confirmed_orders f st wr (replay_gateway b) b fuel (m', g1))
                      done))
                (poll-Ends fuel m1 g1 (ground (arith, h, left)))
        ]
  ]

  -- A chain of which the first part does not end otherwise.
  packet-Ends :
      (fuel : ℕ) (m : MarketState f st wr) (g : ReplayGateway) (raw_data : List ℕ)
      → g.pending_fills ≡ []
      → 1 < fuel
      → Ends (handle_raw_packet f st wr (replay_gateway b) b fuel (m, g) raw_data)
  unfolding handle_raw_packet
  packet-Ends fuel m g raw_data none_left more = elim (Outcome-cases (timestamp raw_data)) [
    | inl stops ↦ inl (rw stops)
    | inr (ns, stamped) ↦ elim (Outcome-cases (add_word u64_mod b m.midnight_today_ns ns)) [
      | inl stops ↦ inl (rw (stamped, stops))
      | inr (now, added) ↦ elim (Outcome-cases (parse_itch_message raw_data)) [
        | inl stops ↦ inl (rw (stamped, added, stops))
        | inr (parsed, read) ↦
            let m1 : MarketState f st wr = record m { current_time_ns = now } in
            elim (Outcome-cases (filter_parsed f st wr (replay_gateway b) b (m1, g) parsed)) [
              | inl stops ↦ inl (rw (stamped, added, read, stops))
              | inr ((m2, g2), fed) ↦
                  rw (stamped, added, read, fed)
                    (poll-Ends fuel m2 g2
                      (ground (arith, more, none_left, parsed-pending m1 m2 g g2 parsed fed)))
            ]
      ]
    ]
  ]

  -- A replay that ends: it panics, or it returns a given count, and no fill waits.
  abbrev pub Finishes : ℕ → Outcome (Option (ℕ × Running f st wr (replay_gateway b))) → Type 0
  Finishes sent o =
      (o ≡ panic)
      ⊎ ((m : MarketState f st wr) × (g : ReplayGateway) × (o ≡ ok (some (sent, (m, g))))
          × (g.pending_fills ≡ []))

  -- The replay of a file of fewer than 2^64 bytes ends: with fuel for the bytes behind the cursor, and
  -- fuel for two polls of each packet, it panics or it returns the count with the messages found
  -- behind the cursor added, and then no fill waits.
  pub replay-ends :
      (poll_fuel fuel : ℕ) (file : List ℕ) (cursor count : ℕ) (m : MarketState f st wr)
      (g : ReplayGateway)
      → g.pending_fills ≡ []
      → 1 < poll_fuel
      → cursor ≤ length file
      → length file < cursor + fuel
      → count + length file < cursor + u64_mod
      → Finishes
          (count + messages_in fuel file cursor)
          (replay f st wr (replay_gateway b) b poll_fuel fuel file cursor count (m, g))
  unfolding replay messages_in
  replay-ends poll_fuel zero file cursor count m g done polls bound more few =
      absurd (omega (arith, bound, more))
  replay-ends poll_fuel (suc fuel) file cursor count m g done polls bound more few =
      elim (Option-cases (next_message file cursor)) [
        | inl ended ↦ inr (
          m,
          g,
          last_turn f st wr (replay_gateway b) b poll_fuel fuel file cursor count (m, g) ended
              ∙ ap (λ n. ok (some (n, (m, g)))) (rw (ended, messages_in) (omega arith)),
          done,
        )
        | inr ((p, next), found) ↦
            let turn =
              one_turn f st wr (replay_gateway b) b poll_fuel fuel file p cursor next count (m, g)
                found in
            let (moved, within) = next_message-moves file p cursor next found in
            elim (packet-Ends poll_fuel m g p done polls) [
              | inl stops ↦ inl (turn ∙ rw stops refl)
              | inr (m1, g1, handled, empty1) ↦
                  let added = add_word-ok u64_mod b count 1 (omega (arith, few, moved, within)) in
                  let rest =
                    replay-ends poll_fuel fuel file next (count + 1) m1 g1 empty1 polls within
                      (omega (arith, more, moved)) (omega (arith, few, moved)) in
                  let same : replay f st wr (replay_gateway b) b poll_fuel (suc fuel) file cursor
                        count (m, g)
                      ≡ replay f st wr (replay_gateway b) b poll_fuel fuel file next (count + 1)
                          (m1, g1) =
                    turn ∙ rw (handled, added) refl in
                  let total : count + 1 + messages_in fuel file next
                      ≡ count + messages_in (suc fuel) file cursor =
                    rw (found, messages_in) (omega arith) in
                  subst
                    (λ n. Finishes n (
                      replay f st wr (replay_gateway b) b poll_fuel (suc fuel) file cursor count
                        (m, g)))
                    total (subst (Finishes _) (sym same) rest)
            ]
      ]
