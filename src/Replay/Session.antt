-- ===== src/Replay/Session.antt =====
-- A replay as a whole, and the accounts of its stocks.
use hft_demo.Prelude.Map.{lookup}
use hft_demo.Replay.Listing.{listed, Fresh}
use hft_demo.Replay.Accounts.{Agrees}
use hft_demo.Market.Safety.{HasLimits, new-HasLimits}
use hft_demo.Itch.{
  ItchMessage, parse_itch_message, stock_directory, add_order, modify_order, trade, delete_order,
  order_executed, order_executed_with_price,
}
use hft_demo.Prelude.Word.{add_word, u64_mod}
use hft_demo.Replay.Balance.{Accounts, deliver-Accounts, poll-Accounts}
use hft_demo.Prelude.Text.{Text}
use hft_demo.Replay.Gateway.{ReplayGateway, replay_gateway, new_gateway}
use hft_demo.Prelude.Int.{negsuc}
use hft_demo.Market.{
  MessageAnalyticsWriter, MarketState, handle_stock_directory, filter_message_for_symbols,
  handle_raw_packet, new, filter_parsed, dispatch, get_locate_from_msg, deliver, timestamp,
  poll_confirmed_orders, new_processor,
}
use hft_demo.Strategies.{Strategy}
use hft_demo.Prelude.Float.{FloatOps}
use hft_demo.Prelude.{
  ℕ, none, some, [], refl, sym, Build, All, ◌≡◌, arith, ◌⊎◌, ap, inl, inr, Option, List, ok,
  bind-ok, ◌>>=◌, map, All-map,
}
use mathlib.Core.Path.{subst}

module _ (f : FloatOps) (st : Strategy) (wr : MessageAnalyticsWriter) (b : Build) where
  -- What a packet's message may be: not a directory's, or a fresh stock's.
  abbrev pub Admits : MarketState f st wr → ReplayGateway → Option ItchMessage → Type 0
  Admits m g none = Unit {0}
  Admits m g (some (stock_directory l symbol)) = Fresh f st wr b m g l symbol
  Admits m g (some (add_order _ _ _ _ _)) = Unit {0}
  Admits m g (some (modify_order _ _ _)) = Unit {0}
  Admits m g (some (trade _ _ _ _ _)) = Unit {0}
  Admits m g (some (delete_order _ _)) = Unit {0}
  Admits m g (some (order_executed _ _ _ _)) = Unit {0}
  Admits m g (some (order_executed_with_price _ _ _ _ _)) = Unit {0}

  dispatched :
      (m m' : MarketState f st wr) (g g' : ReplayGateway) (msg : ItchMessage)
      → Accounts f st wr b m g
      → dispatch f st wr (replay_gateway b) b (m, g) msg ≡ ok (m', g')
      → Accounts f st wr b m' g'
  dispatched m m' g g' msg a e =
      let l : ℕ = get_locate_from_msg msg in
      let same : ((m ≡ m') × (g ≡ g'))
          ⊎ (deliver f st wr (replay_gateway b) b (m, g) (m.lookup_table l) msg ≡ ok (m', g')) =
        ground arith in
      elim same [
        | inl (sm, sg) ↦
            subst (λ m. Accounts f st wr b m g') sm (subst (λ g. Accounts f st wr b m g) sg a)
        | inr s ↦ deliver-Accounts f st wr b m m' g g' l msg a s
      ]

  filtered :
      (m m' : MarketState f st wr) (g g' : ReplayGateway) (msg : ItchMessage)
      → Accounts f st wr b m g
      → Admits m g (some msg)
      → filter_message_for_symbols f st wr (replay_gateway b) b (m, g) msg ≡ ok (m', g')
      → Accounts f st wr b m' g'
  unfolding filter_message_for_symbols
  filtered m m' g g' (stock_directory l symbol) a fresh e =
      let (m1, done, e1) = bind-ok (handle_stock_directory f st wr m l symbol) _ e in
      let same : (m1 ≡ m') × (g ≡ g') = ground arith in
      subst (λ m. Accounts f st wr b m g') same.0
        (subst (λ g. Accounts f st wr b m1 g) same.1
          (listed f st wr b m m1 g l symbol a fresh done))
  filtered m m' g g' (add_order l i s q c) a h e = dispatched m m' g g' (add_order l i s q c) a e
  filtered m m' g g' (modify_order l i q) a h e = dispatched m m' g g' (modify_order l i q) a e
  filtered m m' g g' (trade l c q n s) a h e = dispatched m m' g g' (trade l c q n s) a e
  filtered m m' g g' (delete_order l i) a h e = dispatched m m' g g' (delete_order l i) a e
  filtered m m' g g' (order_executed l i q n) a h e =
      dispatched m m' g g' (order_executed l i q n) a e
  filtered m m' g g' (order_executed_with_price l i q c n) a h e =
      dispatched m m' g g' (order_executed_with_price l i q c n) a e

  parsed-Accounts :
      (m m' : MarketState f st wr) (g g' : ReplayGateway) (parsed : Option ItchMessage)
      → Accounts f st wr b m g
      → Admits m g parsed
      → filter_parsed f st wr (replay_gateway b) b (m, g) parsed ≡ ok (m', g')
      → Accounts f st wr b m' g'
  parsed-Accounts m m' g g' none a h e =
      let same : (m ≡ m') × (g ≡ g') = ground arith in
      subst (λ m. Accounts f st wr b m g') same.0 (subst (λ g. Accounts f st wr b m g) same.1 a)
  parsed-Accounts m m' g g' (some msg) a h e = filtered m m' g g' msg a h e

  Admits-clock :
      (m : MarketState f st wr) (g : ReplayGateway) (now : ℕ) (parsed : Option ItchMessage)
      → Admits m g parsed
      → Admits (record m { current_time_ns = now }) g parsed
  Admits-clock m g now none h = tt
  Admits-clock m g now (some (stock_directory l symbol)) h = record {
    unused = h.unused;
    untraded = h.untraded;
    flat = h.flat;
  }
  Admits-clock m g now (some (add_order _ _ _ _ _)) h = tt
  Admits-clock m g now (some (modify_order _ _ _)) h = tt
  Admits-clock m g now (some (trade _ _ _ _ _)) h = tt
  Admits-clock m g now (some (delete_order _ _)) h = tt
  Admits-clock m g now (some (order_executed _ _ _ _)) h = tt
  Admits-clock m g now (some (order_executed_with_price _ _ _ _ _)) h = tt

  packet-Accounts :
      (fuel : ℕ) (m m' : MarketState f st wr) (g g' : ReplayGateway) (raw_data : List ℕ)
      (parsed : Option ItchMessage)
      → Accounts f st wr b m g
      → parse_itch_message raw_data ≡ ok parsed
      → Admits m g parsed
      → handle_raw_packet f st wr (replay_gateway b) b fuel (m, g) raw_data ≡ ok (some (m', g'))
      → Accounts f st wr b m' g' × (g'.pending_fills ≡ [])
  unfolding handle_raw_packet
  packet-Accounts fuel m m' g g' raw_data parsed a read h e =
      let (ns, stamped, e1) = bind-ok (timestamp raw_data) _ e in
      let (now, added, e2) = bind-ok (add_word u64_mod b m.midnight_today_ns ns) _ e1 in
      let m1 : MarketState f st wr = record m { current_time_ns = now } in
      let e3 : (filter_parsed f st wr (replay_gateway b) b (m1, g) parsed
            >>= poll_confirmed_orders f st wr (replay_gateway b) b fuel)
          ≡ ok (some (m', g')) =
        ground (arith, read, e2) in
      let ((m2, g2), fed, e4) =
        bind-ok (filter_parsed f st wr (replay_gateway b) b (m1, g) parsed) _ e3 in
      poll-Accounts f st wr b fuel m2 m' g2 g'
        (parsed-Accounts m1 m2 g g2 parsed
          (record { limits = a.limits; agree = a.agree; apart = a.apart })
          (Admits-clock m g now parsed h) fed)
        e4

  -- The states of a replay: it starts with no accounts; packets follow, whose directory messages list
  -- fresh stocks.
  pub data Replayed : MarketState f st wr → ReplayGateway → Type 0 where
    started :
        (now_secs : ℕ) (symbols : List Text) (s : st.State) (writer : wr.State)
        (m : MarketState f st wr)
        → new f st wr b now_secs symbols s writer ≡ ok m
        → Replayed m new_gateway
    packet :
        (fuel : ℕ) (m m' : MarketState f st wr) (g g' : ReplayGateway) (raw_data : List ℕ)
        (parsed : Option ItchMessage)
        → Replayed m g
        → parse_itch_message raw_data ≡ ok parsed
        → Admits m g parsed
        → handle_raw_packet f st wr (replay_gateway b) b fuel (m, g) raw_data ≡ ok (some (m', g'))
        → Replayed m' g'

  started-Accounts :
      (now_secs : ℕ) (symbols : List Text) (s : st.State) (writer : wr.State)
      (m : MarketState f st wr)
      → new f st wr b now_secs symbols s writer ≡ ok m
      → Accounts f st wr b m new_gateway
  started-Accounts now_secs symbols s writer m e =
      let made : m.processors ≡ map (new_processor f st wr s) symbols =
        unfold new in ground arith in
      let table : m.lookup_table ≡ (λ _. negsuc 0) = unfold new in ground arith in
      record {
        limits = subst (All _) (sym made) (
            All-map (HasLimits f st wr (replay_gateway b)) (new_processor f st wr s) symbols
              (new-HasLimits f st wr (replay_gateway b) s));
        agree = subst (All _) (sym made) (
            All-map (Agrees f st wr b new_gateway) (new_processor f st wr s) symbols
              (λ _. unfold lookup in refl));
        apart = λ l i j p q mapped eq er ne. absurd (ground (arith, mapped, ap (λ t. t l) table));
      }

  -- In every state of a replay, for each stock, the position that the risk engine counts is the
  -- position at the exchange, from -3500 to 3500, and between packets no fill waits.
  pub Replayed-Accounts :
      (m : MarketState f st wr) (g : ReplayGateway)
      → Replayed m g
      → Accounts f st wr b m g × (g.pending_fills ≡ [])
  Replayed-Accounts _ _ (started now_secs symbols s writer m e) =
      (started-Accounts now_secs symbols s writer m e, refl)
  Replayed-Accounts _ _ (packet fuel m m' g g' raw_data parsed r read h e) =
      packet-Accounts fuel m m' g g' raw_data parsed (Replayed-Accounts m g r).0 read h e
