-- ===== src/Replay/Ready.antt =====
-- What events ask of the replay's outside, in both builds: its strategy, its exchange and its ring.
use hft_demo.Market.Total.{handle_event-Returns}
use hft_demo.Replay.Outside.{HasRoom, telemetry-Gives}
use hft_demo.Itch.{ItchMessage}
use hft_demo.Market.{SymbolProcessor, World, handle_event}
use hft_demo.Prelude.{
  ℕ, Build, ok, none, some, ◌<◌, ◌+◌, ◌≡◌, arith, refl, Bool-cases, inl, inr, Option, ◌^◌, ◌≤◌, ◌*◌,
  ◌++◌, ◌∷◌, [], ==_iff,
}
use hft_demo.Prelude.Int.{ℤ, pos, ◌≤ℤ◌, ◌+ℤ◌, ◌-ℤ◌, ◌*ℤ◌, int_laws, mul-within}
use hft_demo.Prelude.Word.{
  u32_mod, u64_mod, add_word-ok, i32_half, i64_half, as_i32-pos, signed_result-ok, mul_signed,
}
use hft_demo.Prelude.Float.{FloatOps}
use hft_demo.Prelude.Map.{lookup-insert, insert}
use hft_demo.Common.{OrderCommand, OrderSide}
use hft_demo.Strategies.{
  SimpleMidPoint, simple_mid_point, decide, is_buy_signal, is_sell_signal, on_book_update,
}
use hft_demo.Strategies.Orders.{order_of}
use hft_demo.Market.Feed.{Answers, IsModest, Serves, Ready, Respects}
use hft_demo.Replay.Gateway.{
  ReplayGateway, replay_gateway, send_order, settle, fill_of, get_position, get_cash_balance,
  telemetry_writer,
}

module _ (f : FloatOps) (b : Build) where
  Decides : SimpleMidPoint f → ℕ → ℕ → f.Float → Type 0
  Decides s bid ask imbalance =
      (s' : SimpleMidPoint f) × (answer : Option OrderCommand) × (decide f b s bid ask imbalance
        ≡ ok (s', answer))
      × IsModest answer

  decide-Answers :
      (s : SimpleMidPoint f) (bid ask : ℕ) (imbalance : f.Float)
      → s.next_order_id + 1 < u64_mod
      → Decides s bid ask imbalance
  unfolding decide Decides
  decide-Answers s bid ask imbalance ids =
      let next = add_word-ok u64_mod b s.next_order_id 1 ids in
      let s1 : SimpleMidPoint f = record s { next_order_id = s.next_order_id + 1 } in
      elim (Bool-cases (is_buy_signal f s imbalance)) [
        | inl buys ↦ (
          s1,
          some (order_of f s OrderSide.buy ask),
          rw (buys, decide, next) refl,
          (omega arith, omega arith),
        )
        | inr waits ↦ elim (Bool-cases (is_sell_signal f s imbalance)) [
          | inl sells ↦ (
            s1,
            some (order_of f s OrderSide.sell bid),
            rw (waits, sells, decide, next) refl,
            (omega arith, omega arith),
          )
          | inr waits' ↦ (s, none, rw (waits, waits', decide) refl, tt)
        ]
      ]

  -- The program's strategy answers the best prices of a sound book while ids are left.
  pub simple_mid_point-Answers :
      (s : SimpleMidPoint f) → s.next_order_id + 1 < u64_mod → Answers (simple_mid_point f) b s
  unfolding on_book_update Decides
  simple_mid_point-Answers s ids none ask q q' = (s, none, refl, tt)
  simple_mid_point-Answers s ids (some bid) none q q' = (s, none, refl, tt)
  simple_mid_point-Answers s ids (some (bid, bid_qty)) (some (ask, ask_qty)) (low, few)
        (low', few') =
      let prices = add_word-ok u64_mod b bid ask (omega (arith, low, low')) in
      let volume = add_word-ok u32_mod b bid_qty ask_qty (omega (arith, few, few')) in
      let s1 : SimpleMidPoint f = record s {
        prev_mid_price = s.mid_price;
        mid_price = f.div (f.of_nat (bid + ask)) (f.of_nat 2);
      } in
      elim (Bool-cases (f.equal (f.of_nat (bid_qty + ask_qty)) (f.of_nat 0))) [
        | inl nothing ↦ (s1, none, rw (prices, volume, nothing) refl, tt)
        | inr something ↦
            let (s2, answer, done, modest) =
              decide-Answers s1 bid ask (f.div (f.of_nat bid_qty) (f.of_nat (bid_qty + ask_qty)))
                ids in
            (s2, answer, rw (prices, volume, something) done, modest)
      ]

-- A gateway that can take an order for a stock: its position and cash are in bounds with one more order.
pub record HasMargin (g : ReplayGateway) (locate : ℕ) : Type 0 where
  pub long : get_position g locate +ℤ pos 1000 ≤ℤ pos (2 ^ 30)
  pub short : pos 0 ≤ℤ (get_position g locate -ℤ pos 1000) +ℤ pos (2 ^ 30)
  pub rich : get_cash_balance g locate +ℤ pos (1000 * 2 ^ 32) ≤ℤ pos (2 ^ 61)
  pub poor : pos 0 ≤ℤ (get_cash_balance g locate -ℤ pos (1000 * 2 ^ 32)) +ℤ pos (2 ^ 61)

-- The settlement of an order of a given size and worth, far from the ends of the types.
Settles : Build → OrderSide → (cash position value : ℤ) → ℕ → Type 0
Settles b side cash position value quantity =
    (cash' position' : ℤ) × (settle b side cash position value quantity ≡ ok (cash', position'))
    × (cash' ≤ℤ pos (2 ^ 61))
    × (pos 0 ≤ℤ cash' +ℤ pos (2 ^ 61))
    × (position' ≤ℤ pos (2 ^ 30))
    × (pos 0 ≤ℤ position' +ℤ pos (2 ^ 30))

module _ (b : Build) (cash position value : ℤ) (quantity : ℕ)
    (long : position +ℤ pos 1000 ≤ℤ pos (2 ^ 30))
    (short : pos 0 ≤ℤ (position -ℤ pos 1000) +ℤ pos (2 ^ 30))
    (rich : cash +ℤ pos (1000 * 2 ^ 32) ≤ℤ pos (2 ^ 61))
    (poor : pos 0 ≤ℤ (cash -ℤ pos (1000 * 2 ^ 32)) +ℤ pos (2 ^ 61))
    (top : value ≤ℤ pos (1000 * 2 ^ 32)) (low : pos 0 ≤ℤ value +ℤ pos (1000 * 2 ^ 32))
    (few : quantity ≤ 1000) where
  settle-Settles : (side : OrderSide) → Settles b side cash position value quantity
  unfolding settle Settles
  settle-Settles OrderSide.buy =
      let paid = signed_result-ok i64_half b (cash -ℤ value) (omega int_laws) (omega int_laws) in
      let small = as_i32-pos quantity (omega (arith, few)) in
      let gained =
        signed_result-ok i32_half b (position +ℤ pos quantity) (omega int_laws) (omega int_laws) in
      (
        cash -ℤ value,
        position +ℤ pos quantity,
        rw (paid, small, gained) refl,
        omega int_laws,
        omega int_laws,
        omega int_laws,
        omega int_laws,
      )
  settle-Settles OrderSide.sell =
      let paid = signed_result-ok i64_half b (cash +ℤ value) (omega int_laws) (omega int_laws) in
      let small = as_i32-pos quantity (omega (arith, few)) in
      let lost =
        signed_result-ok i32_half b (position -ℤ pos quantity) (omega int_laws) (omega int_laws) in
      (
        cash +ℤ value,
        position -ℤ pos quantity,
        rw (paid, small, lost) refl,
        omega int_laws,
        omega int_laws,
        omega int_laws,
        omega int_laws,
      )

-- The worth of an order of at most 1000 shares at a price in u32.
worth-within :
    (b : Build) (quantity price : ℕ)
    → quantity ≤ 1000
    → price < u32_mod
    → let worth = pos quantity *ℤ pos price in
      (mul_signed i64_half b (pos quantity) (pos price) ≡ ok worth)
      × (worth ≤ℤ pos (1000 * 2 ^ 32))
      × (pos 0 ≤ℤ worth +ℤ pos (1000 * 2 ^ 32))
worth-within b quantity price few cheap =
    let (top, low) =
      mul-within (pos quantity) price 1000 (2 ^ 32) (omega int_laws) (omega int_laws)
        (omega (arith, cheap)) in
    let worth : ℤ = pos quantity *ℤ pos price in
    (signed_result-ok i64_half b worth (omega (int_laws, top)) (omega (int_laws, low)), top, low)

-- The replay's exchange takes the stock's orders while there is a margin of one.
pub replay_gateway-Serves :
    (b : Build) (g : ReplayGateway) (locate : ℕ)
    → HasMargin g locate
    → Serves (replay_gateway b) g locate
unfolding send_order Settles
replay_gateway-Serves b g locate h = record {
  balanced = record {
    long = omega (int_laws, h.long);
    short = omega (int_laws, h.short);
    rich = omega (int_laws, h.rich);
    poor = omega (int_laws, h.poor);
  };
  takes = λ cmd here few cheap.
      let (valued, top, low) = worth-within b cmd.quantity cmd.price few cheap in
      let value : ℤ = pos cmd.quantity *ℤ pos cmd.price in
      let (cash, position, settled, c1, c2, p1, p2) =
        settle-Settles b (get_cash_balance g locate) (get_position g locate) value cmd.quantity
          h.long h.short h.rich h.poor top low few cmd.side in
      let g' : ReplayGateway = record {
        pending_fills = g.pending_fills ++ (fill_of cmd ∷ []);
        cash_balances = insert cmd.symbol_locate cash g.cash_balances;
        positions = insert cmd.symbol_locate position g.positions;
        last_prices = insert cmd.symbol_locate cmd.price g.last_prices;
      } in
      let holds : get_position g' locate ≡ position =
        ground
          (arith, here, lookup-insert locate locate position g.positions, ==_iff locate locate) in
      let has : get_cash_balance g' locate ≡ cash =
        ground
          (arith, here, lookup-insert locate locate cash g.cash_balances, ==_iff locate locate) in
      (
        g',
        rw (valued, here, settled) refl,
        record { long = rw holds p1; short = rw holds p2; rich = rw has c1; poor = rw has c2 },
      );
}

-- In both builds the replay's own strategy, exchange and telemetry ring handle an event without a
-- panic: from a processor that is ready, a message that respects the contract of the feed, while the
-- ids of the market and of the strategy are left in u64, the exchange's position and cash for the
-- stock have a margin of one order of 1000 shares, and the ring has room before its last slot. The
-- processor is ready again.
pub replay_event-Returns :
    (f : FloatOps) (b : Build) (clock : ℕ → ℕ) (k : ℕ) (p : SymbolProcessor f (simple_mid_point f))
    (w : World f (simple_mid_point f) (replay_gateway b) (telemetry_writer b clock))
    (msg : ItchMessage) (now : ℕ)
    → Ready f (simple_mid_point f) p
    → Respects f (simple_mid_point f) p msg
    → w.global_order_id + 1 < u64_mod
    → p.strategy.next_order_id + 1 < u64_mod
    → HasMargin w.gateway p.stock_locate
    → HasRoom k 1 w.telemetry_writer
    → (p' : SymbolProcessor f (simple_mid_point f)) × (w' : World f
        (simple_mid_point f)
        (replay_gateway b)
        (telemetry_writer b clock))
      × (handle_event f
            (simple_mid_point f)
            (replay_gateway b)
            (telemetry_writer b clock)
            b
            (p, w)
            msg
            now
          ≡ ok (p', w'))
      × Ready f (simple_mid_point f) p'
replay_event-Returns f b clock k p w msg now ready respects ids own_ids margin room =
    handle_event-Returns f (simple_mid_point f) (replay_gateway b) (telemetry_writer b clock) b p w
      msg now ready respects ids (simple_mid_point-Answers f b p.strategy own_ids)
      (replay_gateway-Serves b w.gateway p.stock_locate margin)
      (λ t.
        let (r, written, _) = telemetry-Gives f clock k b 0 w.telemetry_writer t room in
        (r, written))
