-- ===== src/Replay/Accounts.antt =====
-- The risk engine's position of a stock, and the position at the replay's exchange.
use mathlib.Core.Path.{subst}
use hft_demo.Market.Orders.{handle_event-Sends}
use hft_demo.Market.Safety.{HasLimits, event-HasLimits}
use hft_demo.Itch.{ItchMessage}
use hft_demo.Market.{MessageAnalyticsWriter, SymbolProcessor, ExchangeGateway, World, handle_event}
use hft_demo.Strategies.{Strategy}
use hft_demo.Prelude.Float.{FloatOps}
use hft_demo.Prelude.Map.{insert, lookup-insert}
use hft_demo.Risk.Position.{signed, check-passed}
use hft_demo.Prelude.Word.{i32_half, as_i32-pos, signed_result-ok, mul_signed, i64_half}
use hft_demo.Prelude.Int.{ℤ, Fits, ◌+ℤ◌, pos, add_negated, ◌-ℤ◌, ◌≤ℤ◌, int_laws}
use hft_demo.Common.{OrderSide, OrderCommand}
use hft_demo.Replay.Gateway.{
  settle, send_order, ReplayGateway, get_position, get_cash_balance, replay_gateway,
}
use hft_demo.Prelude.{
  ℕ, Build, ◌<◌, ◌≡◌, ok, arith, if◌then◌else◌, ◌==◌, bind-ok, ◌≢◌, inl, ap, ◌∙◌, sym, ==_iff, inr,
}

settle-position :
    (b : Build) (side : OrderSide) (money money' position position' value : ℤ) (quantity : ℕ)
    → quantity < i32_half
    → Fits i32_half (position +ℤ signed side quantity)
    → settle b side money position value quantity ≡ ok (money', position')
    → position' ≡ position +ℤ signed side quantity
unfolding settle
settle-position b OrderSide.buy money money' position position' value quantity small fits e =
    ground (
      arith,
      as_i32-pos quantity small,
      signed_result-ok i32_half b (position +ℤ pos quantity) fits.0 fits.1,
    )
settle-position b OrderSide.sell money money' position position' value quantity small fits e =
    ground (
      arith,
      as_i32-pos quantity small,
      add_negated position (pos quantity),
      signed_result-ok i32_half b (position +ℤ (pos 0 -ℤ pos quantity)) fits.0 fits.1,
    )

-- Whatever becomes of the cash, an accepted order moves the shares of its stock, and no others.
pub send_order-position :
    (b : Build) (g g' : ReplayGateway) (cmd : OrderCommand)
    → send_order b g cmd ≡ ok g'
    → cmd.quantity < i32_half
    → Fits i32_half (get_position g cmd.symbol_locate +ℤ signed cmd.side cmd.quantity)
    → (l : ℕ)
    → get_position g' l ≡ (
        if l == cmd.symbol_locate
        then get_position g cmd.symbol_locate +ℤ signed cmd.side cmd.quantity
        else get_position g l)
unfolding send_order
send_order-position b g g' cmd e small fits l =
    let (value, priced, e1) =
      bind-ok (mul_signed i64_half b (pos cmd.quantity) (pos cmd.price)) _ e in
    let ((money, position), settled, e2) =
      bind-ok
        (settle b cmd.side (get_cash_balance g cmd.symbol_locate) (get_position g cmd.symbol_locate)
          value cmd.quantity)
        _ e1 in
    let moved =
      settle-position b cmd.side _ money _ position value cmd.quantity small fits settled in
    let stored : g'.positions ≡ insert cmd.symbol_locate position g.positions =
      ground (arith, e2) in
    rw stored (ground (arith, moved, lookup-insert l cmd.symbol_locate position g.positions))

module _ (f : FloatOps) (st : Strategy) (wr : MessageAnalyticsWriter) (b : Build) where
  abbrev pub gw : ExchangeGateway
  gw = replay_gateway b

  abbrev pub Agrees : ReplayGateway → SymbolProcessor f st → Type 0
  Agrees g p = get_position g p.stock_locate ≡ p.risk_engine.current_position

  HasLimits-Fits :
      (p : SymbolProcessor f st)
      → HasLimits f st wr gw p
      → Fits i32_half p.risk_engine.current_position
  HasLimits-Fits p h =
      within p.risk_engine.current_position
        (subst (λ z. p.risk_engine.current_position ≤ℤ z) h.position_limit h.safe.limited)
        (subst (λ z. pos 0 ≤ℤ p.risk_engine.current_position +ℤ z) h.position_limit
          h.safe.limited_short)
    where
      within : (z : ℤ) → z ≤ℤ pos 3500 → pos 0 ≤ℤ z +ℤ pos 3500 → Fits i32_half z
      within z top low = (omega int_laws, omega int_laws)

  pub event-Agrees :
      (p p' : SymbolProcessor f st) (w w' : World f st gw wr) (msg : ItchMessage) (now : ℕ)
      → handle_event f st gw wr b (p, w) msg now ≡ ok (p', w')
      → HasLimits f st wr gw p
      → Agrees w.gateway p
      → Agrees w'.gateway p'
        × ((l : ℕ) → l ≢ p.stock_locate → get_position w'.gateway l ≡ get_position w.gateway l)
  event-Agrees p p' w w' msg now e h a =
      let (sends, follows) = handle_event-Sends f st gw wr b p p' w w' msg now e in
      let h' = event-HasLimits f st wr gw b p p' w w' msg now e h in
      elim sends [
        | inl one ↦
            let (small, moved, _) =
              check-passed f b p.risk_engine p'.risk_engine _ _ _ h.safe one.passed in
            let cmd : OrderCommand = record one.answer {
              symbol_locate = p.stock_locate;
              order_id = w.global_order_id;
            } in
            let total = ap (λ r. r.current_position) moved in
            let same : get_position w.gateway p.stock_locate +ℤ signed cmd.side cmd.quantity
                ≡ p'.risk_engine.current_position =
              ap (λ z. z +ℤ signed cmd.side cmd.quantity) a ∙ sym total in
            let at_exchange =
              send_order-position b w.gateway w'.gateway cmd one.sent
                (omega (arith, h.qty_limit, small))
                (subst (Fits i32_half) (sym same) (HasLimits-Fits p' h')) in
            (
              ground (
                arith,
                at_exchange p.stock_locate,
                a,
                total,
                follows.same_locate,
                ==_iff p.stock_locate p.stock_locate,
              ),
              λ l other. ground (arith, at_exchange l, other, ==_iff l p.stock_locate),
            )
        | inr nothing ↦ (
          ground (arith, a, follows.same_locate, nothing.same_gateway, nothing.same_risk),
          λ l other. ap (λ g. get_position g l) nothing.same_gateway,
        )
      ]
