-- ===== src/Strategies/Release.antt =====
-- The program's strategy in a release build.
use hft_demo.Prelude.Int.{◌+ℤ◌, ◌-ℤ◌}
use hft_demo.Prelude.Word.{
  add_word-release, u64_mod, u32_mod, signed_result-release, i32_half, as_i32,
}
use hft_demo.Common.{OrderSide, AggressorSide, buyer, seller}
use hft_demo.Prelude.{
  ℕ, Returns, release, Bool-cases, bind-Returns_both, some, inl, inr, refl, none,
}
use hft_demo.Prelude.Float.{FloatOps}
use hft_demo.Strategies.{
  SimpleMidPoint, Quote, send, is_buy_signal, is_sell_signal, decide, on_book_update, on_trade,
  generate_id, FloatOps, ℕ, OrderSide,
}

module _ (f : FloatOps) where
  send-Returns :
      (s : SimpleMidPoint f) (side : OrderSide) (price : ℕ) → Returns (send f release s side price)
  unfolding send generate_id
  send-Returns s side price =
      bind-Returns_both _ _
        (bind-Returns_both _ _ (add_word-release u64_mod s.next_order_id 1) (λ next. (_, refl)))
        (λ (id, s'). (_, refl))

  decide-Returns :
      (s : SimpleMidPoint f) (bid ask : ℕ) (imbalance : f.Float)
      → Returns (decide f release s bid ask imbalance)
  unfolding decide
  decide-Returns s bid ask imbalance = elim (Bool-cases (is_buy_signal f s imbalance)) [
    | inl buys ↦ rw buys (send-Returns s OrderSide.buy ask)
    | inr waits ↦ elim (Bool-cases (is_sell_signal f s imbalance)) [
      | inl sells ↦ rw (waits, sells) (send-Returns s OrderSide.sell bid)
      | inr waits' ↦ ((s, none), rw (waits, waits') refl)
    ]
  ]

  pub on_book_update-Returns :
      (s : SimpleMidPoint f) (bid ask : Quote) → Returns (on_book_update f release s bid ask)
  unfolding on_book_update
  on_book_update-Returns s none ask = ((s, none), refl)
  on_book_update-Returns s (some bid) none = ((s, none), refl)
  on_book_update-Returns s (some (bid, bid_qty)) (some (ask, ask_qty)) =
      bind-Returns_both _ _ (add_word-release u64_mod bid ask) (λ prices.
        bind-Returns_both _ _ (add_word-release u32_mod bid_qty ask_qty) (λ volume.
          let s' : SimpleMidPoint f = record s {
            prev_mid_price = s.mid_price;
            mid_price = f.div (f.of_nat prices) (f.of_nat 2);
          } in
          elim (Bool-cases (f.equal (f.of_nat volume) (f.of_nat 0))) [
            | inl nothing ↦ ((s', none), rw nothing refl)
            | inr something ↦ rw something (decide-Returns s' bid ask _)
          ]))

  pub on_trade-Returns :
      (s : SimpleMidPoint f) (price quantity : ℕ) (side : AggressorSide)
      → Returns (on_trade f release s price quantity side)
  unfolding on_trade
  on_trade-Returns s price quantity buyer =
      bind-Returns_both _ _ (add_word-release u64_mod s.trade_count 1) (λ count.
        bind-Returns_both _ _ (signed_result-release i32_half (s.position +ℤ as_i32 quantity))
          (λ position. (_, refl)))
  on_trade-Returns s price quantity seller =
      bind-Returns_both _ _ (add_word-release u64_mod s.trade_count 1) (λ count.
        bind-Returns_both _ _ (signed_result-release i32_half (s.position -ℤ as_i32 quantity))
          (λ position. (_, refl)))
