-- ===== src/Strategies/Position.antt =====
-- The position of the strategy, when its orders are filled on the side that they were sent for.
use hft_demo.Prelude.{
  ℕ, ◌+◌, ◌*◌, ◌<◌, ◌≤◌, ◌≡◌, ◌⊎◌, none, some, suc, List, [], ◌∷◌, ◌++◌, length, length-append,
  arith, Build, ok, inl, inr, bind-ok, Bool-cases, Outcome-cases,
}
use hft_demo.Prelude.Int.{pos, negsuc, ◌≤ℤ◌, ◌+ℤ◌, ◌-ℤ◌, int_laws, ℤ}
use hft_demo.Prelude.Word.{u32_mod, u64_mod, signed_result-ok, i32_half, add_word}
use hft_demo.Prelude.Float.{FloatOps}
use hft_demo.Common.{OrderSide, OrderCommand, AggressorSide}
use hft_demo.Strategies.{SimpleMidPoint, Quote, new_mid_point, on_book_update, on_trade, decide}

abbrev pub taker : OrderSide → AggressorSide
taker OrderSide.buy = AggressorSide.buyer
taker OrderSide.sell = AggressorSide.seller

-- How many of a list of orders are on a side.
unfoldable buys : List OrderSide → ℕ
buys [] = 0
buys (OrderSide.buy ∷ rest) = suc (buys rest)
buys (OrderSide.sell ∷ rest) = buys rest

unfoldable sells : List OrderSide → ℕ
sells [] = 0
sells (OrderSide.buy ∷ rest) = sells rest
sells (OrderSide.sell ∷ rest) = suc (sells rest)

buys-append : (xs ys : List OrderSide) → buys (xs ++ ys) ≡ buys xs + buys ys
unfolding buys
buys-append [] ys = omega arith
buys-append (OrderSide.buy ∷ xs) ys = omega (arith, buys-append xs ys)
buys-append (OrderSide.sell ∷ xs) ys = buys-append xs ys

sells-append : (xs ys : List OrderSide) → sells (xs ++ ys) ≡ sells xs + sells ys
unfolding sells
sells-append [] ys = omega arith
sells-append (OrderSide.buy ∷ xs) ys = sells-append xs ys
sells-append (OrderSide.sell ∷ xs) ys = omega (arith, sells-append xs ys)

buys-le : (xs : List OrderSide) → buys xs ≤ length xs
unfolding buys
buys-le [] = omega arith
buys-le (OrderSide.buy ∷ xs) = omega (arith, buys-le xs)
buys-le (OrderSide.sell ∷ xs) = omega (arith, buys-le xs)

sells-le : (xs : List OrderSide) → sells xs ≤ length xs
unfolding sells
sells-le [] = omega arith
sells-le (OrderSide.buy ∷ xs) = omega (arith, sells-le xs)
sells-le (OrderSide.sell ∷ xs) = omega (arith, sells-le xs)

module _ (f : FloatOps) (b : Build) where
  -- The states of a strategy of which at most n orders are out at a time, with the sides of those out:
  -- it starts, is told the best quotes, and is told the whole fill of the order that is out the
  -- longest, on the side that the order was sent for.
  pub data Reached (n : ℕ) : List OrderSide → SimpleMidPoint f → Type 0 where
    started : (threshold : f.Float) → Reached n [] (new_mid_point f threshold)
    quiet :
        (out : List OrderSide) (s s' : SimpleMidPoint f) (bid ask : Quote)
        → Reached n out s
        → on_book_update f b s bid ask ≡ ok (s', none)
        → Reached n out s'
    sends :
        (out : List OrderSide) (s s' : SimpleMidPoint f) (bid ask : Quote) (cmd : OrderCommand)
        → Reached n out s
        → length out < n
        → on_book_update f b s bid ask ≡ ok (s', some cmd)
        → Reached n (out ++ (cmd.side ∷ [])) s'
    fills :
        (side : OrderSide) (out : List OrderSide) (s s' : SimpleMidPoint f) (price : ℕ)
        → Reached n (side ∷ out) s
        → on_trade f b s price 100 (taker side) ≡ ok (s', none)
        → Reached n out s'

  -- What an update that sends does to the position, and the cap on the side that it sends for.
  abbrev Sent : SimpleMidPoint f → SimpleMidPoint f → OrderCommand → Type 0
  Sent s s' cmd =
      (cmd.quantity ≡ 100)
      × (s'.position ≡ s.position)
      × (((cmd.side ≡ OrderSide.buy) × (s.position ≤ℤ pos 5000))
          ⊎ ((cmd.side ≡ OrderSide.sell) × (negsuc 4998 ≤ℤ s.position)))

  decide_lem :
      (s s' : SimpleMidPoint f) (bid_price ask_price : ℕ) (imbalance : f.Float) (cmd : OrderCommand)
      → decide f b s bid_price ask_price imbalance ≡ ok (s', some cmd)
      → Sent s s' cmd
  unfolding decide
  decide_lem s s' bid_price ask_price imbalance cmd e =
      elim (Outcome-cases (add_word u64_mod b s.next_order_id 1)) [
        | inl stops ↦ ground (arith, stops)
        | inr (next, added) ↦ ground (arith, added)
      ]

  -- An update on two best quotes is a decision on the state with another mid price, or sends nothing.
  decided :
      (s s' : SimpleMidPoint f) (bid_price bid_qty ask_price ask_qty : ℕ) (cmd : OrderCommand)
      → on_book_update f b s (some (bid_price, bid_qty)) (some (ask_price, ask_qty))
        ≡ ok (s', some cmd)
      → (mid imbalance : f.Float) × (decide f b
            (record s { mid_price = mid; prev_mid_price = s.mid_price })
            bid_price
            ask_price
            imbalance
          ≡ ok (s', some cmd))
  unfolding on_book_update
  decided s s' bp bq ap aq cmd e =
      let (prices, _, e1) = bind-ok (add_word u64_mod b bp ap) _ e in
      let (volume, _, e2) = bind-ok (add_word u32_mod b bq aq) _ e1 in
      elim (Bool-cases (f.equal (f.of_nat volume) (f.of_nat 0))) [
        | inl none_there ↦ absurd (ground (arith, e2, none_there))
        | inr there ↦ (
          f.div (f.of_nat prices) (f.of_nat 2),
          f.div (f.of_nat bq) (f.of_nat volume),
          rw there at e2,
        )
      ]

  sends_lem :
      (s s' : SimpleMidPoint f) (bid ask : Quote) (cmd : OrderCommand)
      → on_book_update f b s bid ask ≡ ok (s', some cmd)
      → Sent s s' cmd
  unfolding on_book_update
  sends_lem s s' (some (bp, bq)) (some (ap, aq)) cmd e =
      let (mid, imbalance, done) = decided s s' bp bq ap aq cmd e in
      decide_lem (record s { mid_price = mid; prev_mid_price = s.mid_price }) s' bp ap imbalance cmd
        done
  sends_lem s s' (some _) none cmd e = absurd (ground arith)
  sends_lem s s' none ask cmd e = absurd (ground arith)

  quiet_lem :
      (s s' : SimpleMidPoint f) (bid ask : Quote)
      → on_book_update f b s bid ask ≡ ok (s', none)
      → s'.position ≡ s.position
  unfolding on_book_update
  quiet_lem s s' (some (bp, bq)) (some (ap, aq)) e =
      let (prices, _, e1) = bind-ok (add_word u64_mod b bp ap) _ e in
      let (volume, _, e2) = bind-ok (add_word u32_mod b bq aq) _ e1 in ground arith
  quiet_lem s s' (some _) none e = ground arith
  quiet_lem s s' none ask e = ground arith

  -- The cap with the orders that are out, and those that may be, on top.
  abbrev Within : ℕ → List OrderSide → SimpleMidPoint f → Type 0
  Within n out s =
      (length out ≤ n)
      × (s.position +ℤ pos (100 * buys out) ≤ℤ pos (5000 + 100 * n))
      × (pos 0 ≤ℤ (s.position -ℤ pos (100 * sells out)) +ℤ pos (4999 + 100 * n))

  fill_position :
      (side : OrderSide) (s s' : SimpleMidPoint f) (price : ℕ)
      → s.position +ℤ pos 101 ≤ℤ pos i32_half
      → pos 100 ≤ℤ s.position +ℤ pos i32_half
      → on_trade f b s price 100 (taker side) ≡ ok (s', none)
      → s'.position ≡ elim side [
        | OrderSide.buy ↦ s.position +ℤ pos 100
        | OrderSide.sell ↦ s.position -ℤ pos 100
      ]
  unfolding on_trade
  fill_position OrderSide.buy s s' price high low e =
      let next : ℤ = s.position +ℤ pos 100 in
      ground (arith, signed_result-ok i32_half b next (omega int_laws) (omega int_laws))
  fill_position OrderSide.sell s s' price high low e =
      let next : ℤ = s.position -ℤ pos 100 in
      ground (arith, signed_result-ok i32_half b next (omega int_laws) (omega int_laws))

  sends-Within :
      (n : ℕ) (out : List OrderSide) (s s' : SimpleMidPoint f) (cmd : OrderCommand)
      → length out < n
      → Sent s s' cmd
      → Within n out s
      → Within n (out ++ (cmd.side ∷ [])) s'
  unfolding buys sells
  sends-Within n out s s' cmd room (_, same, side) (_, top, low) =
      let grown = length-append {0} out (cmd.side ∷ []) in
      let bought = buys-append out (cmd.side ∷ []) in
      let sold = sells-append out (cmd.side ∷ []) in
      elim side [
        | inl (is_buy, cap) ↦
            rw (same, is_buy, rw is_buy at bought, rw is_buy at sold, rw is_buy at grown)
              (omega (arith, room), omega (int_laws, cap, room, buys-le out), omega (int_laws, low))
        | inr (is_sell, cap) ↦
            rw (same, is_sell, rw is_sell at bought, rw is_sell at sold, rw is_sell at grown)
              (
                omega (arith, room),
                omega (int_laws, top),
                omega (int_laws, cap, room, sells-le out),
              )
      ]

  fills-Within :
      (n : ℕ) (side : OrderSide) (out : List OrderSide) (s s' : SimpleMidPoint f) (price : ℕ)
      → 5100 + 100 * n < i32_half
      → on_trade f b s price 100 (taker side) ≡ ok (s', none)
      → Within n (side ∷ out) s
      → Within n out s'
  unfolding buys sells
  fills-Within n OrderSide.buy out s s' price small e (room, top, low) =
      let next =
        fill_position OrderSide.buy s s' price (omega (int_laws, top, small))
          (omega (int_laws, low, small)) e in
      rw next (omega (arith, room), omega (int_laws, top), omega (int_laws, low))
  fills-Within n OrderSide.sell out s s' price small e (room, top, low) =
      let next =
        fill_position OrderSide.sell s s' price (omega (int_laws, top, small))
          (omega (int_laws, low, small)) e in
      rw next (omega (arith, room), omega (int_laws, top), omega (int_laws, low))

  Reached-Within :
      (n : ℕ) (out : List OrderSide) (s : SimpleMidPoint f)
      → 5100 + 100 * n < i32_half
      → Reached n out s
      → Within n out s
  unfolding buys sells
  Reached-Within n out s small (started threshold) = (omega arith, omega int_laws, omega int_laws)
  Reached-Within n out s' small (quiet o s s1 bid ask r e) =
      let (room, top, low) = Reached-Within n o s small r in
      let same = quiet_lem s s' bid ask e in (room, rw same top, rw same low)
  Reached-Within n out s' small (sends o s s1 bid ask cmd r room e) =
      sends-Within n o s s1 cmd room (sends_lem s s1 bid ask cmd e) (Reached-Within n o s small r)
  Reached-Within n out s' small (fills side o s s1 price r e) =
      fills-Within n side o s s1 price small e (Reached-Within n (side ∷ o) s small r)

  -- In both builds, from the start on, whatever the best quotes: while at most n orders are out, each
  -- of which is filled whole, in the order of sending, and reported on the side that it was sent for, with
  -- any number of updates between, the position stays from -(4999 + 100 n) to 5000 + 100 n, if
  -- 5100 + 100 n is below 2^31. One order at a time keeps it from -5099 to 5100.
  pub Reached-capped :
      (n : ℕ) (out : List OrderSide) (s : SimpleMidPoint f)
      → 5100 + 100 * n < i32_half
      → Reached n out s
      → (pos 0 ≤ℤ s.position +ℤ pos (4999 + 100 * n)) × (s.position ≤ℤ pos (5000 + 100 * n))
  Reached-capped n out s small r =
      let (_, top, low) = Reached-Within n out s small r in
      (omega (int_laws, low), omega (int_laws, top))
