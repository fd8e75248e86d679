-- ===== src/Orderbook/Prices.antt =====
-- The prices of a book, which are u32 in the source, and the size of its levels.
use mathlib.Core.Path.{subst}
use hft_demo.Orderbook.Cancel.{cancelled, total-cancelled, cancel_order-WellFormed}
use hft_demo.Orderbook.Best.{best_bid_total, best_ask_total}
use hft_demo.Orderbook.Levels.{total}
use hft_demo.Orderbook.Invariant.{WellFormed, level}
use hft_demo.Common.{Side}
use hft_demo.Prelude.{
  Build, ℕ, ◌<◌, ◌+◌, ◌≡◌, ok, some, bind-ok, ◌≤◌, Bool-cases, ltb, arith, inl, inr, ◌-◌, refl,
  Option, Option-cases, none, ◌^◌,
}
use hft_demo.Prelude.Map.{lookup, lookup-insert}
use hft_demo.Orderbook.{
  L3OrderBook, new_book, add_order, Side, ℕ, get_best_bid, get_best_ask, Order, some, ok, or_zero,
  cancel_order, Option, cancel_found,
}
use hft_demo.Prelude.Word.{u32_mod, add_word, add_word-ok}

-- No price at or above 2^32 has shares, and no price has 2^31.
pub record PricesFit (book : L3OrderBook) : Type 0 where
  pub none_above : (s : Side) (p : ℕ) → level s (u32_mod + p) book ≡ 0
  pub light : (s : Side) (p : ℕ) → level s p book < 2 ^ 31

pub new_book-PricesFit : PricesFit new_book
unfolding lookup
new_book-PricesFit = record { none_above = none_there; light = nothing_there }
  where
    nothing_there : (s : Side) (p : ℕ) → level s p new_book < 2 ^ 31
    nothing_there Side.buy p = omega arith
    nothing_there Side.sell p = omega arith

    none_there : (s : Side) (p : ℕ) → level s (u32_mod + p) new_book ≡ 0
    none_there Side.buy p = refl
    none_there Side.sell p = refl

-- In a well-formed book the level of a price is what the orders at it add up to.
level-total :
    (book : L3OrderBook) (s : Side) (p : ℕ)
    → WellFormed book
    → level s p book ≡ total s p book.orders
level-total book Side.buy p w = w.buy_side.sums p
level-total book Side.sell p w = w.sell_side.sums p

module _ (b : Build) (book book' : L3OrderBook) (fit : PricesFit book) where
  pub add_order-PricesFit :
      (id : ℕ) (side : Side) (price quantity : ℕ)
      → price < u32_mod
      → level side price book + quantity < 2 ^ 31
      → add_order b book id side price quantity ≡ ok book'
      → PricesFit book'
  unfolding add_order
  add_order-PricesFit id Side.buy price quantity h few e = record {
    none_above = none_there;
    light = light_there;
  }
    where
      light_there : (s : Side) (p : ℕ) → level s p book' < 2 ^ 31
      light_there Side.buy p =
          let added =
            add_word-ok u32_mod b (or_zero (lookup price book.bids)) quantity
              (omega (arith, few)) in
          ground (
            arith,
            added,
            lookup-insert p price (or_zero (lookup price book.bids) + quantity) book.bids,
            fit.light Side.buy p,
            few,
            e,
          )
      light_there Side.sell p = ground (arith, fit.light Side.sell p)

      none_there : (s : Side) (p : ℕ) → level s (u32_mod + p) book' ≡ 0
      none_there Side.buy p =
          let (t, at, e') =
            bind-ok (add_word u32_mod b (or_zero (lookup price book.bids)) quantity) _ e in
          ground
            (arith, lookup-insert (u32_mod + p) price t book.bids, fit.none_above Side.buy p, e')
      none_there Side.sell p = ground (arith, fit.none_above Side.sell p)
  add_order-PricesFit id Side.sell price quantity h few e = record {
    none_above = none_there;
    light = light_there;
  }
    where
      light_there : (s : Side) (p : ℕ) → level s p book' < 2 ^ 31
      light_there Side.sell p =
          let added =
            add_word-ok u32_mod b (or_zero (lookup price book.asks)) quantity
              (omega (arith, few)) in
          ground (
            arith,
            added,
            lookup-insert p price (or_zero (lookup price book.asks) + quantity) book.asks,
            fit.light Side.sell p,
            few,
            e,
          )
      light_there Side.buy p = ground (arith, fit.light Side.buy p)

      none_there : (s : Side) (p : ℕ) → level s (u32_mod + p) book' ≡ 0
      none_there Side.sell p =
          let (t, at, e') =
            bind-ok (add_word u32_mod b (or_zero (lookup price book.asks)) quantity) _ e in
          ground
            (arith, lookup-insert (u32_mod + p) price t book.asks, fit.none_above Side.sell p, e')
      none_there Side.buy p = ground (arith, fit.none_above Side.buy p)

  pub cancelled-PricesFit :
      (id quantity : ℕ) (o : Order)
      → WellFormed book
      → WellFormed book'
      → lookup id book.orders ≡ some o
      → quantity ≤ o.quantity
      → book'.orders ≡ cancelled id quantity o book.orders
      → PricesFit book'
  cancelled-PricesFit id quantity o w w' e h same = record {
    none_above = λ s p. ground (
      arith,
      same,
      level-total book s (u32_mod + p) w,
      level-total book' s (u32_mod + p) w',
      total-cancelled id quantity o book.orders w.orders_sorted e s (u32_mod + p) h,
      fit.none_above s p,
    );
    light = λ s p. ground (
      arith,
      same,
      level-total book s p w,
      level-total book' s p w',
      total-cancelled id quantity o book.orders w.orders_sorted e s p h,
      fit.light s p,
    );
  }

module _ (book : L3OrderBook) (w : WellFormed book) (fit : PricesFit book) where
  pub best_bid-light : (p q : ℕ) → get_best_bid book ≡ some (p, q) → q < 2 ^ 31
  best_bid-light p q e =
      let (sum, more) = best_bid_total book w p q e in
      omega (arith, sum, fit.light Side.buy p, level-total book Side.buy p w)

  pub best_ask-light : (p q : ℕ) → get_best_ask book ≡ some (p, q) → q < 2 ^ 31
  best_ask-light p q e =
      let (sum, more) = best_ask_total book w p q e in
      omega (arith, sum, fit.light Side.sell p, level-total book Side.sell p w)

  pub best_bid-lt : (p q : ℕ) → get_best_bid book ≡ some (p, q) → p < u32_mod
  best_bid-lt p q e =
      let (sum, more) = best_bid_total book w p q e in
      elim (Bool-cases (ltb p u32_mod)) [
        | inl low ↦ ground (arith, low)
        | inr high ↦
            let at : u32_mod + (p - u32_mod) ≡ p = ground (arith, high) in
            absurd (
              ground (
                arith,
                sum,
                more,
                at,
                fit.none_above Side.buy (p - u32_mod),
                level-total book Side.buy p w,
              ))
      ]

  pub best_ask-lt : (p q : ℕ) → get_best_ask book ≡ some (p, q) → p < u32_mod
  best_ask-lt p q e =
      let (sum, more) = best_ask_total book w p q e in
      elim (Bool-cases (ltb p u32_mod)) [
        | inl low ↦ ground (arith, low)
        | inr high ↦
            let at : u32_mod + (p - u32_mod) ≡ p = ground (arith, high) in
            absurd (
              ground (
                arith,
                sum,
                more,
                at,
                fit.none_above Side.sell (p - u32_mod),
                level-total book Side.sell p w,
              ))
      ]

-- At most the shares of the order, if there is one.
abbrev pub AtMost : ℕ → Option Order → Type 0
AtMost quantity none = Unit {0}
AtMost quantity (some o) = quantity ≤ o.quantity

-- A book that can be used on.
abbrev pub IsSound : L3OrderBook → Type 0
IsSound book = WellFormed book × PricesFit book

-- A cancellation of at most the order's shares, or of an unknown order, returns a sound book.
pub cancel-IsSound :
    (b : Build) (book : L3OrderBook) (id quantity : ℕ)
    → IsSound book
    → AtMost quantity (lookup id book.orders)
    → (book' : L3OrderBook) × (cancel_order b book id quantity ≡ ok book') × IsSound book'
unfolding cancel_order cancel_found
cancel-IsSound b book id quantity (w, fit) h = elim (Option-cases (lookup id book.orders)) [
  | inl e ↦ (book, rw (e, cancel_order) refl, (w, fit))
  | inr (o, e) ↦
      let few : quantity ≤ o.quantity = subst (AtMost quantity) e h in
      let (book', done, w', same) = cancel_order-WellFormed b book id quantity o w e few in
      (book', done, (w', cancelled-PricesFit b book book' fit id quantity o w w' e few same))
]
