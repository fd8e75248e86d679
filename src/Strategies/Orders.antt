-- ===== src/Strategies/Orders.antt =====
-- What the strategy sends, and when.
use hft_demo.Prelude.{ℕ, ◌+◌, ◌%◌, ◌<◌, ◌≡◌, ◌⊎◌, ◌↔◌, true, false, some, arith, Build, ok}
use hft_demo.Prelude.Int.{pos, negsuc, ◌≤ℤ◌}
use hft_demo.Prelude.Word.{u32_mod, u64_mod}
use hft_demo.Prelude.Float.{FloatOps}
use hft_demo.Common.{OrderSide, OrderCommand}
use hft_demo.Strategies.{SimpleMidPoint, on_book_update}

module _ (f : FloatOps) where
  open f use {Float, of_nat, sub, div, less, equal}

  -- A buyers' imbalance with the mid price rising and a position of at most 5000.
  abbrev pub BuySignal : SimpleMidPoint f → Float → Float → Type 0
  BuySignal s mid imbalance =
      (less s.imbalance_threshold imbalance ≡ true)
      × (less s.mid_price mid ≡ true)
      × (s.position ≤ℤ pos 5000)

  -- A sellers' imbalance with the mid price falling and a position above -5000.
  abbrev pub SellSignal : SimpleMidPoint f → Float → Float → Type 0
  SellSignal s mid imbalance =
      (less imbalance (sub (of_nat 1) s.imbalance_threshold) ≡ true)
      × (less mid s.mid_price ≡ true)
      × (negsuc 4998 ≤ℤ s.position)

  abbrev pub order_of : SimpleMidPoint f → OrderSide → ℕ → OrderCommand
  order_of s side price = record {
    symbol_locate = 0;
    order_id = s.next_order_id;
    price = price % u32_mod;
    quantity = 100;
    side = side;
  }

  -- The state after an order is sent at a mid price.
  abbrev pub after_order : SimpleMidPoint f → Float → SimpleMidPoint f
  after_order s mid = record s {
    mid_price = mid;
    prev_mid_price = s.mid_price;
    next_order_id = s.next_order_id + 1;
  }

  -- The order that answers two best quotes: a buy signal comes first.
  abbrev pub Answer : SimpleMidPoint f → Float → Float → ℕ → ℕ → OrderCommand → Type 0
  Answer s mid imbalance bid_price ask_price cmd =
      (BuySignal s mid imbalance × (cmd ≡ order_of s OrderSide.buy ask_price))
      ⊎ ((¬ BuySignal s mid imbalance)
          × SellSignal s mid imbalance
          × (cmd ≡ order_of s OrderSide.sell bid_price))

  -- On two best quotes whose prices add up below 2^64 and whose quantities add up below 2^32, and with
  -- an id below 2^64 - 1, the strategy sends exactly when the quantities do not add up to zero and there is a
  -- signal: on a buyers' imbalance with the mid price rising and a position of at most 5000 it buys
  -- 100 shares at the ask; else, on a sellers' imbalance with the mid price falling and a position
  -- above -5000, it sells 100 at the bid. The order has the strategy's next id, which is then used
  -- up, and of the rest of the state only the mid price changes, to the half of the prices' sum, and
  -- the mid price before it is kept.
  pub on_book_update-some :
      (b : Build) (s s' : SimpleMidPoint f) (bid_price bid_qty ask_price ask_qty : ℕ)
      (cmd : OrderCommand)
      → bid_price + ask_price < u64_mod
      → bid_qty + ask_qty < u32_mod
      → s.next_order_id + 1 < u64_mod
      → let mid = div (of_nat (bid_price + ask_price)) (of_nat 2) in
        let imbalance = div (of_nat bid_qty) (of_nat (bid_qty + ask_qty)) in
        (on_book_update f b s (some (bid_price, bid_qty)) (some (ask_price, ask_qty))
          ≡ ok (s', some cmd))
        ↔ ((equal (of_nat (bid_qty + ask_qty)) (of_nat 0) ≡ false)
            × (s' ≡ after_order s mid)
            × Answer s mid imbalance bid_price ask_price cmd)
  unfolding on_book_update
  on_book_update-some b s s' bp bq ap aq cmd prices fits next = ground arith
