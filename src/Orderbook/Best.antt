-- ===== src/Orderbook/Best.antt =====
-- The best bid, the best ask and the spread, against the orders themselves.
use hft_demo.Prelude.{
  ℕ, ◌-◌, ◌≤◌, ◌<◌, ◌≡◌, refl, inl, inr, Option, some, [], ◌∷◌, arith, ◌==◌, ==_iff, Option-cases,
  Bool-cases,
}
use hft_demo.Prelude.Map.{Map, lookup, first, last, IsSorted, lookup-Above}
use hft_demo.Common.{Side}
use hft_demo.Orderbook.{Order, L3OrderBook, get_best_bid, get_best_ask, spread}
use hft_demo.Orderbook.Levels.{total, share-le-total, lookup-AllLive}
use hft_demo.Orderbook.Sides.{SideWellFormed}
use hft_demo.Orderbook.Invariant.{WellFormed}

-- The last entry of a sorted map has the greatest key.
IsLast : ℕ → Map ℕ → Option (ℕ × ℕ) → Type 0
IsLast k m r = (p : ℕ) × (q : ℕ) × (r ≡ some (p, q)) × (lookup p m ≡ some q) × (k ≤ p)

last-IsLast : (k v : ℕ) (m : Map ℕ) → IsSorted m → lookup k m ≡ some v → IsLast k m (last m)
unfolding IsLast lookup last
last-IsLast k v [] s e = absurd (ground arith)
last-IsLast k v ((i, w) ∷ []) s e = (i, w, refl, ground (arith, ==_iff i i), ground arith)
last-IsLast k v ((i, w) ∷ (j, u) ∷ m) s e = elim (Bool-cases (k == i)) [
  | inl same ↦
      let (p, q, r, l, g) = last-IsLast j u ((j, u) ∷ m) s.1 (ground (arith, ==_iff j j)) in
      (p, q, r, ground arith, ground arith)
  | inr other ↦
      let (p, q, r, l, g) = last-IsLast k v ((j, u) ∷ m) s.1 (ground arith) in
      (p, q, r, ground (arith, lookup-Above p i ((j, u) ∷ m) s), g)
]

first-IsFirst :
    (k v : ℕ) (m : Map ℕ)
    → IsSorted m
    → lookup k m ≡ some v
    → (p : ℕ) × (q : ℕ) × (first m ≡ some (p, q)) × (lookup p m ≡ some q) × (p ≤ k)
unfolding lookup first
first-IsFirst k v [] s e = absurd (ground arith)
first-IsFirst k v ((i, w) ∷ m) s e =
    (i, w, refl, ground (arith, ==_iff i i), ground (arith, lookup-Above k i m s))

-- An entry that is last or first is an entry.
lookup-last : (p q : ℕ) (m : Map ℕ) → IsSorted m → last m ≡ some (p, q) → lookup p m ≡ some q
unfolding lookup last
lookup-last p q [] s e = absurd (ground arith)
lookup-last p q ((i, w) ∷ []) s e = ground (arith, ==_iff p p)
lookup-last p q ((i, w) ∷ (j, u) ∷ m) s e =
    ground (arith, lookup-last p q ((j, u) ∷ m) s.1 e, lookup-Above p i ((j, u) ∷ m) s)

lookup-first : (p q : ℕ) (m : Map ℕ) → first m ≡ some (p, q) → lookup p m ≡ some q
unfolding lookup first
lookup-first p q [] e = absurd (ground arith)
lookup-first p q ((i, w) ∷ m) e = ground (arith, ==_iff p p)

-- A level that is there holds the shares of its orders, of which there are some.
level_sum :
    (s : Side) (p q : ℕ) (orders : Map Order) (m : Map ℕ)
    → SideWellFormed s orders m
    → lookup p m ≡ some q
    → (q ≡ total s p orders) × (0 < q)
level_sum s p q orders m w e = ground (arith, w.sums p, w.full p)

level_exists :
    (s : Side) (orders : Map Order) (m : Map ℕ) (p : ℕ)
    → SideWellFormed s orders m
    → 0 < total s p orders
    → (q : ℕ) × (lookup p m ≡ some q)
level_exists s orders m p w h = elim (Option-cases (lookup p m)) [
  | inl e ↦ absurd (ground (arith, w.sums p))
  | inr f ↦ f
]

module _ (book : L3OrderBook) (w : WellFormed book) where
  -- A best bid that is reported is a price at which buyers rest, with all their shares; likewise a
  -- best ask for sellers.
  pub best_bid_total :
      (p q : ℕ) → get_best_bid book ≡ some (p, q) → (q ≡ total Side.buy p book.orders) × (0 < q)
  unfolding get_best_bid
  best_bid_total p q e =
      level_sum Side.buy p q book.orders book.bids w.buy_side
        (lookup-last p q book.bids w.buy_side.sorted e)

  pub best_ask_total :
      (p q : ℕ) → get_best_ask book ≡ some (p, q) → (q ≡ total Side.sell p book.orders) × (0 < q)
  unfolding get_best_ask
  best_ask_total p q e =
      level_sum Side.sell p q book.orders book.asks w.sell_side (lookup-first p q book.asks e)

  module _ (id : ℕ) (o : Order) (e : lookup id book.orders ≡ some o) where
    rests : (s : Side) → o.side ≡ s → 0 < total s o.price book.orders
    rests Side.buy es = ground (
      arith,
      share-le-total Side.buy o.price id o book.orders e,
      lookup-AllLive id o book.orders w.live e,
      ==_iff o.price o.price,
    )
    rests Side.sell es = ground (
      arith,
      share-le-total Side.sell o.price id o book.orders e,
      lookup-AllLive id o book.orders w.live e,
      ==_iff o.price o.price,
    )

    -- While a buy order rests in a well-formed book there is a best bid, at its price or above,
    -- and its quantity is that of all the orders to buy at the best price.
    pub get_best_bid-ge :
        o.side ≡ Side.buy
        → (p : ℕ) × (q : ℕ) × (get_best_bid book ≡ some (p, q))
          × (q ≡ total Side.buy p book.orders)
          × (o.price ≤ p)
    unfolding get_best_bid IsLast
    get_best_bid-ge es =
        let (v, f) =
          level_exists Side.buy book.orders book.bids o.price w.buy_side (rests Side.buy es) in
        let (p, q, r, l, g) = last-IsLast o.price v book.bids w.buy_side.sorted f in
        (p, q, r, (level_sum Side.buy p q book.orders book.bids w.buy_side l).0, g)

    -- While a sell order rests in a well-formed book there is a best ask, at its price or below,
    -- with the quantity of all the orders to sell at that price.
    get_best_ask-le :
        o.side ≡ Side.sell
        → (p : ℕ) × (q : ℕ) × (get_best_ask book ≡ some (p, q))
          × (q ≡ total Side.sell p book.orders)
          × (p ≤ o.price)
    unfolding get_best_ask
    get_best_ask-le es =
        let (v, f) =
          level_exists Side.sell book.orders book.asks o.price w.sell_side (rests Side.sell es) in
        let (p, q, r, l, g) = first-IsFirst o.price v book.asks w.sell_side.sorted f in
        (p, q, r, (level_sum Side.sell p q book.orders book.asks w.sell_side l).0, g)

-- While an order to buy and one to sell rest in a well-formed book there are a best bid, at the buy
-- order's price or above, and a best ask, at the sell order's price or below, and the spread is the
-- best ask less the best bid, or zero where they cross.
pub spread-eq :
    (book : L3OrderBook) (i j : ℕ) (o x : Order)
    → WellFormed book
    → lookup i book.orders ≡ some o
    → lookup j book.orders ≡ some x
    → o.side ≡ Side.buy
    → x.side ≡ Side.sell
    → (bid : ℕ) × (bid_qty : ℕ) × (ask : ℕ) × (ask_qty : ℕ) × (get_best_bid book
        ≡ some (bid, bid_qty))
      × (get_best_ask book ≡ some (ask, ask_qty))
      × (o.price ≤ bid)
      × (ask ≤ x.price)
      × (spread book ≡ some (ask - bid))
unfolding spread
spread-eq book i j o x w ei ej eo ex =
    let (p, q, r, l, g) = get_best_bid-ge book w i o ei eo in
    let (p', q', r', l', g') = get_best_ask-le book w j x ej ex in
    (p, q, p', q', r, r', g, g', rw (r, r', spread) refl)
