-- ===== src/Orderbook/Cancel.antt =====
-- Cancellation: partial, complete, of an unknown order.
use hft_demo.Prelude.{
  ℕ, ◌+◌, ◌-◌, ◌≤◌, ◌<◌, ◌≡◌, refl, ◌&&◌, some, [], ◌∷◌, arith, ◌==◌, ==_iff, if◌then◌else◌, Build,
  Outcome, ok, false,
}
use hft_demo.Prelude.Map.{
  Map, lookup, insert, remove, IsSorted, lookup-insert, insert-IsSorted, remove-IsSorted,
}
use hft_demo.Common.{Side}
use hft_demo.Orderbook.{Order, L3OrderBook, cancel_order, cancel_found}
use hft_demo.Orderbook.Levels.{
  side_eq, total, AllLive, total-insert, total-remove, share-le-total, insert-AllLive,
  remove-AllLive, lookup-AllLive,
}
use hft_demo.Orderbook.Sides.{SideWellFormed-same, SideWellFormed-reduce}
use hft_demo.Orderbook.Invariant.{WellFormed}

-- The orders after a cancellation that does not take more than there is.
abbrev pub cancelled : ℕ → ℕ → Order → Map Order → Map Order
cancelled id q o m =
    let m₁ = insert id (record o { quantity = o.quantity - q }) m in
    if o.quantity - q == 0 then remove id m₁ else m₁

module _ (id q : ℕ) (o : Order) (m : Map Order) (v : IsSorted m) (e : lookup id m ≡ some o) where
  pub total-cancelled :
      (s : Side) (p : ℕ)
      → q ≤ o.quantity
      → total s p (cancelled id q o m) + (if side_eq s o.side && p == o.price then q else 0)
        ≡ total s p m
  total-cancelled s p h =
      let o' : Order = record o { quantity = o.quantity - q } in
      ground (
        arith,
        total-insert s p id o' o m v e,
        total-remove s p id o' (insert id o' m) (insert-IsSorted id o' m v),
        lookup-insert id id o' m,
        ==_iff id id,
      )

  cancelled-IsSorted : IsSorted (cancelled id q o m)
  cancelled-IsSorted =
      let o' : Order = record o { quantity = o.quantity - q } in
      ground (arith, insert-IsSorted id o' m v, remove-IsSorted id (insert id o' m))

remove-insert-AllLive :
    (id : ℕ) (o : Order) (m : Map Order) → AllLive m → AllLive (remove id (insert id o m))
unfolding remove insert
remove-insert-AllLive id o [] a = ground arith
remove-insert-AllLive id o ((i, x) ∷ m) a =
    ground (arith, remove-insert-AllLive id o m a.1, remove-AllLive id m a.1)

cancelled-AllLive :
    (id q : ℕ) (o : Order) (m : Map Order) → AllLive m → AllLive (cancelled id q o m)
cancelled-AllLive id q o m a =
    let o' : Order = record o { quantity = o.quantity - q } in
    ground (arith, insert-AllLive id o' m, remove-insert-AllLive id o' m a)

module _ (book : L3OrderBook) (id q : ℕ) (o : Order) (w : WellFormed book)
    (e : lookup id book.orders ≡ some o) (h : q ≤ o.quantity) where
  resting_total : (s : Side) → o.side ≡ s → 0 < total s o.price book.orders
  resting_total Side.buy es = ground (
    arith,
    share-le-total Side.buy o.price id o book.orders e,
    lookup-AllLive id o book.orders w.live e,
    ==_iff o.price o.price,
  )
  resting_total Side.sell es = ground (
    arith,
    share-le-total Side.sell o.price id o book.orders e,
    lookup-AllLive id o book.orders w.live e,
    ==_iff o.price o.price,
  )

  own_total :
      (s : Side)
      → o.side ≡ s
      → (p : ℕ)
      → total s p (cancelled id q o book.orders) + (if p == o.price then q else 0)
        ≡ total s p book.orders
  own_total Side.buy es p =
      ground (arith, total-cancelled id q o book.orders w.orders_sorted e Side.buy p h)
  own_total Side.sell es p =
      ground (arith, total-cancelled id q o book.orders w.orders_sorted e Side.sell p h)

  other_total :
      (s : Side)
      → side_eq s o.side ≡ false
      → (p : ℕ) → total s p (cancelled id q o book.orders) ≡ total s p book.orders
  other_total s es p = ground (arith, total-cancelled id q o book.orders w.orders_sorted e s p h)

  -- What a cancellation comes to.
  abbrev pub Cancels : Outcome L3OrderBook → Type 0
  Cancels r =
      (book' : L3OrderBook) × (r ≡ ok book')
      × WellFormed book'
      × (book'.orders ≡ cancelled id q o book.orders)

  cancel_found-Cancels :
      (b : Build) (s : Side) → o.side ≡ s → Cancels (cancel_found b book id q (some o))
  unfolding cancel_found
  cancel_found-Cancels b Side.buy es =
      let orders' : Map Order = cancelled id q o book.orders in
      let (m, r, side) =
        SideWellFormed-reduce Side.buy book.orders orders' book.bids w.buy_side b o.price q
          (resting_total Side.buy es) (own_total Side.buy es) in
      (
        record { orders = orders'; bids = m; asks = book.asks },
        ground arith,
        record {
          orders_sorted = cancelled-IsSorted id q o book.orders w.orders_sorted e;
          live = cancelled-AllLive id q o book.orders w.live;
          buy_side = side;
          sell_side =
              SideWellFormed-same Side.sell book.orders orders' book.asks w.sell_side
                (other_total Side.sell (ground arith));
        },
        refl,
      )
  cancel_found-Cancels b Side.sell es =
      let orders' : Map Order = cancelled id q o book.orders in
      let (m, r, side) =
        SideWellFormed-reduce Side.sell book.orders orders' book.asks w.sell_side b o.price q
          (resting_total Side.sell es) (own_total Side.sell es) in
      (
        record { orders = orders'; bids = book.bids; asks = m },
        ground arith,
        record {
          orders_sorted = cancelled-IsSorted id q o book.orders w.orders_sorted e;
          live = cancelled-AllLive id q o book.orders w.live;
          buy_side =
              SideWellFormed-same Side.buy book.orders orders' book.bids w.buy_side
                (other_total Side.buy (ground arith));
          sell_side = side;
        },
        refl,
      )

-- A cancellation of at most the order's shares succeeds in both builds, keeps the book well formed,
-- and leaves the order with the rest, or removes it when nothing is left.
pub cancel_order-WellFormed :
    (b : Build) (book : L3OrderBook) (id quantity : ℕ) (o : Order)
    → WellFormed book
    → lookup id book.orders ≡ some o
    → quantity ≤ o.quantity
    → (book' : L3OrderBook) × (cancel_order b book id quantity ≡ ok book')
      × WellFormed book'
      × (book'.orders ≡ cancelled id quantity o book.orders)
unfolding cancel_order
cancel_order-WellFormed b book id q o w e h =
    rw (e, cancel_order) (cancel_found-Cancels book id q o w e h b o.side refl)
