-- ===== src/Orderbook/Levels.antt =====
-- What the orders of a book add up to at a price, and how an insertion or removal changes the sum.
use hft_demo.Prelude.{
  ℕ, ◌+◌, ◌≤◌, ◌<◌, ◌≡◌, refl, Bool, true, false, ◌&&◌, none, some, [], ◌∷◌, arith, ◌==◌,
  if◌then◌else◌,
}
use hft_demo.Prelude.Map.{
  Map, lookup, insert, remove, IsSorted, lookup-Above, remove-absent, IsSorted-Above,
}
use hft_demo.Common.{Side}
use hft_demo.Orderbook.{Order}

abbrev pub side_eq : Side → Side → Bool
side_eq Side.buy Side.buy = true
side_eq Side.sell Side.sell = true
side_eq _ _ = false

-- What an order adds to the level of a side and price.
abbrev pub share : Side → ℕ → Order → ℕ
share s p o = if side_eq s o.side && p == o.price then o.quantity else 0

unfoldable pub total : Side → ℕ → Map Order → ℕ
total s p [] = 0
total s p ((_, o) ∷ m) = share s p o + total s p m

-- Every resting order has shares left.
abbrev pub AllLive : Map Order → Type 0
AllLive [] = Unit {0}
AllLive ((_, o) ∷ m) = (0 < o.quantity) × AllLive m

module _ (s : Side) (p id : ℕ) where
  pub total-insert_new :
      (o : Order) (m : Map Order)
      → lookup id m ≡ none
      → total s p (insert id o m) ≡ share s p o + total s p m
  unfolding total lookup insert
  total-insert_new o [] h = refl
  total-insert_new o ((i, x) ∷ m) h = ground (arith, total-insert_new o m)

  pub total-insert :
      (o old : Order) (m : Map Order)
      → IsSorted m
      → lookup id m ≡ some old
      → total s p (insert id o m) + share s p old ≡ share s p o + total s p m
  unfolding total lookup insert
  total-insert o old [] v h = ground arith
  total-insert o old ((i, x) ∷ m) v h =
      ground (arith, total-insert o old m (IsSorted-Above i m v), lookup-Above id i m v)

  pub total-remove :
      (old : Order) (m : Map Order)
      → IsSorted m
      → lookup id m ≡ some old
      → total s p (remove id m) + share s p old ≡ total s p m
  unfolding total lookup remove
  total-remove old [] v h = ground arith
  total-remove old ((i, x) ∷ m) v h =
      ground (
        arith,
        total-remove old m (IsSorted-Above i m v),
        lookup-Above id i m v,
        remove-absent id m,
      )

  pub share-le-total :
      (o : Order) (m : Map Order) → lookup id m ≡ some o → share s p o ≤ total s p m
  unfolding total lookup
  share-le-total o [] h = ground arith
  share-le-total o ((i, x) ∷ m) h = ground (arith, share-le-total o m)

pub insert-AllLive :
    (id : ℕ) (o : Order) (m : Map Order) → 0 < o.quantity → AllLive m → AllLive (insert id o m)
unfolding insert
insert-AllLive id o [] h a = (h, tt)
insert-AllLive id o ((i, x) ∷ m) h a = ground (arith, insert-AllLive id o m h a.1)

pub remove-AllLive : (id : ℕ) (m : Map Order) → AllLive m → AllLive (remove id m)
unfolding remove
remove-AllLive id [] a = tt
remove-AllLive id ((i, x) ∷ m) a = ground (arith, remove-AllLive id m a.1)

pub lookup-AllLive :
    (id : ℕ) (o : Order) (m : Map Order) → AllLive m → lookup id m ≡ some o → 0 < o.quantity
unfolding lookup
lookup-AllLive id o [] a h = ground arith
lookup-AllLive id o ((i, x) ∷ m) a h = ground (arith, lookup-AllLive id o m a.1)
