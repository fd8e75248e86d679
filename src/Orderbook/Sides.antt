-- ===== src/Orderbook/Sides.antt =====
-- One side of a book against the orders: the levels are the sums, none is empty, prices rise.
use hft_demo.Prelude.{
  ℕ, ◌+◌, ◌-◌, ◌<◌, ◌≡◌, ◌≢◌, ◌∙◌, sym, some, arith, ◌==◌, if◌then◌else◌, Build, ok, inl, inr,
  Option-cases,
}
use hft_demo.Prelude.Map.{
  Map, lookup, insert, remove, IsSorted, lookup-insert, lookup-remove, insert-IsSorted,
  remove-IsSorted,
}
use hft_demo.Common.{Side}
use hft_demo.Orderbook.{Order, or_zero, reduce_level}
use hft_demo.Orderbook.Levels.{total}

pub record SideWellFormed (s : Side) (orders : Map Order) (m : Map ℕ) : Type 0 where
  pub sorted : IsSorted m
  pub sums : (p : ℕ) → or_zero (lookup p m) ≡ total s p orders
  pub full : (p : ℕ) → lookup p m ≢ some 0

module _ (s : Side) (orders orders' : Map Order) (m : Map ℕ) (w : SideWellFormed s orders m) where
  pub SideWellFormed-same :
      ((p : ℕ) → total s p orders' ≡ total s p orders) → SideWellFormed s orders' m
  SideWellFormed-same same = record {
    sorted = w.sorted;
    sums = λ p. w.sums p ∙ sym (same p);
    full = w.full;
  }

  -- A price gains shares.
  pub SideWellFormed-add :
      (price quantity : ℕ)
      → 0 < quantity
      → ((p : ℕ) → total s p orders' ≡ total s p orders + (if p == price then quantity else 0))
      → SideWellFormed s orders' (insert price (or_zero (lookup price m) + quantity) m)
  SideWellFormed-add price quantity more grown = record {
    sorted = insert-IsSorted price _ m w.sorted;
    sums = λ p.
        ground
          (arith, lookup-insert p price (or_zero (lookup price m) + quantity) m, w.sums p, grown p);
    full = λ p.
        ground (arith, lookup-insert p price (or_zero (lookup price m) + quantity) m, w.full p);
  }

  -- A price that has shares loses some.
  pub SideWellFormed-reduce :
      (b : Build) (price quantity : ℕ)
      → 0 < total s price orders
      → ((p : ℕ) → total s p orders' + (if p == price then quantity else 0) ≡ total s p orders)
      → (m' : Map ℕ) × (reduce_level b price quantity m (lookup price m) ≡ ok m')
        × SideWellFormed s orders' m'
  unfolding reduce_level
  SideWellFormed-reduce b price quantity more shrunk = elim (Option-cases (lookup price m)) [
    | inl e ↦ absurd (ground (arith, w.sums price))
    | inr (t, e) ↦ rw e (found t e)
  ]
    where
      found :
          (t : ℕ)
          → lookup price m ≡ some t
          → (m' : Map ℕ) × (reduce_level b price quantity m (some t) ≡ ok m')
            × SideWellFormed s orders' m'
      found t e =
          let left : ℕ = t - quantity in
          let m₁ : Map ℕ = insert price left m in
          (
            (if left == 0 then remove price m₁ else m₁),
            ground (arith, w.sums price, shrunk price),
            record {
              sorted =
                  ground (arith, insert-IsSorted price left m w.sorted, remove-IsSorted price m₁);
              sums = λ p. ground (
                arith,
                lookup-remove p price m₁,
                lookup-insert p price left m,
                w.sums p,
                w.sums price,
                shrunk p,
                shrunk price,
              );
              full = λ p.
                  ground (arith, lookup-remove p price m₁, lookup-insert p price left m, w.full p);
            },
          )
