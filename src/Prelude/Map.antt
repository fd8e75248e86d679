-- ===== src/Prelude/Map.antt =====
-- `HashMap` and `BTreeMap` with numbers for keys: a list of entries in the order of the keys.
use hft_demo.Prelude.{
  ℕ, ◌≤◌, ◌<◌, ◌≡◌, refl, Option, none, some, List, [], ◌∷◌, arith, ltb, ◌==◌, if◌then◌else◌,
}

abbrev pub Map {ℓ} : Type ℓ → Type ℓ
Map V = List (ℕ × V)

module _ {ℓ} {V : Type ℓ} where
  unfoldable pub lookup : ℕ → Map V → Option V
  lookup k [] = none
  lookup k ((j, v) ∷ m) = if k == j then some v else lookup k m

  unfoldable pub insert : ℕ → V → Map V → Map V
  insert k v [] = (k, v) ∷ []
  insert k v ((j, w) ∷ m) =
      if k == j then (k, v) ∷ m else if ltb k j then (k, v) ∷ (j, w) ∷ m else (j, w) ∷ insert k v m

  unfoldable pub remove : ℕ → Map V → Map V
  remove k [] = []
  remove k ((j, w) ∷ m) = if k == j then remove k m else (j, w) ∷ remove k m

  -- `iter().next()` and `iter().next_back()`: the entry of the least and of the greatest key.
  unfoldable pub first : Map V → Option (ℕ × V)
  first [] = none
  first (e ∷ m) = some e

  unfoldable pub last : Map V → Option (ℕ × V)
  last [] = none
  last (e ∷ []) = some e
  last (e ∷ f ∷ m) = last (f ∷ m)

  -- The keys rise, and lie above `k`.
  abbrev pub Above : ℕ → Map V → Type 0
  Above k [] = Unit {0}
  Above k ((j, v) ∷ m) = (k < j) × Above j m

  abbrev pub IsSorted : Map V → Type 0
  IsSorted [] = Unit {0}
  IsSorted ((j, v) ∷ m) = Above j m

  pub lookup-insert :
      (j k : ℕ) (v : V) (m : Map V)
      → lookup j (insert k v m) ≡ (if j == k then some v else lookup j m)
  unfolding lookup insert
  lookup-insert j k v [] = refl
  lookup-insert j k v ((i, w) ∷ m) = ground (arith, lookup-insert j k v m)

  pub lookup-remove :
      (j k : ℕ) (m : Map V) → lookup j (remove k m) ≡ (if j == k then none else lookup j m)
  unfolding lookup remove
  lookup-remove j k [] = ground arith
  lookup-remove j k ((i, w) ∷ m) = ground (arith, lookup-remove j k m)

  Above-mono : {i k : ℕ} (m : Map V) → i ≤ k → Above k m → Above i m
  Above-mono [] h a = tt
  Above-mono ((j, v) ∷ m) h a = (omega arith, a.1)

  insert-Above : (i k : ℕ) (v : V) (m : Map V) → i < k → Above i m → Above i (insert k v m)
  unfolding insert
  insert-Above i k v [] h a = (h, tt)
  insert-Above i k v ((j, w) ∷ m) h a = ground (arith, insert-Above j k v m)

  remove-Above : (i k : ℕ) (m : Map V) → Above i m → Above i (remove k m)
  unfolding remove
  remove-Above i k [] a = tt
  remove-Above i k ((j, w) ∷ m) a =
      ground (arith, remove-Above j k m a.1, Above-mono {i = i} {k = j} (remove k m))

  pub insert-IsSorted : (k : ℕ) (v : V) (m : Map V) → IsSorted m → IsSorted (insert k v m)
  unfolding insert
  insert-IsSorted k v [] s = tt
  insert-IsSorted k v ((j, w) ∷ m) s = ground (arith, insert-Above j k v m)

  pub IsSorted-Above : (i : ℕ) (m : Map V) → Above i m → IsSorted m
  IsSorted-Above i [] a = tt
  IsSorted-Above i ((j, w) ∷ m) a = a.1

  pub remove-IsSorted : (k : ℕ) (m : Map V) → IsSorted m → IsSorted (remove k m)
  unfolding remove
  remove-IsSorted k [] s = tt
  remove-IsSorted k ((j, w) ∷ m) s =
      ground (arith, remove-Above j k m s, IsSorted-Above j (remove k m))

  -- Nothing lies at or below the bound of a sorted map.
  pub lookup-Above : (j k : ℕ) (m : Map V) → Above k m → j ≤ k → lookup j m ≡ none
  unfolding lookup
  lookup-Above j k [] a h = refl
  lookup-Above j k ((i, w) ∷ m) a h = ground (arith, lookup-Above j i m a.1)

  pub remove-absent : (k : ℕ) (m : Map V) → lookup k m ≡ none → remove k m ≡ m
  unfolding lookup remove
  remove-absent k [] h = refl
  remove-absent k ((i, w) ∷ m) h = ground (arith, remove-absent k m)

  pub remove-insert :
      (k : ℕ) (v : V) (m : Map V) → IsSorted m → remove k (insert k v m) ≡ remove k m
  unfolding remove insert
  remove-insert k v [] s = ground arith
  remove-insert k v ((i, w) ∷ m) s = ground (arith, remove-insert k v m (IsSorted-Above i m s))

  pub insert-insert : (k : ℕ) (v w : V) (m : Map V) → insert k v (insert k w m) ≡ insert k v m
  unfolding insert
  insert-insert k v w [] = ground arith
  insert-insert k v w ((i, u) ∷ m) = ground (arith, insert-insert k v w m)

module _ {V : Type 0} where
  -- Writing what is there already changes nothing.
  pub insert-present :
      (k : ℕ) (v : V) (m : Map V) → IsSorted m → lookup k m ≡ some v → insert k v m ≡ m
  unfolding insert lookup
  insert-present k v [] s e = ground arith
  insert-present k v ((i, w) ∷ m) s e =
      ground (arith, insert-present k v m (IsSorted-Above i m s), lookup-Above k i m s)
