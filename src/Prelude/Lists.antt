-- ===== src/Prelude/Lists.antt =====
-- Lists measured and indexed by native numbers, under the library's names.
use Prim.Native.Nat.{ℕ, zero, suc, ◌+◌, ◌-◌, ◌<◌, min, ◌≤◌}
use mathlib.Core.Path.{◌≡◌, refl, ap, subst}
use mathlib.Core.Logic.{◌≢◌, ◌⊎◌, inl, inr}
use mathlib.Core.List.{List, [], ◌∷◌, ◌++◌, map}
use mathlib.Core.Option.{Option, none, some}
use native.Mathlib.Nat.{suc-add}
use native.Mathlib.Omega.{arith}

module _ {ℓ} {A : Type ℓ} where
  abbrev pub length : List A → ℕ
  length [] = 0
  length (x ∷ xs) = suc (length xs)

  abbrev pub get_elem? : List A → ℕ → Option A
  get_elem? [] i = none
  get_elem? (x ∷ xs) zero = some x
  get_elem? (x ∷ xs) (suc i) = get_elem? xs i

  -- A write out of bounds changes nothing.
  abbrev pub set : List A → ℕ → A → List A
  set [] i v = []
  set (x ∷ xs) zero v = v ∷ xs
  set (x ∷ xs) (suc i) v = x ∷ set xs i v

  pub length-append : (xs ys : List A) → length (xs ++ ys) ≡ length xs + length ys
  length-append [] ys = omega arith
  length-append (x ∷ xs) ys = omega (arith, length-append xs ys)

module _ {ℓ} {A : Type ℓ} where
  pub length-set : (xs : List A) (i : ℕ) (v : A) → length (set xs i v) ≡ length xs
  length-set [] i v = refl
  length-set (x ∷ xs) zero v = refl
  length-set (x ∷ xs) (suc i) v = ap suc (length-set xs i v)

  pub get_elem?-set_self :
      (xs : List A) (i : ℕ) (v : A) → i < length xs → get_elem? (set xs i v) i ≡ some v
  get_elem?-set_self [] i v h = elim h [ ]
  get_elem?-set_self (x ∷ xs) zero v h = refl
  get_elem?-set_self (x ∷ xs) (suc i) v h = get_elem?-set_self xs i v (omega arith)

  pub get_elem?-set_ne :
      (xs : List A) {i j : ℕ} (v : A) → i ≢ j → get_elem? (set xs i v) j ≡ get_elem? xs j
  get_elem?-set_ne [] v h = refl
  get_elem?-set_ne (x ∷ xs) {i = zero} {j = zero} v h = absurd (h refl)
  get_elem?-set_ne (x ∷ xs) {i = zero} {j = suc j} v h = refl
  get_elem?-set_ne (x ∷ xs) {i = suc i} {j = zero} v h = refl
  get_elem?-set_ne (x ∷ xs) {i = suc i} {j = suc j} v h = get_elem?-set_ne xs v (λ e. h (ap suc e))

module _ {ℓ} {A : Type ℓ} where
  abbrev pub get_or : List A → ℕ → A → A
  get_or [] i d = d
  get_or (x ∷ xs) zero d = x
  get_or (x ∷ xs) (suc i) d = get_or xs i d

  abbrev pub take : ℕ → List A → List A
  take zero xs = []
  take (suc n) [] = []
  take (suc n) (x ∷ xs) = x ∷ take n xs

  abbrev pub drop : ℕ → List A → List A
  drop zero xs = xs
  drop (suc n) [] = []
  drop (suc n) (x ∷ xs) = drop n xs

  abbrev pub replicate : ℕ → A → List A
  replicate zero a = []
  replicate (suc n) a = a ∷ replicate n a

  pub take-append-drop : (n : ℕ) (xs : List A) → take n xs ++ drop n xs ≡ xs
  take-append-drop zero xs = refl
  take-append-drop (suc n) [] = refl
  take-append-drop (suc n) (x ∷ xs) = rw (take-append-drop n xs)

  pub take-append : (xs ys : List A) → take (length xs) (xs ++ ys) ≡ xs
  take-append [] ys = refl
  take-append (x ∷ xs) ys = ap (λ r. x ∷ r) (take-append xs ys)

  pub drop-append : (xs ys : List A) (i : ℕ) → drop (length xs + i) (xs ++ ys) ≡ drop i ys
  drop-append [] ys i = ap (λ k. drop k ys) (omega arith)
  drop-append (x ∷ xs) ys i = rw suc-add (drop-append xs ys i)

  pub length-take : (n : ℕ) (xs : List A) → length (take n xs) ≡ min n (length xs)
  length-take zero xs = omega arith
  length-take (suc n) [] = omega arith
  length-take (suc n) (x ∷ xs) = omega (arith, length-take n xs)

  pub length-drop : (n : ℕ) (xs : List A) → length (drop n xs) ≡ length xs - n
  length-drop zero xs = omega arith
  length-drop (suc n) [] = omega arith
  length-drop (suc n) (x ∷ xs) = omega (arith, length-drop n xs)

  pub length-replicate : (n : ℕ) (a : A) → length (replicate n a) ≡ n
  length-replicate zero a = refl
  length-replicate (suc n) a = ap suc (length-replicate n a)

  pub length-map {κ} : {B : Type κ} (xs : List A) (f : A → B) → length (map f xs) ≡ length xs
  length-map [] f = refl
  length-map (x ∷ xs) f = ap suc (length-map xs f)

-- A predicate of all the elements, read through their positions.
module _ {ℓ κ} {A : Type ℓ} where
  abbrev pub All : (A → Type κ) → List A → Type (ℓ ⊔ κ)
  All P xs = (i : ℕ) (x : A) → get_elem? xs i ≡ some x → P x

module _ {ℓ} {A : Type ℓ} where
  -- What stands at a place after a write: the new element at its place, the old one elsewhere.
  pub get_elem?-set_cases :
      (xs : List A) (i j : ℕ) (v x : A)
      → get_elem? (set xs i v) j ≡ some x
      → ((i ≡ j) × (x ≡ v)) ⊎ ((i ≢ j) × (get_elem? xs j ≡ some x))
  get_elem?-set_cases [] i j v x e = absurd cc
  get_elem?-set_cases (y ∷ ys) zero zero v x e = inl (refl, cc)
  get_elem?-set_cases (y ∷ ys) zero (suc j) v x e = inr (λ h. absurd (omega (arith, h)), e)
  get_elem?-set_cases (y ∷ ys) (suc i) zero v x e = inr (λ h. absurd (omega (arith, h)), e)
  get_elem?-set_cases (y ∷ ys) (suc i) (suc j) v x e = elim (get_elem?-set_cases ys i j v x e) [
    | inl (here, new) ↦ inl (ap suc here, new)
    | inr (other, old) ↦ inr (λ h. other (omega (arith, h)), old)
  ]

  pub All-set {κ} :
      {P : A → Type κ} (xs : List A) (i : ℕ) (v : A) → All P xs → P v → All P (set xs i v)
  All-set {P = P} xs i v h p j x e = elim (get_elem?-set_cases xs i j v x e) [
    | inl (_, same) ↦ rw same p
    | inr (_, there) ↦ h j x there
  ]

  pub All-snoc {κ} :
      {P : A → Type κ} (xs : List A) (y : A) → All P xs → P y → All P (xs ++ (y ∷ []))
  All-snoc {P = P} [] y h p zero x e = let same : y ≡ x = cc in subst P same p
  All-snoc [] y h p (suc i) x e = absurd cc
  All-snoc (z ∷ zs) y h p zero x e = h zero x e
  All-snoc {P = P} (z ∷ zs) y h p (suc i) x e = All-snoc {P = P} zs y (λ j. h (suc j)) p i x e

  pub All-map {κ μ} :
      {B : Type μ} (P : B → Type κ) (g : A → B) (xs : List A)
      → ((x : A) → P (g x))
      → All P (map g xs)
  All-map P g [] h i y e = absurd cc
  All-map P g (x ∷ xs) h zero y e = let same : g x ≡ y = cc in subst P same (h x)
  All-map P g (x ∷ xs) h (suc i) y e = All-map P g xs h i y e

  pub get_elem?-lt : (xs : List A) (i : ℕ) (x : A) → get_elem? xs i ≡ some x → i < length xs
  get_elem?-lt [] i x e = absurd cc
  get_elem?-lt (y ∷ ys) zero x e = omega arith
  get_elem?-lt (y ∷ ys) (suc i) x e = omega (arith, get_elem?-lt ys i x e)

  -- A list ends before a position, or has an element there.
  pub get_elem?-cases :
      (xs : List A) (i : ℕ) → (length xs ≤ i) ⊎ ((x : A) × (get_elem? xs i ≡ some x))
  get_elem?-cases [] i = inl (omega arith)
  get_elem?-cases (x ∷ xs) zero = inr (x, refl)
  get_elem?-cases (x ∷ xs) (suc i) = elim (get_elem?-cases xs i) [
    | inl past ↦ inl (omega (arith, past))
    | inr there ↦ inr there
  ]

  pub drop-next :
      (xs : List A) (n : ℕ) (x : A) → get_elem? xs n ≡ some x → drop n xs ≡ x ∷ drop (n + 1) xs
  drop-next [] n x e = absurd (ground arith)
  drop-next (y ∷ ys) zero x e = ground arith
  drop-next (y ∷ ys) (suc n) x e = rw suc-add (drop-next ys n x e)

  pub drop-past : (xs : List A) (n : ℕ) → length xs ≤ n → drop n xs ≡ []
  drop-past [] zero h = refl
  drop-past [] (suc n) h = refl
  drop-past (x ∷ xs) zero h = absurd (omega (arith, h))
  drop-past (x ∷ xs) (suc n) h = drop-past xs n (omega (arith, h))

  pub List-cases : (xs : List A) → (xs ≡ []) ⊎ ((y : A) × (ys : List A) × (xs ≡ y ∷ ys))
  List-cases [] = inl refl
  List-cases (x ∷ xs) = inr (x, xs, refl)
