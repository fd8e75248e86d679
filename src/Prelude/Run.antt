-- ===== src/Prelude/Run.antt =====
-- What running a piece of the program gives: a value, or a panic, which ends the process.
use mathlib.Core.Path.{◌≡◌, refl}
use mathlib.Core.Bool.{Bool, true, false}
use mathlib.Core.Logic.{◌⊎◌, inl, inr}

-- The build profile: overflow of `+`, `-`, `*` panics in a debug build and wraps in a release one.
pub data Build : Type 0 where
  debug release : Build

pub data Outcome {ℓ} (A : Type ℓ) : Type ℓ where
  ok : A → Outcome A
  panic : Outcome A

infixl 5 ◌>>=◌ ◌>>◌
abbrev pub ◌>>=◌ {ℓ κ} : {A : Type ℓ} {B : Type κ} → Outcome A → (A → Outcome B) → Outcome B
ok a >>= f = f a
panic >>= f = panic

abbrev pub ◌>>◌ {ℓ} : {B : Type ℓ} → Outcome (Unit {0}) → Outcome B → Outcome B
m >> k = m >>= λ _. k

-- `assert!`.
abbrev pub assert : Bool → Outcome (Unit {0})
assert true = ok tt
assert false = panic

pub Outcome-cases {ℓ} : {A : Type ℓ} (o : Outcome A) → (o ≡ panic) ⊎ ((a : A) × (o ≡ ok a))
Outcome-cases panic = inl refl
Outcome-cases (ok a) = inr (a, refl)

-- Chains with a first step in common agree where what follows it does.
pub bind-ext {ℓ κ} :
    {A : Type ℓ} {B : Type κ} (o : Outcome A) (k l : A → Outcome B)
    → ((a : A) → k a ≡ l a)
    → (o >>= k) ≡ (o >>= l)
bind-ext (ok a) k l same = same a
bind-ext panic k l same = refl

-- A chain that returns has a first step that returns.
pub bind-ok {ℓ κ} :
    {A : Type ℓ} {B : Type κ} (o : Outcome A) (k : A → Outcome B) {b : B}
    → (o >>= k) ≡ ok b
    → (a : A) × (o ≡ ok a) × (k a ≡ ok b)
bind-ok (ok a) k e = (a, refl, e)
bind-ok panic k e = absurd cc

-- A run that returns.
abbrev pub Returns {ℓ} : {A : Type ℓ} → Outcome A → Type ℓ
Returns {A = A} o = (a : A) × (o ≡ ok a)

-- A run that returns, with a value of which `P` holds.
abbrev pub Gives {ℓ κ} : {A : Type ℓ} → (A → Type κ) → Outcome A → Type (ℓ ⊔ κ)
Gives {A = A} P o = (a : A) × (o ≡ ok a) × P a

pub bind-Gives {ℓ κ μ ν} :
    {A : Type ℓ} {B : Type κ} {P : A → Type μ} {Q : B → Type ν} (o : Outcome A) (k : A → Outcome B)
    → Gives P o
    → ((a : A) → P a → Gives Q (k a))
    → Gives Q (o >>= k)
bind-Gives o k (a, e, p) next = rw e (next a p)

pub bind-Returns {ℓ κ ν} :
    {A : Type ℓ} {B : Type κ} {Q : B → Type ν} (o : Outcome A) (k : A → Outcome B)
    → Returns o
    → ((a : A) → Gives Q (k a))
    → Gives Q (o >>= k)
bind-Returns o k (a, e) next = rw e (next a)

pub bind-Returns_both {ℓ κ} :
    {A : Type ℓ} {B : Type κ} (o : Outcome A) (k : A → Outcome B)
    → Returns o
    → ((a : A) → Returns (k a))
    → Returns (o >>= k)
bind-Returns_both o k (a, e) next = rw e (next a)
