-- ===== src/Prelude/Float.antt =====
-- What the program uses of floating point, which is not its own: a type with operations, given as a
-- parameter. `a > b` is `less b a`.
use hft_demo.Prelude.{ℕ, ◌*◌, ◌+◌, ◌-◌, Bool, ltb, ◌==◌}

pub record FloatOps : Type 1 where
  pub Float : Type 0
  pub of_nat : ℕ → Float
  pub add : Float → Float → Float
  pub sub : Float → Float → Float
  pub mul : Float → Float → Float
  pub div : Float → Float → Float
  pub less : Float → Float → Bool
  pub equal : Float → Float → Bool

-- Fractions of natural numbers, with which the definitions run.
abbrev pub Fraction : Type 0
Fraction = ℕ × ℕ

abbrev pub fractions : FloatOps
fractions = record {
  Float = Fraction;
  of_nat = λ n. (n, 1);
  add = λ a b. (a.0 * b.1 + b.0 * a.1, a.1 * b.1);
  sub = λ a b. (a.0 * b.1 - b.0 * a.1, a.1 * b.1);
  mul = λ a b. (a.0 * b.0, a.1 * b.1);
  div = λ a b. (a.0 * b.1, a.1 * b.0);
  less = λ a b. ltb (a.0 * b.1) (b.0 * a.1);
  equal = λ a b. a.0 * b.1 == b.0 * a.1;
}
