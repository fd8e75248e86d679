-- ===== src/Prelude/Int.antt =====
-- Signed integers over the native numbers, under the library's names (its ℤ stands on the unary ℕ).
-- Sums and orders go through the two parts of an integer, which are numbers that `omega` reads.
use native.Mathlib.Nat.{mul-zero, zero-mul, mul-le-mul}
use hft_demo.Prelude.{
  ℕ, suc, ◌+◌, ◌-◌, ◌*◌, ◌≤◌, ◌≡◌, ◌&&◌, refl, Bool, arith, ltb, leb, if◌then◌else◌, ◌==◌,
}

-- `negsuc n` is -(n + 1).
pub data ℤ : Type 0 where
  pos : ℕ → ℤ
  negsuc : ℕ → ℤ

abbrev pub pos_part : ℤ → ℕ
pos_part (pos n) = n
pos_part (negsuc n) = 0

abbrev pub neg_part : ℤ → ℕ
neg_part (pos n) = 0
neg_part (negsuc n) = suc n

-- a - b, as an integer.
abbrev pub sub_ℕ : ℕ → ℕ → ℤ
sub_ℕ a b = if leb b a then pos (a - b) else negsuc (b - a - 1)

infixl 65 ◌+ℤ◌ ◌-ℤ◌
infixl 70 ◌*ℤ◌
infix 50 ◌≤ℤ◌
unfoldable pub ◌+ℤ◌ : ℤ → ℤ → ℤ
a +ℤ b = sub_ℕ (pos_part a + pos_part b) (neg_part a + neg_part b)

unfoldable pub ◌-ℤ◌ : ℤ → ℤ → ℤ
a -ℤ b = sub_ℕ (pos_part a + neg_part b) (neg_part a + pos_part b)

unfoldable pub ◌*ℤ◌ : ℤ → ℤ → ℤ
a *ℤ b =
    sub_ℕ (pos_part a * pos_part b + neg_part a * neg_part b)
      (pos_part a * neg_part b + neg_part a * pos_part b)

abbrev pub ◌≤ℤ◌ : ℤ → ℤ → Type 0
a ≤ℤ b = pos_part a + neg_part b ≤ pos_part b + neg_part a

abbrev pub ltb_ℤ : ℤ → ℤ → Bool
ltb_ℤ a b = ltb (pos_part a + neg_part b) (pos_part b + neg_part a)

abbrev pub eq_ℤ : ℤ → ℤ → Bool
eq_ℤ a b = pos_part a + neg_part b == pos_part b + neg_part a

pub +ℤ_parts :
    (a b : ℤ)
    → pos_part (a +ℤ b) + neg_part a + neg_part b ≡ neg_part (a +ℤ b) + pos_part a + pos_part b
unfolding ◌+ℤ◌
+ℤ_parts a b = ground arith

pub -ℤ_parts :
    (a b : ℤ)
    → pos_part (a -ℤ b) + neg_part a + pos_part b ≡ neg_part (a -ℤ b) + pos_part a + neg_part b
unfolding ◌-ℤ◌
-ℤ_parts a b = ground arith

pub eq_of_parts : (a b : ℤ) → pos_part a + neg_part b ≡ pos_part b + neg_part a → a ≡ b
eq_of_parts a b h = ground arith

pub ruleset int_laws = (arith, +ℤ_parts, -ℤ_parts, eq_of_parts)

-- A value that a signed type with `h` values below zero holds.
abbrev pub Fits : ℕ → ℤ → Type 0
Fits h z = (z +ℤ pos 1 ≤ℤ pos h) × (pos 0 ≤ℤ z +ℤ pos h)

pub add_assoc : (a b c : ℤ) → (a +ℤ b) +ℤ c ≡ a +ℤ (b +ℤ c)
add_assoc a b c = eq_of_parts _ _ (omega int_laws)

pub add_zero : (a : ℤ) → a +ℤ pos 0 ≡ a
add_zero a = eq_of_parts _ _ (omega int_laws)

pub zero_add : (a : ℤ) → pos 0 +ℤ a ≡ a
zero_add a = eq_of_parts _ _ (omega int_laws)

pub add_negated : (a b : ℤ) → a +ℤ (pos 0 -ℤ b) ≡ a -ℤ b
add_negated a b = eq_of_parts _ _ (omega int_laws)

pub mul_pos : (a b : ℕ) → pos a *ℤ pos b ≡ pos (a * b)
unfolding ◌*ℤ◌
mul_pos a b = ground (arith, mul-zero a, zero-mul b)

-- A number within `h` either way times one up to `k` is within `h * k`.
pub mul-within :
    (z : ℤ) (m h k : ℕ)
    → z ≤ℤ pos h
    → pos 0 ≤ℤ z +ℤ pos h
    → m ≤ k
    → (z *ℤ pos m ≤ℤ pos (h * k)) × (pos 0 ≤ℤ z *ℤ pos m +ℤ pos (h * k))
unfolding ◌*ℤ◌ ◌+ℤ◌
mul-within (pos n) m h k top low small =
    let big : n * m ≤ h * k = mul-le-mul (omega arith) small in
    (ground (arith, big, mul-zero n, zero-mul m), ground (arith, big, mul-zero n, zero-mul m))
mul-within (negsuc n) m h k top low small =
    let big : suc n * m ≤ h * k = mul-le-mul (ground arith) small in
    (
      ground (arith, big, mul-zero (suc n), zero-mul m),
      ground (arith, big, mul-zero (suc n), zero-mul m),
    )
