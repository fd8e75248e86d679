-- ===== src/Prelude/Decimal.antt =====
-- `Display` for integers: decimal digits, of the most significant one first.
use hft_demo.Prelude.Int.{ℤ, pos, negsuc}
use hft_demo.Prelude.Text.{Text}
use hft_demo.Prelude.{
  zero, suc, [], ◌∷◌, ℕ, ◌*◌, ◌<◌, ltb, ◌+◌, ◌-◌, ◌≡◌, ◌/◌, arith, ◌%◌, Bool-cases, inl, ap, inr,
  ◌∙◌, if◌then◌else◌,
}

-- The digits of a number of at most `n` of them, before a text.
unfoldable digits : ℕ → ℕ → Text → Text
digits zero v after = after
digits (suc n) v after =
    let more = digits n (v / 10) ((48 + v % 10) ∷ after) in
    if ltb v 10 then (48 + v) ∷ after else more

-- A u64 has at most 20 digits.
unfoldable pub decimal : ℕ → Text
unfolding digits
decimal v = digits 20 v []

unfoldable pub signed_decimal : ℤ → Text
unfolding decimal
signed_decimal (pos v) = decimal v
signed_decimal (negsuc v) = 45 ∷ decimal (suc v)

-- The value of a text of digits, and back.
unfoldable pub value : ℕ → Text → ℕ
value v [] = v
value v (c ∷ cs) = value (10 * v + (c - 48)) cs

-- How many numbers have at most `n` digits.
abbrev pub numbers : ℕ → ℕ
numbers zero = 1
numbers (suc n) = 10 * numbers n

value-digits :
    (n v : ℕ) (after : Text) → v < numbers n → 0 < n → value 0 (digits n v after) ≡ value v after
unfolding digits value
value-digits zero v after h some_digit = absurd (omega (arith, some_digit))
value-digits (suc n) v after h some_digit = elim (Bool-cases (ltb v 10)) [
  | inl small ↦ rw small (ap (λ m. value m after) (omega arith))
  | inr large ↦
      let rest =
        value-digits n (v / 10) ((48 + v % 10) ∷ after) (omega (arith, h))
          (ground (arith, h, large)) in
      rw large (rest ∙ ap (λ m. value m after) (omega arith))
]

-- The digits of a u64 are its own: reading them gives the number.
pub value-decimal : (v : ℕ) → v < numbers 20 → value 0 (decimal v) ≡ v
unfolding decimal value
value-decimal v h = value-digits 20 v [] h (omega arith)
