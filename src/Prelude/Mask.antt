-- ===== src/Prelude/Mask.antt =====
-- `x & (n - 1)` and `n & (n - 1)` for a power of two, from the recursion on binary digits.
use Prim.Native.Nat.{min, digits, bit_and, bit_and-bitwise}
use hft_demo.Prelude.{
  ℕ, zero, suc, ◌+◌, ◌-◌, ◌*◌, ◌/◌, ◌%◌, ◌≤◌, ◌<◌, ◌≡◌, refl, arith, ◌∙◌, ◌==◌, Bool-cases, inl,
  inr, ap, ◌↔◌,
}

abbrev pub pow2 : ℕ → ℕ
pow2 zero = 1
pow2 (suc k) = 2 * pow2 k

pub pow2-pos : (k : ℕ) → 0 < pow2 k
pow2-pos zero = omega arith
pow2-pos (suc k) = omega (arith, pow2-pos k)

-- `fuel` digits of the conjunction.
abbrev and_up_to : ℕ → ℕ → ℕ → ℕ
and_up_to fuel a b = digits (λ x. zero) min fuel a b

and_up_to-zero : (fuel a : ℕ) → and_up_to fuel a 0 ≡ 0
and_up_to-zero zero a = refl
and_up_to-zero (suc fuel) zero = refl
and_up_to-zero (suc fuel) (suc a) = omega (arith, and_up_to-zero fuel (suc a / 2))

-- The mask of k ones keeps the remainder.
and_up_to-mask :
    (k fuel a q r : ℕ)
    → a ≤ fuel
    → r < pow2 k
    → a ≡ q * pow2 k + r
    → and_up_to fuel a (pow2 k - 1) ≡ r
and_up_to-mask zero fuel a q r h l e = omega (arith, and_up_to-zero fuel a)
and_up_to-mask (suc k) zero a q r h l e = omega arith
and_up_to-mask (suc k) (suc fuel) zero q r h l e = omega arith
and_up_to-mask (suc k) (suc fuel) (suc a) q r h l e =
    let half : (2 * pow2 k - 1) / 2 ≡ pow2 k - 1 = omega arith in
    rw half (
      omega (
        arith,
        pow2-pos k,
        and_up_to-mask k fuel (suc a / 2) q (r / 2) (omega arith) (omega arith) (omega arith),
      ))

pub bit_and-mask : (k a : ℕ) → bit_and a (pow2 k - 1) ≡ a % pow2 k
bit_and-mask k a =
    bit_and-bitwise a (pow2 k - 1)
    ∙ and_up_to-mask k a a (a / pow2 k) (a % pow2 k) (omega arith) (omega (arith, pow2-pos k))
        (omega (arith, pow2-pos k))

and_up_to_self : (fuel a : ℕ) → a ≤ fuel → and_up_to fuel a a ≡ a
and_up_to_self zero a h = omega arith
and_up_to_self (suc fuel) zero h = refl
and_up_to_self (suc fuel) (suc a) h = omega (arith, and_up_to_self fuel (suc a / 2) (omega arith))

pow2_of_and :
    (fuel n : ℕ) → suc n ≤ fuel → and_up_to fuel (suc n) n ≡ 0 → (k : ℕ) × (suc n ≡ pow2 k)
pow2_of_and zero n h e = elim h [ ]
pow2_of_and (suc fuel) zero h e = (0, refl)
pow2_of_and (suc fuel) (suc n) h e = elim (Bool-cases (n % 2 == 0)) [
  | inl even ↦
      let halves : suc (suc n) / 2 ≡ suc (suc n / 2) = ground arith in
      let (k, p) = pow2_of_and fuel (suc n / 2) (omega arith) (rw (← halves) (omega arith)) in
      (suc k, ground arith)
  | inr odd ↦
      let halves : suc (suc n) / 2 ≡ suc n / 2 = ground arith in
      absurd (
        ground (
          arith,
          and_up_to_self fuel (suc n / 2) (omega arith),
          ap (λ x. and_up_to fuel x (suc n / 2)) halves,
        ))
]

-- The test of the source, `n & (n - 1) == 0`, accepts exactly the powers of two.
pub bit_and-pred_iff : (n : ℕ) → (bit_and (suc n) n ≡ 0) ↔ ((k : ℕ) × (suc n ≡ pow2 k))
bit_and-pred_iff n = (
  λ e. pow2_of_and (suc n) n (omega arith) (omega (arith, e, bit_and-bitwise (suc n) n)),
  λ (k, p).
      let mask : n ≡ pow2 k - 1 = omega arith in
      let all_zero =
        and_up_to-mask k (suc n) (suc n) 1 0 (omega arith) (pow2-pos k) (omega arith) in
      bit_and-bitwise (suc n) n ∙ ap (λ m. and_up_to (suc n) (suc n) m) mask ∙ all_zero,
)
