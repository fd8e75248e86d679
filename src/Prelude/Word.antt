-- ===== src/Prelude/Word.antt =====
-- Machine integers as numbers in a range, with what each operation does when the range is left.
use hft_demo.Prelude.{
  ℕ, ◌+◌, ◌-◌, ◌%◌, ◌^◌, ◌≤◌, ◌<◌, ◌≡◌, Bool, arith, ltb, leb, if◌then◌else◌, Build, debug, release,
  Outcome, ok, panic, ◌*◌, Returns,
}
use hft_demo.Prelude.Int.{ℤ, pos, negsuc, ◌+ℤ◌, ◌-ℤ◌, ◌*ℤ◌, ◌≤ℤ◌, ltb_ℤ}

abbrev pub u16_mod : ℕ
u16_mod = 2 ^ 16

abbrev pub u32_mod : ℕ
u32_mod = 2 ^ 32

abbrev pub u64_mod : ℕ
u64_mod = 2 ^ 64

-- An operation that overflows panics in a debug build; in a release build `r` is its result.
abbrev pub on_overflow {ℓ} : {A : Type ℓ} → Build → A → Outcome A
on_overflow debug r = panic
on_overflow release r = ok r

-- `x + y` and `x - y` on an unsigned type of `m` values.
abbrev pub add_word : ℕ → Build → ℕ → ℕ → Outcome ℕ
add_word m b x y = if ltb (x + y) m then ok (x + y) else on_overflow b ((x + y) % m)

abbrev pub sub_word : ℕ → Build → ℕ → ℕ → Outcome ℕ
sub_word m b x y = if leb y x then ok (x - y) else on_overflow b (x + m - y)

abbrev pub mul_word : ℕ → Build → ℕ → ℕ → Outcome ℕ
mul_word m b x y = if ltb (x * y) m then ok (x * y) else on_overflow b (x * y % m)

-- A signed type with half its values, `h`, below zero.
abbrev pub in_range : ℕ → ℤ → Bool
in_range h (pos n) = ltb n h
in_range h (negsuc n) = ltb n h

-- The bit pattern of an integer in a word of `m` values, and the signed reading of a pattern.
abbrev pub pattern_of : ℕ → ℤ → ℕ
pattern_of m (pos n) = n % m
pattern_of m (negsuc n) = m - 1 - n % m

abbrev pub signed_of : ℕ → ℕ → ℤ
signed_of h w = if ltb w h then pos w else negsuc (h + h - 1 - w)

abbrev pub wrap_signed : ℕ → ℤ → ℤ
wrap_signed h z = signed_of h (pattern_of (h + h) z)

abbrev pub signed_result : ℕ → Build → ℤ → Outcome ℤ
signed_result h b z = if in_range h z then ok z else on_overflow b (wrap_signed h z)

abbrev pub add_signed : ℕ → Build → ℤ → ℤ → Outcome ℤ
add_signed h b x y = signed_result h b (x +ℤ y)

abbrev pub sub_signed : ℕ → Build → ℤ → ℤ → Outcome ℤ
sub_signed h b x y = signed_result h b (x -ℤ y)

abbrev pub mul_signed : ℕ → Build → ℤ → ℤ → Outcome ℤ
mul_signed h b x y = signed_result h b (x *ℤ y)

abbrev pub neg_signed : ℕ → Build → ℤ → Outcome ℤ
neg_signed h b x = signed_result h b (pos 0 -ℤ x)

-- `x.abs()`: it overflows at the least value alone.
abbrev pub abs_signed : ℕ → Build → ℤ → Outcome ℤ
abs_signed h b x = if ltb_ℤ x (pos 0) then neg_signed h b x else ok x

abbrev pub i32_half : ℕ
i32_half = 2 ^ 31

abbrev pub i64_half : ℕ
i64_half = 2 ^ 63

-- `x as i32` of a `u32`, and `x as i16` of an index.
abbrev pub as_i32 : ℕ → ℤ
as_i32 w = signed_of i32_half (w % u32_mod)

abbrev pub as_i16 : ℕ → ℤ
as_i16 w = signed_of (2 ^ 15) (w % u16_mod)

pub add_word-ok : (m : ℕ) (b : Build) (x y : ℕ) → x + y < m → add_word m b x y ≡ ok (x + y)
add_word-ok m b x y h = ground arith

pub sub_word-ok : (m : ℕ) (b : Build) (x y : ℕ) → y ≤ x → sub_word m b x y ≡ ok (x - y)
sub_word-ok m b x y h = ground arith

-- A result in range is returned as it is by both builds.
pub signed_result-ok :
    (h : ℕ) (b : Build) (z : ℤ)
    → z +ℤ pos 1 ≤ℤ pos h
    → pos 0 ≤ℤ z +ℤ pos h
    → signed_result h b z ≡ ok z
unfolding ◌+ℤ◌
signed_result-ok h b (pos n) top low = ground arith
signed_result-ok h b (negsuc n) top low = ground arith

pub as_i32-pos : (w : ℕ) → w < i32_half → as_i32 w ≡ pos w
as_i32-pos w h = ground arith

-- A release build returns from every operation.
pub add_word-release : (m x y : ℕ) → Returns (add_word m release x y)
add_word-release m x y = ((if ltb (x + y) m then x + y else (x + y) % m), ground arith)

pub sub_word-release : (m x y : ℕ) → Returns (sub_word m release x y)
sub_word-release m x y = ((if leb y x then x - y else x + m - y), ground arith)

pub signed_result-release : (h : ℕ) (z : ℤ) → Returns (signed_result h release z)
signed_result-release h z = ((if in_range h z then z else wrap_signed h z), ground arith)

pub mul_word-release : (m x y : ℕ) → Returns (mul_word m release x y)
mul_word-release m x y = ((if ltb (x * y) m then x * y else x * y % m), ground arith)
