-- ===== src/Prelude/Bytes.antt =====
-- Byte slices: indexing, sub-slices, writes into a buffer, and words in either byte order.
use mathlib.Core.List.{reverse, reverse-reverse, reverse-cons}
use mathlib.Core.Path.{subst}
use hft_demo.Prelude.{
  ◌++◌, ltb, get_or, Bool-cases, true, inl, inr, length-take, length-drop, length-append, ℕ, zero,
  suc, ◌∙◌, ◌+◌, ◌-◌, ◌*◌, ◌/◌, ◌%◌, ◌≤◌, ◌<◌, ◌≡◌, refl, ap, leb, if◌then◌else◌, Option, none,
  some, List, [], ◌∷◌, arith, length, take, drop, get_elem?, Outcome, ok, panic, ◌>>=◌,
}

-- `data[i]`, which panics out of range.
abbrev pub or_panic {ℓ} : {A : Type ℓ} → Option A → Outcome A
or_panic none = panic
or_panic (some a) = ok a

unfoldable pub index {ℓ} : {A : Type ℓ} → List A → ℕ → Outcome A
index xs i = or_panic (get_elem? xs i)

-- `data[lo..hi]` for `lo ≤ hi`.
unfoldable pub slice : List ℕ → ℕ → ℕ → Outcome (List ℕ)
slice xs lo hi = if leb hi (length xs) then ok (take (hi - lo) (drop lo xs)) else panic

-- `buf[lo..lo + bytes.len()].copy_from_slice(bytes)`, where the range is in bounds.
unfoldable pub splice : List ℕ → ℕ → List ℕ → List ℕ
splice buf zero [] = buf
splice [] zero (b ∷ bs) = []
splice (x ∷ buf) zero (b ∷ bs) = b ∷ splice buf zero bs
splice [] (suc i) bs = []
splice (x ∷ buf) (suc i) bs = x ∷ splice buf i bs

-- The `w` low bytes of a word, least significant first, and back.
unfoldable pub le_bytes : ℕ → ℕ → List ℕ
le_bytes zero v = []
le_bytes (suc w) v = (v % 256) ∷ le_bytes w (v / 256)

unfoldable pub from_le : List ℕ → ℕ
from_le [] = 0
from_le (b ∷ bs) = b + 256 * from_le bs

unfoldable pub be_bytes : ℕ → ℕ → List ℕ
unfolding le_bytes
be_bytes w v = reverse (le_bytes w v)

unfoldable pub from_be : List ℕ → ℕ
unfolding from_le
from_be bs = from_le (reverse bs)

-- A big-endian word read from a sub-slice.
unfoldable pub be_field : List ℕ → ℕ → ℕ → Outcome ℕ
unfolding slice from_be
be_field xs lo hi = do bs ← slice xs lo hi; ok (from_be bs)

-- How many values `w` bytes have.
abbrev pub span : ℕ → ℕ
span zero = 1
span (suc w) = 256 * span w

abbrev pub AreBytes : List ℕ → Type 0
AreBytes [] = Unit {0}
AreBytes (b ∷ bs) = (b < 256) × AreBytes bs

pub from_le-le_bytes : (w v : ℕ) → v < span w → from_le (le_bytes w v) ≡ v
unfolding from_le le_bytes
from_le-le_bytes zero v h = omega arith
from_le-le_bytes (suc w) v h = omega (arith, from_le-le_bytes w (v / 256) (omega arith))

pub from_be-be_bytes : (w v : ℕ) → v < span w → from_be (be_bytes w v) ≡ v
unfolding from_be be_bytes
from_be-be_bytes w v h = rw (reverse-reverse (le_bytes w v)) (from_le-le_bytes w v h)

pub length-le_bytes : (w v : ℕ) → length (le_bytes w v) ≡ w
unfolding le_bytes
length-le_bytes zero v = refl
length-le_bytes (suc w) v = ap suc (length-le_bytes w (v / 256))

pub from_le-lt : (bs : List ℕ) → AreBytes bs → from_le bs < span (length bs)
unfolding from_le
from_le-lt [] h = omega arith
from_le-lt (b ∷ bs) h = omega (arith, from_le-lt bs h.1, h.0)

-- A slice that is in bounds.
pub slice-ok :
    (xs : List ℕ) (lo hi : ℕ) → hi ≤ length xs → slice xs lo hi ≡ ok (take (hi - lo) (drop lo xs))
unfolding slice
slice-ok xs lo hi h = ground arith

pub slice-panic : (xs : List ℕ) (lo hi : ℕ) → length xs < hi → slice xs lo hi ≡ panic
unfolding slice
slice-panic xs lo hi h = ground arith

pub index-ok {ℓ} :
    {A : Type ℓ} (xs : List A) (i : ℕ) (x : A) → index xs i ≡ ok x → get_elem? xs i ≡ some x
unfolding index
index-ok xs i x e = ground arith

pub index-there {ℓ} :
    {A : Type ℓ} (xs : List A) (i : ℕ) (x : A) → get_elem? xs i ≡ some x → index xs i ≡ ok x
unfolding index
index-there xs i x e = rw e

-- Indexing and reading in one equation each, on both branches.
pub index-eq :
    (xs : List ℕ) (i : ℕ) → index xs i ≡ (if ltb i (length xs) then ok (get_or xs i 0) else panic)
unfolding index
index-eq [] i = ground arith
index-eq (x ∷ xs) zero = ground arith
index-eq (x ∷ xs) (suc i) = unfold index in tail (get_elem? xs i) (index-eq xs i)
  where
    tail :
        (o : Option ℕ)
        → or_panic o ≡ (if ltb i (length xs) then ok (get_or xs i 0) else panic)
        → or_panic o ≡ (if ltb (suc i) (suc (length xs)) then ok (get_or xs i 0) else panic)
    tail o h = ground arith

pub be_field-eq :
    (xs : List ℕ) (lo hi : ℕ)
    → be_field xs lo hi
      ≡ (if leb hi (length xs) then ok (from_be (take (hi - lo) (drop lo xs))) else panic)
unfolding be_field
be_field-eq xs lo hi = ground arith

AreBytes-append : (xs ys : List ℕ) → AreBytes xs → AreBytes ys → AreBytes (xs ++ ys)
AreBytes-append [] ys h k = k
AreBytes-append (x ∷ xs) ys h k = (h.0, AreBytes-append xs ys h.1 k)

AreBytes-reverse : (xs : List ℕ) → AreBytes xs → AreBytes (reverse xs)
AreBytes-reverse [] h = tt
AreBytes-reverse (x ∷ xs) h =
    rw (reverse-cons x xs)
      (AreBytes-append (reverse xs) (x ∷ []) (AreBytes-reverse xs h.1) (h.0, tt))

AreBytes-drop : (n : ℕ) (xs : List ℕ) → AreBytes xs → AreBytes (drop n xs)
AreBytes-drop zero xs h = h
AreBytes-drop (suc n) [] h = tt
AreBytes-drop (suc n) (x ∷ xs) h = AreBytes-drop n xs h.1

AreBytes-take : (n : ℕ) (xs : List ℕ) → AreBytes xs → AreBytes (take n xs)
AreBytes-take zero xs h = tt
AreBytes-take (suc n) [] h = tt
AreBytes-take (suc n) (x ∷ xs) h = (h.0, AreBytes-take n xs h.1)

length-reverse : (xs : List ℕ) → length (reverse xs) ≡ length xs
length-reverse [] = refl
length-reverse (x ∷ xs) =
    rw (reverse-cons x xs) (omega (arith, length-append (reverse xs) (x ∷ []), length-reverse xs))

pub length-be_bytes : (w v : ℕ) → length (be_bytes w v) ≡ w
unfolding be_bytes
length-be_bytes w v = length-reverse (le_bytes w v) ∙ length-le_bytes w v

-- A big-endian word of bytes is below the number of values that it has.
pub from_be-lt : (bs : List ℕ) → AreBytes bs → from_be bs < span (length bs)
unfolding from_be
from_be-lt bs h = rw (← length-reverse bs) (from_le-lt (reverse bs) (AreBytes-reverse bs h))

-- What a read of a field gives lies below `n`, if it gives anything.
abbrev pub Below : ℕ → Outcome ℕ → Type 0
Below n (ok v) = v < n
Below n panic = Unit {0}

pub be_field-Below :
    (xs : List ℕ) (lo hi : ℕ) → AreBytes xs → lo ≤ hi → Below (span (hi - lo)) (be_field xs lo hi)
be_field-Below xs lo hi h le = rw (be_field-eq xs lo hi) (elim (Bool-cases (leb hi (length xs))) [
  | inl e ↦ rw e (
      subst (λ n. from_be (take (hi - lo) (drop lo xs)) < span n) (full e)
        (from_be-lt (take (hi - lo) (drop lo xs))
          (AreBytes-take (hi - lo) (drop lo xs) (AreBytes-drop lo xs h))))
  | inr e ↦ rw e tt
])
  where
    full : leb hi (length xs) ≡ true → length (take (hi - lo) (drop lo xs)) ≡ hi - lo
    full e = ground (arith, length-take (hi - lo) (drop lo xs), length-drop lo xs)
