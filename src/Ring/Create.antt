-- ===== src/Ring/Create.antt =====
-- Which sizes the constructors accept, and which slots of a producer's ring lie in its mapping.
use native.Mathlib.Nat.{mod-lt}
use Prim.Native.Nat.{bit_and}
use hft_demo.Prelude.{
  ℕ, zero, suc, ◌+◌, ◌-◌, ◌*◌, ◌/◌, ◌%◌, ◌≡◌, ◌↔◌, arith, Build, ok, panic, false, if◌then◌else◌,
  leb, ap,
}
use hft_demo.Prelude.Mask.{pow2, pow2-pos, bit_and-mask, bit_and-pred_iff}
use hft_demo.Ring.{ShmRing, Slot, slot_size, bad_size, create_producer, slot_index, magic}

bad_size_iff : (size : ℕ) → (bad_size size ≡ false) ↔ ((k : ℕ) × (size ≡ pow2 k))
unfolding bad_size
bad_size_iff zero = (λ e. absurd (ground arith), λ (k, p). absurd (omega (arith, pow2-pos k)))
bad_size_iff (suc n) =
    let same : bit_and (suc n) (suc n - 1) ≡ bit_and (suc n) n =
      ap (bit_and (suc n)) (omega arith) in
    let test : (bad_size (suc n) ≡ false) ↔ (bit_and (suc n) n ≡ 0) = ground (arith, same) in
    (λ e. (bit_and-pred_iff n).0 (test.0 e), λ h. test.1 ((bit_and-pred_iff n).1 h))

-- What `create_producer` makes of a size that it accepts.
abbrev pub producer : ℕ → (ℕ → Slot) → ShmRing
producer size slots = record {
  mmap = record { magic_num = magic; head = 0; slots = slots; mapped = size };
  capacity = size / slot_size;
}

accepted :
    (size : ℕ) (slots : ℕ → Slot)
    → bad_size size ≡ false
    → create_producer size slots ≡ ok (producer size slots)
unfolding create_producer
accepted size slots e = rw (e, create_producer)

-- A producer is created for a power of two, and for no other size.
pub create_producer-ok_iff :
    (size : ℕ) (slots : ℕ → Slot)
    → ((r : ShmRing) × (create_producer size slots ≡ ok r)) ↔ ((k : ℕ) × (size ≡ pow2 k))
unfolding create_producer
create_producer-ok_iff size slots = (
  λ (r, e). (bad_size_iff size).0 (ground arith),
  λ h. (producer size slots, accepted size slots ((bad_size_iff size).1 h)),
)

-- The index of a slot, where the capacity is a power of two, and the test against the mapping.
pub slot_index-eq :
    (b : Build) (r : ShmRing) (k n : ℕ)
    → r.capacity ≡ pow2 k
    → slot_index b r n ≡ (
        if leb (slot_size + n % pow2 k * slot_size + slot_size) r.mmap.mapped
        then ok (n % pow2 k)
        else panic)
unfolding slot_index
slot_index-eq b r k n e =
    ground (arith, pow2-pos k, bit_and-mask k n, ap (λ c. bit_and n (c - 1)) e)

-- In the ring that a producer makes of 64 * 2^k bytes, which counts 2^k slots, exactly the slots of
-- the messages whose number is 2^k - 1 modulo 2^k lie outside the mapping: the last slot begins where
-- the mapping ends.
pub slot_index-panic_iff :
    (b : Build) (k n : ℕ) (slots : ℕ → Slot)
    → let r = producer (64 * pow2 k) slots in
      (create_producer (64 * pow2 k) slots ≡ ok r)
      × ((slot_index b r n ≡ panic) ↔ (n % pow2 k ≡ pow2 k - 1))
slot_index-panic_iff b k n slots = (
  accepted (64 * pow2 k) slots
      ((bad_size_iff (64 * pow2 k)).1 (suc (suc (suc (suc (suc (suc k))))), omega arith)),
  ground (
    arith,
    slot_index-eq b (producer (64 * pow2 k) slots) k n (omega arith),
    pow2-pos k,
    mod-lt n (pow2-pos k),
  ),
)
