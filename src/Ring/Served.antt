-- ===== src/Ring/Served.antt =====
-- What a reader of the ring needs of a list of values, each written as its bytes: the head counts them,
-- and each that is less than a lap behind stands in a slot that is mapped.
use native.Mathlib.Decide.{dec_lt}
use hft_demo.Ring.Log.{filled, get_elem?-append_left, mod-ne, get_elem?-snoc}
use hft_demo.Prelude.Word.{u64_mod}
use hft_demo.Ring.Create.{slot_index-eq}
use hft_demo.Prelude.Mask.{pow2, pow2-pos}
use hft_demo.Prelude.{
  ◌≡◌, List, ℕ, length, Build, ◌+◌, ◌≤◌, get_elem?, ◌<◌, ok, some, ◌%◌, ◌-◌, arith, ◌*◌, ◌++◌,
  get_elem?-lt, ◌∷◌, [], length-append, sym, ◌∙◌, drop, ==_iff,
}
use hft_demo.Ring.{
  Memory, ShmRing, Slot, read, slot_size, empty, overlapped, success, write, u64_mod,
}

pub record Serves {A : Type 0} (encode : A → List ℕ) (k : ℕ) (m : Memory) (sent : List A)
    : Type 0 where
  pub counted : m.head ≡ length sent
  pub served :
      (n : ℕ) (a : A)
      → length sent ≤ n + pow2 k
      → get_elem? sent n ≡ some a
      → (slot_size + n % pow2 k * slot_size + slot_size ≤ m.mapped)
        × ((rest : List ℕ) × ((m.slots (n % pow2 k)).bytes ≡ encode a ++ rest))

-- A read finds the value it asks for, if that is less than a lap behind.
pub read-served :
    {A : Type 0} (encode : A → List ℕ) (b : Build) (k n : ℕ) (r : ShmRing) (sent : List A) (a : A)
    → r.capacity ≡ pow2 k
    → Serves encode k r.mmap sent
    → length sent ≤ n + pow2 k
    → get_elem? sent n ≡ some a
    → (s : Slot) × (rest : List ℕ) × (read b r n ≡ ok (success s)) × (s.bytes ≡ encode a ++ rest)
unfolding read
read-served encode b k n r sent a whole h near at =
    let (inside, (rest, holds)) = h.served n a near at in
    (
      r.mmap.slots (n % pow2 k),
      rest,
      ground (
        arith,
        slot_index-eq b r k n whole,
        inside,
        h.counted,
        near,
        whole,
        get_elem?-lt sent n a at,
      ),
      holds,
    )

-- Behind the last value there is nothing yet.
pub read-ahead :
    {A : Type 0} (encode : A → List ℕ) (b : Build) (k n : ℕ) (r : ShmRing) (sent : List A)
    → Serves encode k r.mmap sent
    → length sent ≤ n
    → read b r n ≡ ok empty
unfolding read
read-ahead encode b k n r sent h past = ground (arith, h.counted, past)

-- A reader more than a lap behind is told of the oldest value that is left.
pub read-behind :
    {A : Type 0} (encode : A → List ℕ) (b : Build) (k n : ℕ) (r : ShmRing) (sent : List A)
    → r.capacity ≡ pow2 k
    → Serves encode k r.mmap sent
    → n + pow2 k < length sent
    → read b r n ≡ ok (overlapped (length sent - pow2 k))
unfolding read
read-behind encode b k n r sent cap h lost = ground (arith, h.counted, lost, cap)

-- A write of a value to a slot that is mapped succeeds in both builds, and the ring then has that
-- value behind the others.
pub write-Serves :
    {A : Type 0} (encode : A → List ℕ) (b : Build) (k : ℕ) (r : ShmRing) (sent : List A) (now : ℕ)
    (a : A)
    → r.capacity ≡ pow2 k
    → Serves encode k r.mmap sent
    → slot_size + length sent % pow2 k * slot_size + slot_size ≤ r.mmap.mapped
    → length (encode a) ≤ 54
    → length sent + 1 < u64_mod
    → (m : Memory) × (write b r now (encode a) ≡ ok (record r { mmap = m }))
      × Serves encode k m (sent ++ (a ∷ []))
unfolding write
write-Serves {A = A} encode b k r sent now a whole h room short more = (
  record r.mmap { slots = filled k r.mmap now (encode a); head = r.mmap.head + 1 },
  ground (arith, slot_index-eq b r k r.mmap.head whole, room, h.counted),
  record { counted = omega (arith, h.counted, length-append {0} sent (a ∷ [])); served = kept },
)
  where
    kept :
        (n : ℕ) (x : A)
        → length (sent ++ (a ∷ [])) ≤ n + pow2 k
        → get_elem? (sent ++ (a ∷ [])) n ≡ some x
        → (slot_size + n % pow2 k * slot_size + slot_size ≤ r.mmap.mapped)
          × ((rest : List ℕ) × ((filled k r.mmap now (encode a) (n % pow2 k)).bytes
                ≡ encode x ++ rest))
    kept n x near at = elim (dec_lt n (length sent)) [
      | yes old ↦
          let (inside, (rest, holds)) =
            h.served n x (omega (arith, near, length-append {0} sent (a ∷ [])))
              (sym (get_elem?-append_left sent (a ∷ []) n old) ∙ at) in
          let apart =
            mod-ne (pow2 k) n r.mmap.head (pow2-pos k) (omega (arith, h.counted, old))
              (omega (arith, h.counted, near, length-append {0} sent (a ∷ []))) in
          (inside, (rest, ground (arith, holds, apart)))
      | no new ↦
          let last : n ≡ length sent =
            omega (
              arith,
              get_elem?-lt (sent ++ (a ∷ [])) n x at,
              length-append {0} sent (a ∷ []),
              new,
            ) in
          let there = get_elem?-snoc sent a in
          let same : a ≡ x = ground (arith, there, at, last) in
          (
            ground (arith, room, last),
            (
              drop (length (encode a)) (r.mmap.slots (r.mmap.head % pow2 k)).bytes,
              ground (arith, last, h.counted, same, ==_iff (n % pow2 k) (n % pow2 k)),
            ),
          )
    ]
