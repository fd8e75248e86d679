-- ===== src/Ring/Log.antt =====
-- The ring as the tail of a log: what a read returns, also while messages are being written.
use mathlib.Core.Path.{subst}
use native.Mathlib.Decide.{dec_lt}
use native.Mathlib.Nat.{mod-lt, div-add-mod, mul-le-mul_right}
use hft_demo.Prelude.{
  ℕ, zero, suc, ◌+◌, ◌-◌, ◌*◌, ◌/◌, ◌%◌, ◌≤◌, ◌<◌, ◌≡◌, ◌≢◌, refl, some, List, [], ◌∷◌, ◌++◌, arith,
  Build, ok, length, get_elem?, take, drop, length-append, ltb, leb, sym, ◌∙◌, ==_iff, Bool-cases,
  inl, inr, leb→le, ap, get_elem?-lt, take-append,
}
use hft_demo.Prelude.Mask.{pow2, pow2-pos}
use hft_demo.Prelude.Word.{u64_mod}
use hft_demo.Ring.{
  ShmRing, Slot, Memory, ReadResult, success, empty, reset, overlapped, interrupted, slot_size,
  slot_index, update, fill, write, read_during,
}
use hft_demo.Ring.Create.{slot_index-eq}

-- A message: its time and its bytes.
abbrev pub Entry : Type 0
Entry = ℕ × List ℕ

abbrev pub Holds : Slot → Entry → Type 0
Holds s (now, packet) =
    (s.timestamp ≡ now) × (s.len ≡ length packet) × (take (length packet) s.bytes ≡ packet)

-- The memory holds the last 2^k messages of a log, and the head counts the log.
pub record Logs (k : ℕ) (m : Memory) (log : List Entry) : Type 0 where
  pub counted : m.head ≡ length log
  pub held :
      (n : ℕ) (e : Entry)
      → length log ≤ n + pow2 k
      → get_elem? log n ≡ some e
      → Holds (m.slots (n % pow2 k)) e

-- The slot of a message lies inside the mapping, behind the header.
abbrev pub IsMapped : ℕ → Memory → ℕ → Type 0
IsMapped k m n = slot_size + n % pow2 k * slot_size + slot_size ≤ m.mapped

-- Two messages less than a lap apart have different slots.
pub mod-ne : (c n m : ℕ) → 0 < c → n < m → m < n + c → n % c ≢ m % c
mod-ne c n m h l u e = elim (dec_lt (n / c) (m / c)) [
  | yes p ↦ absurd (
      omega (
        arith,
        mul-le-mul_right {m = suc (n / c)} {n = m / c} c p,
        div-add-mod n c,
        div-add-mod m c,
      ))
  | no p ↦ absurd (
      omega (
        arith,
        mul-le-mul_right {m = m / c} {n = n / c} c (omega arith),
        div-add-mod n c,
        div-add-mod m c,
      ))
]

module _ {A : Type 0} where
  pub get_elem?-append_left :
      (xs ys : List A) (i : ℕ) → i < length xs → get_elem? (xs ++ ys) i ≡ get_elem? xs i
  get_elem?-append_left [] ys i h = absurd (omega arith)
  get_elem?-append_left (x ∷ xs) ys zero h = refl
  get_elem?-append_left (x ∷ xs) ys (suc i) h = get_elem?-append_left xs ys i (omega arith)

  pub get_elem?-snoc : (xs : List A) (y : A) → get_elem? (xs ++ (y ∷ [])) (length xs) ≡ some y
  get_elem?-snoc [] y = refl
  get_elem?-snoc (x ∷ xs) y = get_elem?-snoc xs y

  get_elem?-some : (xs : List A) (i : ℕ) → i < length xs → (a : A) × (get_elem? xs i ≡ some a)
  get_elem?-some [] i h = absurd (omega arith)
  get_elem?-some (x ∷ xs) zero h = (x, refl)
  get_elem?-some (x ∷ xs) (suc i) h = get_elem?-some xs i (omega arith)

-- The slots after the slot of the next message is filled.
abbrev pub filled : ℕ → Memory → ℕ → List ℕ → ℕ → Slot
filled k m now packet = let i = m.head % pow2 k in update m.slots i (fill now packet (m.slots i))

filled_new :
    (k : ℕ) (m : Memory) (now : ℕ) (packet : List ℕ)
    → Holds (filled k m now packet (m.head % pow2 k)) (now, packet)
filled_new k m now packet = ground (
  arith,
  ==_iff (m.head % pow2 k) (m.head % pow2 k),
  take-append packet (drop (length packet) (m.slots (m.head % pow2 k)).bytes),
)

filled_held :
    (k : ℕ) (m : Memory) (log : List Entry) (now : ℕ) (packet : List ℕ)
    → Logs k m log
    → (n : ℕ) (e : Entry) → length (log ++ ((now, packet) ∷ [])) ≤ n + pow2 k
    → get_elem? (log ++ ((now, packet) ∷ [])) n ≡ some e
    → Holds (filled k m now packet (n % pow2 k)) e
filled_held k m log now packet w n e h g = elim (dec_lt n (length log)) [
  | yes old ↦
      let kept =
        w.held n e (omega (arith, length-append {0} log ((now, packet) ∷ [])))
          (sym (get_elem?-append_left log ((now, packet) ∷ []) n old) ∙ g) in
      let apart =
        mod-ne (pow2 k) n m.head (pow2-pos k) (omega (arith, w.counted))
          (omega (arith, w.counted, length-append {0} log ((now, packet) ∷ []))) in
      ground (arith, kept, apart)
  | no new ↦
      let last : n ≡ m.head = omega (
        arith,
        w.counted,
        get_elem?-lt (log ++ ((now, packet) ∷ [])) n e g,
        length-append {0} log ((now, packet) ∷ []),
      ) in
      let there = get_elem?-snoc log (now, packet) in
      let same : (now, packet) ≡ e = ground (arith, there, g, last, w.counted) in
      subst (λ x. Holds (filled k m now packet (n % pow2 k)) x) same
        (rw last (filled_new k m now packet))
]

-- A write of at most 54 bytes to a ring that holds the tail of a log, when the slot of its next
-- message lies inside the mapping and the count of messages stays below 2^64, succeeds in both
-- builds, and the ring then has the same mapping and holds the tail of the log with that message at
-- its end.
pub write-Logs :
    (b : Build) (k : ℕ) (r : ShmRing) (log : List Entry) (now : ℕ) (packet : List ℕ)
    → r.capacity ≡ pow2 k
    → Logs k r.mmap log
    → IsMapped k r.mmap (length log)
    → length packet ≤ 54
    → length log + 1 < u64_mod
    → (m : Memory) × (write b r now packet ≡ ok (record r { mmap = m }))
      × (m.mapped ≡ r.mmap.mapped)
      × Logs k m (log ++ ((now, packet) ∷ []))
unfolding write
write-Logs b k r log now packet cap w inside short more =
    let i : ℕ = r.mmap.head % pow2 k in
    let slots' : ℕ → Slot = update r.mmap.slots i (fill now packet (r.mmap.slots i)) in
    (
      record r.mmap { slots = slots'; head = r.mmap.head + 1 },
      ground (
        arith,
        slot_index-eq b r k r.mmap.head cap,
        mod-lt r.mmap.head (pow2-pos k),
        inside,
        w.counted,
        ap (λ n. n % pow2 k) w.counted,
      ),
      refl,
      record {
        counted = omega (arith, w.counted, length-append {0} log ((now, packet) ∷ []));
        held = λ n e. filled_held k r.mmap log now packet w n e;
      },
    )

-- What a read of message `sequence` may return while the log grows from `before` through `log` to
-- `after`: nothing yet; the message; or, once it is more than a lap behind, the oldest that is held.
abbrev pub Answers : ℕ → ℕ → List Entry → List Entry → ReadResult → Type 0
Answers c sequence before after (success s) =
    (e : Entry) × (get_elem? after sequence ≡ some e) × Holds s e
Answers c sequence before after empty = length before ≤ sequence
Answers c sequence before after (overlapped n) =
    (sequence + c < length before) × (n ≡ length before - c)
Answers c sequence before after (interrupted n) =
    (sequence + c < length after) × (n ≡ length after - c)
Answers c sequence before after reset = ⊥

-- Let the writer complete any number of writes between the start of a read, its copy and its end, and
-- let the slot of the message asked for lie inside the mapping. The read does not panic; it answers with the message asked for, with "empty" if that was not written at
-- the start, or with the oldest message held, at the start or at the end, if the message was lost by
-- then. It never answers "reset".
pub read_during-Answers :
    (b : Build) (k sequence : ℕ) (m₀ m₁ m₂ : Memory) (log more rest : List Entry)
    → Logs k m₀ log
    → Logs k m₁ (log ++ more)
    → Logs k m₂ ((log ++ more) ++ rest)
    → IsMapped k m₁ sequence
    → (a : ReadResult) × (read_during b (pow2 k) sequence m₀ m₁ m₂ ≡ ok a)
      × Answers (pow2 k) sequence log ((log ++ more) ++ rest) a
unfolding read_during
read_during-Answers b k q m₀ m₁ m₂ log more rest w₀ w₁ w₂ inside =
    elim (Bool-cases (leb m₀.head q)) [
      | inl unwritten ↦ (empty, ground arith, omega (arith, w₀.counted, leb→le m₀.head q unwritten))
      | inr written ↦ elim (Bool-cases (ltb (pow2 k) (m₀.head - q))) [
        | inl lapped ↦ (overlapped (m₀.head - pow2 k), ground arith, ground (arith, w₀.counted))
        | inr held ↦ elim (Bool-cases (ltb (pow2 k) (m₂.head - q))) [
          | inl lost ↦
              (interrupted (m₂.head - pow2 k), ground (arith, index), ground (arith, w₂.counted))
          | inr kept ↦
              let lengths = length-append {0} log more in
              let in_log : q < length (log ++ more) = ground (arith, w₀.counted, lengths) in
              let (e, at) = get_elem?-some (log ++ more) q in_log in
              let near : length (log ++ more) ≤ q + pow2 k =
                ground (arith, w₂.counted, length-append {0} (log ++ more) rest) in
              (
                success (m₁.slots (q % pow2 k)),
                ground (arith, index),
                (e, get_elem?-append_left (log ++ more) rest q in_log ∙ at, w₁.held q e near at),
              )
        ]
      ]
    ]
  where
    index : slot_index b (record { mmap = m₁; capacity = pow2 k }) q ≡ ok (q % pow2 k)
    index = ground (
      arith,
      slot_index-eq b (record { mmap = m₁; capacity = pow2 k }) k q refl,
      mod-lt q (pow2-pos k),
      inside,
    )
