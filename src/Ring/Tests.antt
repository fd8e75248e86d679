-- ===== src/Ring/Tests.antt =====
-- Runs of the ring.
use mathlib.Core.Path.{subst}
use hft_demo.Ring.Race.{read_during-ne-reset}
use hft_demo.Ring.Create.{producer, create_producer-ok_iff, slot_index-panic_iff}
use hft_demo.Prelude.Mask.{pow2}
use hft_demo.Ring.Log.{Entry, Logs, write-Logs, Answers, read_during-Answers, Holds}
use hft_demo.Ring.{
  ShmRing, read_during, create_producer, ReadResult, Memory, Slot, write, reset, slot_index, update,
  fill,
}
use hft_demo.Prelude.{
  ℕ, refl, replicate, debug, ◌≡◌, ◌*◌, ◌∷◌, [], ok, ◌≢◌, ◌↔◌, ◌≤◌, arith, ◌+◌, get_elem?, panic,
  ◌%◌, some, ◌-◌, suc, zero,
}

abbrev blank : Slot
blank = record { timestamp = 0; len = 0; bytes = replicate 54 0 }

create_producer-ok_iff_example :
    ((r : ShmRing) × (create_producer 256 (λ _. blank) ≡ ok r)) ↔ ((k : ℕ) × (256 ≡ pow2 k))
create_producer-ok_iff_example = create_producer-ok_iff 256 (λ _. blank)

-- The ring of 256 bytes counts four slots; message 3 goes to the last.
slot_index-panic_iff_example :
    (create_producer (64 * pow2 2) (λ _. blank) ≡ ok (producer (64 * pow2 2) (λ _. blank)))
    × ((slot_index debug (producer (64 * pow2 2) (λ _. blank)) 3 ≡ panic)
        ↔ (3 % pow2 2 ≡ pow2 2 - 1))
slot_index-panic_iff_example = slot_index-panic_iff debug 2 3 (λ _. blank)

abbrev message : Entry
message = (7, 1 ∷ 2 ∷ [])

-- The producer's ring of four slots, and its memory after one write and after two.
abbrev opened : ShmRing
opened = producer (64 * pow2 2) (λ _. blank)

opened-Logs : Logs 2 opened.mmap []
opened-Logs = record { counted = refl; held = λ n e h g. absurd cc }

write-Logs_example :
    (m : Memory) × (write debug opened 7 (1 ∷ 2 ∷ []) ≡ ok (record opened { mmap = m }))
    × (m.mapped ≡ 256)
    × Logs 2 m (message ∷ [])
write-Logs_example =
    write-Logs debug 2 opened [] 7 (1 ∷ 2 ∷ []) refl opened-Logs (omega arith) (omega arith)
      (omega arith)

abbrev written : Memory
written = record opened.mmap {
  slots = update opened.mmap.slots 0 (fill 7 (1 ∷ 2 ∷ []) blank);
  head = 1;
}

written-Logs : Logs 2 written (message ∷ [])
written-Logs = record { counted = refl; held = λ n e. there n e }
  where
    there :
        (n : ℕ) (e : Entry)
        → 1 ≤ n + 4
        → get_elem? (message ∷ []) n ≡ some e
        → Holds (written.slots (n % 4)) e
    there zero e h g =
        let same : message ≡ e = ground arith in
        subst (Holds (written.slots 0)) same (refl, refl, refl)
    there (suc n) e h g = absurd cc

-- The message asked for is written by the start of the read.
read_during-Answers_example :
    (a : ReadResult) × (read_during debug (pow2 2) 0 written written written ≡ ok a)
    × Answers (pow2 2) 0 (message ∷ []) (message ∷ []) a
read_during-Answers_example =
    read_during-Answers debug 2 0 written written written (message ∷ []) [] [] written-Logs
      written-Logs written-Logs (omega arith)

read_during-ne-reset_example : read_during debug 4 5 written written written ≢ ok reset
read_during-ne-reset_example = read_during-ne-reset debug 4 5 written written written
