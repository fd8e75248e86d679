-- ===== src/Ring.antt =====
-- crates/shm-ring-buffer/src/lib.rs: the ring in shared memory, one writer and any number of readers.
-- The mapping is a header with the count of messages, then the slots. An access to a slot outside the
-- mapping, which Rust leaves undefined, is a panic here. Files, page faults and the clock are the caller's:
-- the length of the mapping and the time are arguments.
mod Tests
pub mod Create
pub mod Log
pub mod Race
pub mod Served
use Prim.Native.Nat.{bit_and}
use hft_demo.Prelude.{
  ℕ, ◌+◌, ◌-◌, ◌*◌, ◌/◌, Bool, ◌||◌, not, List, ◌++◌, if◌then◌else◌, Build, Outcome, ok, panic,
  ◌>>=◌, ltb, leb, ◌==◌, length, drop, Option, some, none,
}
use hft_demo.Prelude.Word.{u64_mod, add_word, sub_word}

abbrev pub slot_size : ℕ
slot_size = 64

abbrev pub magic : ℕ
magic = 0x11223344_55667788

-- `data` holds 54 bytes, of which the first `len` are the message.
pub record Slot : Type 0 where
  pub timestamp : ℕ
  pub len : ℕ
  pub bytes : List ℕ

-- The shared memory: the header's two words, the slots by index, and the length of the mapping.
pub record Memory : Type 0 where
  pub magic_num : ℕ
  pub head : ℕ
  pub slots : ℕ → Slot
  pub mapped : ℕ

pub record ShmRing : Type 0 where
  pub mmap : Memory
  pub capacity : ℕ

pub data ReadResult : Type 0 where
  success : Slot → ReadResult
  empty reset : ReadResult
  overlapped interrupted : ℕ → ReadResult

pub data Created : Type 0 where
  created : ShmRing → Created
  not_initialized : Created

-- `size == 0 || size & (size - 1) != 0`, on which both constructors panic.
unfoldable pub bad_size : ℕ → Bool
bad_size size = size == 0 || not (bit_and size (size - 1) == 0)

-- The producer sets the file's length to `size` and maps it all. The pages that it touches hold
-- nothing that is read before it is written. Its two stores to the header are not tested against the
-- length, as the accesses to slots are: the first page is there for any length but zero.
unfoldable pub create_producer : ℕ → (ℕ → Slot) → Outcome ShmRing
unfolding bad_size
create_producer size slots =
    if bad_size size
    then panic
    else ok (record {
      mmap = record { magic_num = magic; head = 0; slots = slots; mapped = size };
      capacity = size / slot_size;
    })

unfoldable pub create_consumer : ℕ → Memory → Outcome Created
unfolding bad_size
create_consumer size mmap =
    if bad_size size
    then panic
    else if mmap.magic_num == magic
    then ok (created (record { mmap = mmap; capacity = size / slot_size }))
    else ok not_initialized

-- The index of a message's slot, `sequence & (capacity - 1)`, if the slot lies in the mapping.
unfoldable pub slot_index : Build → ShmRing → ℕ → Outcome ℕ
slot_index b r sequence = do
  mask ← sub_word u64_mod b r.capacity 1
  let index = bit_and sequence mask
  let offset = slot_size + index * slot_size
  (if leb (offset + slot_size) r.mmap.mapped then ok index else panic)

abbrev pub update : (ℕ → Slot) → ℕ → Slot → ℕ → Slot
update slots i s j = if j == i then s else slots j

-- The slot after a write: the new bytes over the old ones.
abbrev pub fill : ℕ → List ℕ → Slot → Slot
fill now packet old = record {
  timestamp = now;
  len = length packet;
  bytes = packet ++ drop (length packet) old.bytes;
}

-- A write, up to the store of the new head: the slot of message `head` is filled.
unfoldable pub store_slot : Build → ShmRing → ℕ → List ℕ → Outcome ShmRing
unfolding slot_index
store_slot b r now packet = if ltb 54 (length packet) then panic else (do
  index ← slot_index b r r.mmap.head
  ok (record r {
    mmap = record r.mmap {
      slots = update r.mmap.slots index (fill now packet (r.mmap.slots index));
    };
  }))

-- The store of the new head, which readers see after the slot.
unfoldable pub publish : Build → ShmRing → Outcome ShmRing
publish b r = do
  head ← add_word u64_mod b r.mmap.head 1
  ok (record r { mmap = record r.mmap { head = head } })

unfoldable pub write : Build → ShmRing → ℕ → List ℕ → Outcome ShmRing
unfolding store_slot publish
write b r now packet = do r' ← store_slot b r now packet; publish b r'

-- The first half of a read, on the head at its start: a result, or go on to copy the slot.
unfoldable pub early : ℕ → ℕ → ℕ → Option ReadResult
early capacity sequence head_start =
    if leb head_start sequence
    then some empty
    else if ltb head_start sequence
    then some reset
    else if ltb capacity (head_start - sequence)
    then some (overlapped (head_start - capacity))
    else none

-- The second half, on the copy and the head at its end.
unfoldable pub late : ℕ → ℕ → Slot → ℕ → ReadResult
late capacity sequence slot_copy head_end =
    if ltb capacity (head_end - sequence)
    then interrupted (head_end - capacity)
    else success slot_copy

abbrev or_copy : Option ReadResult → Outcome ReadResult → Outcome ReadResult
or_copy none rest = rest
or_copy (some result) rest = ok result

-- A read while a writer is at work: the memory as it is at the start, at the copy and at the end.
unfoldable pub read_during : Build → ℕ → ℕ → Memory → Memory → Memory → Outcome ReadResult
unfolding early late slot_index
read_during b capacity sequence at_start at_copy at_end =
    or_copy (early capacity sequence at_start.head) (do
      index ← slot_index b (record { mmap = at_copy; capacity = capacity }) sequence
      ok (late capacity sequence (at_copy.slots index) at_end.head))

-- A read with no writer at work.
unfoldable pub read : Build → ShmRing → ℕ → Outcome ReadResult
unfolding read_during
read b r sequence = read_during b r.capacity sequence r.mmap r.mmap r.mmap
