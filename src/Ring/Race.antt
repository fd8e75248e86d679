-- ===== src/Ring/Race.antt =====
-- A read in the middle of a write.
use hft_demo.Prelude.{ℕ, ◌≢◌, arith, Build, ok}
use hft_demo.Ring.{Memory, reset, slot_index, read_during}

-- No read answers "reset", whatever the memory at its three moments: the test for a head behind the
-- reader comes after the test for "empty", which takes those cases.
pub read_during-ne-reset :
    (b : Build) (c sequence : ℕ) (m₀ m₁ m₂ : Memory) → read_during b c sequence m₀ m₁ m₂ ≢ ok reset
unfolding read_during slot_index
read_during-ne-reset b c q m₀ m₁ m₂ = ground arith
