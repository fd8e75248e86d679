-- ===== src/Visualiser/Tests.antt =====
-- Runs of the visualiser.
use mathlib.Core.Path.{subst}
use hft_demo.Visualiser.Feed.{write_telemetry-posted}
use hft_demo.Replay.{write_telemetry}
use hft_demo.Visualiser.Drain.{Drained, Telemetry, turns-drain}
use hft_demo.Common.{TelemetryPayload, payload_bytes}
use hft_demo.Prelude.Decimal.{value, decimal, value-decimal}
use hft_demo.Visualiser.Layout.{PayloadFits}
use hft_demo.Visualiser.Batches.{Stepped, join, Batches, step-Batches}
use hft_demo.Ring.{success, ShmRing, Slot, magic, slot_size}
use hft_demo.Prelude.{
  [], ◌∷◌, some, refl, zero, suc, List, ℕ, All, ◌≡◌, arith, ◌++◌, debug, length, ◌≤◌, ok, ◌+◌,
  get_elem?, ◌%◌, ◌*◌, ap,
}
use hft_demo.Prelude.Int.{pos, negsuc, int_laws}
use hft_demo.Prelude.Mask.{pow2}
use hft_demo.Visualiser.Defs.{start, line, Visualiser, turns}
use hft_demo.Prelude.Text.{text, Text}

abbrev payload : TelemetryPayload
payload = record {
  timestamp_ns = 86400000000005;
  realised_pnl = negsuc 499;
  midpoint_px = 102;
  position = pos 100;
  latency_ns = 30;
  locate_id = 13;
}

line-payload :
    line payload
    ≡ text "strategy_state,symbol=AAPL price=102,position=100,pnl=-500,latency=30 86400000000005"
      ++ (10 ∷ [])
unfolding line
line-payload = refl

value-decimal_test : value 0 (decimal 86400000000005) ≡ 86400000000005
value-decimal_test = value-decimal 86400000000005 (omega arith)

abbrev slot : Slot
slot = record { timestamp = 7; len = 32; bytes = payload_bytes payload ++ (0 ∷ []) }

-- Two slots; the first has a record.
abbrev ring : ShmRing
ring = record {
  mmap = record { magic_num = magic; head = 1; slots = λ _. slot; mapped = 256 };
  capacity = 2;
}

abbrev sent : List TelemetryPayload
sent = payload ∷ []

sent_served :
    (n : ℕ) (a : TelemetryPayload)
    → length sent ≤ n + pow2 1
    → get_elem? sent n ≡ some a
    → (slot_size + n % pow2 1 * slot_size + slot_size ≤ 256)
      × ((rest : List ℕ) × ((ring.mmap.slots (n % pow2 1)).bytes ≡ payload_bytes a ++ rest))
sent_served zero a near at =
    let same : payload ≡ a = cc in
    (omega arith, (0 ∷ [], ap (λ r. payload_bytes r ++ (0 ∷ [])) same))
sent_served (suc n) a near at = absurd cc

payload-PayloadFits : PayloadFits payload
payload-PayloadFits = record {
  timestamp_ns = omega arith;
  realised_pnl = (omega int_laws, omega int_laws);
  midpoint_px = omega arith;
  position = (omega int_laws, omega int_laws);
  latency_ns = omega arith;
  locate_id = omega arith;
}

sent_fit : All PayloadFits sent
sent_fit zero a at = let same : payload ≡ a = cc in subst PayloadFits same payload-PayloadFits
sent_fit (suc n) a at = absurd cc

ring-Telemetry : Telemetry 1 ring sent
ring-Telemetry = record {
  slots = refl;
  serves = record { counted = refl; served = sent_served };
  fit = sent_fit;
  countable = omega arith;
}

start-Batches : Batches start [] []
unfolding join
start-Batches = record {
  bodies = refl;
  buffered = refl;
  counted = refl;
  bounded = omega arith;
  sizes = λ i x at. absurd cc;
}

step-Batches_example : Stepped debug start (success slot) [] []
step-Batches_example = step-Batches debug start (success slot) [] [] start-Batches (omega arith)

turns-drain_example : Drained debug ring 2 start [] [] sent
turns-drain_example =
    turns-drain debug 1 1 ring sent start [] [] ring-Telemetry start-Batches refl (omega arith)

-- The visualiser that has read the first record.
abbrev idle : Visualiser
idle = record start { sequence_num = 1 }

idle-Batches : Batches idle [] []
unfolding join
idle-Batches = record {
  bodies = refl;
  buffered = refl;
  counted = refl;
  bounded = omega arith;
  sizes = λ i x at. absurd cc;
}

write_telemetry-posted_example :
    (ring' : ShmRing) × (v' : Visualiser) × (posts' : List (List Text)) × (write_telemetry debug
        (λ _. 9)
        ring
        (payload_bytes payload)
      ≡ ok ring')
    × (turns debug ring' 2 idle ≡ ok v')
    × Batches v' posts' []
    × (join posts' ≡ join [] ++ (line payload ∷ []))
write_telemetry-posted_example =
    write_telemetry-posted debug (λ _. 9) 1 ring sent payload idle [] ring-Telemetry
      payload-PayloadFits (omega arith) (omega arith) idle-Batches refl
