-- ===== src/Replay/Main.antt =====
-- `main`: the parts of the replay put together, for the two stocks of the program and its strategy.
use hft_demo.Prelude.Float.{FloatOps}
use hft_demo.Prelude.{[], ◌∷◌, ℕ, List, ◌*◌, Outcome, Build, Option, ◌>>=◌}
use hft_demo.Prelude.Text.{text, Text}
use hft_demo.Strategies.{simple_mid_point, new_mid_point}
use hft_demo.Market.{new, Running}
use hft_demo.Ring.{create_producer, Slot, ShmRing}
use hft_demo.Replay.File.{replay}
use hft_demo.Replay.Gateway.{new_gateway, replay_gateway, telemetry_writer}

abbrev pub telemetry_size : ℕ
telemetry_size = 64 * 1024 * 1024

-- `TelemetryWriter::new`: the file of the ring is the caller's.
unfoldable pub new_telemetry_writer : (ℕ → Slot) → Outcome ShmRing
unfolding create_producer
new_telemetry_writer slots = create_producer telemetry_size slots

abbrev pub target_symbols : List Text
target_symbols = text "AAPL" ∷ text "MSFT" ∷ []

module _ (f : FloatOps) (b : Build) (clock : ℕ → ℕ) where
  abbrev pub Replaying : Type 0
  Replaying = Running f (simple_mid_point f) (telemetry_writer b clock) (replay_gateway b)

  -- Up to the printing of the rate and the accounts. The file is mapped, and the wall clock read, by
  -- the caller.
  unfoldable pub main :
      (now_secs : ℕ) → (ℕ → Slot) → (poll_fuel fuel : ℕ) → List ℕ → Outcome (Option (ℕ × Replaying))
  main now_secs slots poll_fuel fuel file = do
    writer ← new_telemetry_writer slots
    let strategy = new_mid_point f (f.div (f.of_nat 8) (f.of_nat 10))
    market ←
        new f (simple_mid_point f) (telemetry_writer b clock) b now_secs target_symbols strategy
          writer
    replay f (simple_mid_point f) (telemetry_writer b clock) (replay_gateway b) b poll_fuel fuel
        file 0 0 (market, new_gateway)
