-- ===== src/Live/Main.antt =====
-- `main`: the parts of the live engine put together, for the two stocks of the program and its strategy.
use hft_demo.Ring.{Slot, Memory}
use hft_demo.Prelude.Float.{FloatOps}
use hft_demo.Prelude.{[], ◌∷◌, Build, ℕ, List, Outcome, Option, ◌>>=◌}
use hft_demo.Prelude.Text.{text}
use hft_demo.Strategies.{simple_mid_point, new_mid_point}
use hft_demo.Market.{new, Running}
use hft_demo.Live.Gateway.{new_gateway, live_gateway, dummy_writer}
use hft_demo.Live.Loop.{turns, Received}

module _ (f : FloatOps) (b : Build) (clock : ℕ → ℕ) where
  -- The run while the socket returns what is listed. The wall clock and the memory of the exchange's
  -- process are read by the caller.
  unfoldable pub main :
      (now_secs : ℕ)
      → (ℕ → Slot)
      → Memory
      → ℕ
      → List (Memory × Received)
      → Outcome (Option (Running f (simple_mid_point f) dummy_writer (live_gateway b clock)))
  unfolding new_gateway turns
  main now_secs slots inbound_memory poll_fuel received = do
    gateway ← new_gateway slots inbound_memory
    let strategy = new_mid_point f (f.div (f.of_nat 8) (f.of_nat 10))
    market ←
        new f (simple_mid_point f) dummy_writer b now_secs (text "AAPL" ∷ text "MSFT" ∷ []) strategy
          tt
    turns f (simple_mid_point f) dummy_writer b clock poll_fuel received (market, gateway)
