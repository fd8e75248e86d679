-- ===== src/Live/Loop.antt =====
-- The loop of the live engine over what the socket returns.
use hft_demo.Ring.{Memory}
use hft_demo.Live.Gateway.{live_gateway, ShmGateway}
use hft_demo.Strategies.{Strategy}
use hft_demo.Prelude.Float.{FloatOps}
use hft_demo.Prelude.{none, some, [], ◌∷◌, List, ℕ, Build, Outcome, Option, ok, ◌>>=◌}
use hft_demo.Market.{
  Running, handle_raw_packet, poll_confirmed_orders, MessageAnalyticsWriter, ExchangeGateway,
}

-- What `recv_from` returns: the bytes of the buffer that it filled, that there is no packet, or
-- another error.
pub data Received : Type 0 where
  packet : List ℕ → Received
  would_block failed : Received

module _ (f : FloatOps) (st : Strategy) (wr : MessageAnalyticsWriter) (gw : ExchangeGateway) where
  -- A turn of the loop, with fuel for its polls.
  unfoldable pub turn :
      Build → ℕ → Running f st wr gw → Received → Outcome (Option (Running f st wr gw))
  turn b fuel r (packet bytes) = handle_raw_packet f st wr gw b fuel r bytes
  turn b fuel r would_block = poll_confirmed_orders f st wr gw b fuel r
  turn b fuel r failed = ok (some r)

-- The reports' ring as the exchange's process has left it.
abbrev pub with_inbound : ShmGateway → Memory → ShmGateway
with_inbound g memory = record g { inbound_shm = record g.inbound_shm { mmap = memory } }

module _ (f : FloatOps) (st : Strategy) (wr : MessageAnalyticsWriter) (b : Build)
    (clock : ℕ → ℕ) where
  -- The turns on a list of answers of the socket, each with the memory of the reports' ring at its
  -- time.
  unfoldable pub turns :
      ℕ
      → List (Memory × Received)
      → Running f st wr (live_gateway b clock)
      → Outcome (Option (Running f st wr (live_gateway b clock)))
  unfolding turn
  turns fuel [] r = ok (some r)
  turns fuel ((memory, received) ∷ rest) (m, g) = do
    answer ← turn f st wr (live_gateway b clock) b fuel (m, with_inbound g memory) received
    elim answer [ none ↦ ok none | some r' ↦ turns fuel rest r' ]
