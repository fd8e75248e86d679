-- ===== src/Live/Gateway.antt =====
-- `ShmGateway` and `DummyWriter`: orders go out on one ring, reports come in on another.
use hft_demo.Prelude.Word.{add_word, u64_mod}
use hft_demo.Prelude.Layout.{word_at}
use hft_demo.Ring
use hft_demo.Ring.{
  ShmRing, ReadResult, success, empty, reset, overlapped, interrupted, Slot, Memory, Created,
  created, not_initialized, create_producer, create_consumer,
}
use hft_demo.Market.{MessageAnalyticsWriter, ExchangeGateway}
use hft_demo.Common.{OrderCommand, ExecutionReport, as_bytes}
use hft_demo.Prelude.Int.{pos}
use hft_demo.Prelude.{none, some, Build, List, ℕ, Outcome, ok, ◌*◌, panic, ◌>>=◌, Option}

abbrev pub dummy_writer : MessageAnalyticsWriter
dummy_writer = record { State = Unit {0}; write = λ w _. ok w }

pub record ShmGateway : Type 0 where
  pub outbound_shm : ShmRing
  pub inbound_shm : ShmRing
  pub next_seq : ℕ

abbrev pub shm_size : ℕ
shm_size = 64 * 1024 * 1024

abbrev pub connected : ShmRing → Created → Outcome ShmGateway
connected outbound (created inbound) =
    ok (record { outbound_shm = outbound; inbound_shm = inbound; next_seq = 0 })
connected outbound not_initialized = panic

-- Files that are missing or too short, on which it panics too, are the caller's.
unfoldable pub new_gateway : (ℕ → Slot) → Memory → Outcome ShmGateway
unfolding create_producer create_consumer
new_gateway slots inbound_memory = do
  outbound ← create_producer shm_size slots
  inbound ← create_consumer shm_size inbound_memory
  connected outbound inbound

-- `read_unaligned` of the packed struct at the start of a slot's data.
unfoldable pub report_of : List ℕ → ExecutionReport
unfolding word_at
report_of bytes = record {
  order_id = word_at 8 0 bytes;
  last_qty = word_at 4 8 bytes;
  last_price = word_at 4 12 bytes;
  exec_type = word_at 1 16 bytes;
  stock_locate = word_at 2 17 bytes;
}

-- `clock` is the wall clock: the time of the write of each message.
unfoldable pub send_order : Build → (ℕ → ℕ) → ShmGateway → OrderCommand → Outcome ShmGateway
unfolding Ring.write as_bytes
send_order b clock g cmd = do
  outbound ← Ring.write b g.outbound_shm (clock g.outbound_shm.mmap.head) (as_bytes cmd)
  ok (record g { outbound_shm = outbound })

abbrev pub answer_of :
    Build → ShmGateway → ReadResult → Outcome (ShmGateway × Option ExecutionReport)
answer_of b g (success slot) = do
  next_seq ← add_word u64_mod b g.next_seq 1
  ok (record g { next_seq = next_seq }, some (report_of slot.bytes))
answer_of b g empty = ok (g, none)
answer_of b g reset = panic
answer_of b g (overlapped _) = panic
answer_of b g (interrupted _) = panic

unfoldable pub poll_reports : Build → ShmGateway → Outcome (ShmGateway × Option ExecutionReport)
unfolding Ring.read report_of
poll_reports b g = do result ← Ring.read b g.inbound_shm g.next_seq; answer_of b g result

-- The gateway does not know positions or cash.
abbrev pub live_gateway : Build → (ℕ → ℕ) → ExchangeGateway
live_gateway b clock = record {
  State = ShmGateway;
  send_order = send_order b clock;
  poll_confirmed_orders = poll_reports b;
  get_position = λ _ _. pos 0;
  get_cash_balance = λ _ _. pos 0;
}
