-- ===== src/Replay/Gateway.antt =====
-- `ReplayGateway` and `TelemetryWriter`: the exchange and the telemetry sink of the replay.
use hft_demo.Prelude.Word.{add_signed, mul_signed, sub_signed, i64_half, i32_half, as_i32}
use hft_demo.Ring
use hft_demo.Ring.{ShmRing}
use hft_demo.Market.{MessageAnalyticsWriter, ExchangeGateway}
use hft_demo.Prelude.Int.{ℤ, pos}
use hft_demo.Common.{OrderCommand, OrderSide, ExecutionReport}
use hft_demo.Prelude.Map.{Map, lookup, insert}
use hft_demo.Prelude.{ℕ, none, some, List, Option, Build, [], Outcome, ◌∷◌, ok, ◌>>=◌, ◌++◌}

-- The maps go from stock locates: cash, + collected and - spent; shares; the price of the last order.
pub record ReplayGateway : Type 0 where
  pub pending_fills : List ExecutionReport
  pub cash_balances : Map ℤ
  pub positions : Map ℤ
  pub last_prices : Map ℕ

abbrev pub new_gateway : ReplayGateway
new_gateway = record { pending_fills = []; cash_balances = []; positions = []; last_prices = [] }

abbrev pub fill_of : OrderCommand → ExecutionReport
fill_of cmd = record {
  order_id = cmd.order_id;
  last_qty = cmd.quantity;
  last_price = cmd.price;
  exec_type = 0;
  stock_locate = cmd.symbol_locate;
}

abbrev pub or_nothing : Option ℤ → ℤ
or_nothing none = pos 0
or_nothing (some z) = z

abbrev pub get_position : ReplayGateway → ℕ → ℤ
get_position g stock_locate = or_nothing (lookup stock_locate g.positions)

abbrev pub get_cash_balance : ReplayGateway → ℕ → ℤ
get_cash_balance g stock_locate = or_nothing (lookup stock_locate g.cash_balances)

-- A buyer spends money and gains shares, a seller collects money and loses shares.
unfoldable pub settle : Build → OrderSide → (cash position value : ℤ) → ℕ → Outcome (ℤ × ℤ)
settle b OrderSide.buy cash position value quantity = do
  cash' ← sub_signed i64_half b cash value
  position' ← add_signed i32_half b position (as_i32 quantity)
  ok (cash', position')
settle b OrderSide.sell cash position value quantity = do
  cash' ← add_signed i64_half b cash value
  position' ← sub_signed i32_half b position (as_i32 quantity)
  ok (cash', position')

unfoldable pub send_order : Build → ReplayGateway → OrderCommand → Outcome ReplayGateway
unfolding settle
send_order b g cmd = do
  trade_value ← mul_signed i64_half b (pos cmd.quantity) (pos cmd.price)
  (cash, position) ←
      settle b cmd.side (get_cash_balance g cmd.symbol_locate) (get_position g cmd.symbol_locate)
        trade_value cmd.quantity
  ok (record {
    pending_fills = g.pending_fills ++ (fill_of cmd ∷ []);
    cash_balances = insert cmd.symbol_locate cash g.cash_balances;
    positions = insert cmd.symbol_locate position g.positions;
    last_prices = insert cmd.symbol_locate cmd.price g.last_prices;
  })

abbrev pub pop_fill : ReplayGateway → List ExecutionReport → ReplayGateway × Option ExecutionReport
pop_fill g [] = (g, none)
pop_fill g (report ∷ reports) = (record g { pending_fills = reports }, some report)

abbrev pub poll_fills : ReplayGateway → ReplayGateway × Option ExecutionReport
poll_fills g = pop_fill g g.pending_fills

abbrev pub replay_gateway : Build → ExchangeGateway
replay_gateway b = record {
  State = ReplayGateway;
  send_order = send_order b;
  poll_confirmed_orders = λ g. ok (poll_fills g);
  get_position = get_position;
  get_cash_balance = get_cash_balance;
}

-- `print_final_pnl`: the cash of all stocks, summed in `i64`, and the stocks that have a price, with
-- their shares. Pnl has the amounts in dollars.
unfoldable pub sum_cash : Build → ℤ → Map ℤ → Outcome ℤ
sum_cash b sum [] = ok sum
sum_cash b sum ((_, cash) ∷ m) = do sum' ← add_signed i64_half b sum cash; sum_cash b sum' m

unfoldable pub total_cash : Build → ReplayGateway → Outcome ℤ
unfolding sum_cash
total_cash b g = sum_cash b (pos 0) g.cash_balances

abbrev pub priced : ℕ → ℤ → Option ℕ → List (ℕ × ℤ × ℕ) → List (ℕ × ℤ × ℕ)
priced locate position none rows = rows
priced locate position (some price) rows = (locate, position, price) ∷ rows

unfoldable pub inventory : Map ℤ → Map ℕ → List (ℕ × ℤ × ℕ)
inventory [] prices = []
inventory ((locate, position) ∷ m) prices =
    priced locate position (lookup locate prices) (inventory m prices)

-- The telemetry ring. `clock` is the wall clock: the time of the write of each message.
unfoldable pub write_telemetry : Build → (ℕ → ℕ) → ShmRing → List ℕ → Outcome ShmRing
unfolding Ring.write
write_telemetry b clock outbound bytes = Ring.write b outbound (clock outbound.mmap.head) bytes

abbrev pub telemetry_writer : Build → (ℕ → ℕ) → MessageAnalyticsWriter
telemetry_writer b clock = record { State = ShmRing; write = write_telemetry b clock }
