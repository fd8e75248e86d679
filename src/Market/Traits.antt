-- ===== src/Market/Traits.antt =====
-- `ExchangeGateway` and `MessageAnalyticsWriter`: what the market needs of the outside. The state of
-- the implementing type goes in and comes out of the methods that change it.
use hft_demo.Prelude.{ℕ, List, Option, Outcome}
use hft_demo.Prelude.Int.{ℤ}
use hft_demo.Common.{OrderCommand, ExecutionReport}

pub record ExchangeGateway : Type 1 where
  pub State : Type 0
  pub send_order : State → OrderCommand → Outcome State
  pub poll_confirmed_orders : State → Outcome (State × Option ExecutionReport)
  pub get_position : State → ℕ → ℤ
  pub get_cash_balance : State → ℕ → ℤ

pub record MessageAnalyticsWriter : Type 1 where
  pub State : Type 0
  pub write : State → List ℕ → Outcome State
