-- ===== src/Ticker.antt =====
-- crates/ticker/src/lib.rs: the trades seen, their volume and the last price.
mod Tests
pub mod Volume
use hft_demo.Prelude.{ℕ, List, [], ◌∷◌, ◌++◌, Build, Outcome, ok, ◌>>=◌}
use hft_demo.Prelude.Word.{u64_mod, add_word}
use hft_demo.Common.{AggressorSide}

pub record Trade : Type 0 where
  pub price : ℕ
  pub quantity : ℕ
  pub match_number : ℕ
  pub side : AggressorSide

pub record TradeTicker : Type 0 where
  pub trades : List Trade
  pub total_volume : ℕ
  pub last_sale : ℕ

abbrev pub new_ticker : TradeTicker
new_ticker = record { trades = []; total_volume = 0; last_sale = 0 }

unfoldable pub add_trade : Build → TradeTicker → ℕ → ℕ → ℕ → AggressorSide → Outcome TradeTicker
add_trade b t price quantity match_number side = do
  let trade : Trade = record {
    price = price;
    quantity = quantity;
    match_number = match_number;
    side = side;
  }
  total ← add_word u64_mod b t.total_volume quantity
  ok (record { trades = t.trades ++ (trade ∷ []); total_volume = total; last_sale = price })
