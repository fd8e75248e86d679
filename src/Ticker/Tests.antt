-- ===== src/Ticker/Tests.antt =====
-- Runs of the ticker.
use hft_demo.Common.{buyer, seller}
use hft_demo.Ticker.{Trade, new_ticker}
use hft_demo.Ticker.Volume.{add_trades, add_trades_lem, volume, last_price}
use hft_demo.Prelude.{List, debug, ◌∷◌, ◌≡◌, ok, [], arith}

abbrev two_trades : List Trade
two_trades =
    record { price = 100; quantity = 5; match_number = 1; side = buyer }
    ∷ record { price = 101; quantity = 7; match_number = 2; side = seller }
    ∷ []

add_trades_lem_example :
    add_trades debug new_ticker two_trades
    ≡ ok (record { trades = two_trades; total_volume = 12; last_sale = 101 })
unfolding volume last_price
add_trades_lem_example = add_trades_lem debug new_ticker two_trades (omega arith)
