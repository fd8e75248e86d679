-- ===== src/Ticker/Volume.antt =====
-- The ticker's totals, and the trades that it lists.
use mathlib.Core.List.{append-nil, append_assoc}
use hft_demo.Prelude.{ℕ, ◌+◌, ◌<◌, ◌≡◌, List, [], ◌∷◌, ◌++◌, arith, Build, Outcome, ok, ◌>>=◌}
use hft_demo.Prelude.Word.{u64_mod}
use hft_demo.Ticker.{Trade, TradeTicker, add_trade}

unfoldable pub volume : List Trade → ℕ
volume [] = 0
volume (t ∷ ts) = t.quantity + volume ts

volume-append : (ts us : List Trade) → volume (ts ++ us) ≡ volume ts + volume us
unfolding volume
volume-append [] us = omega arith
volume-append (t ∷ ts) us = omega (arith, volume-append ts us)

-- The price of the last trade of a list, or `p` where there is none.
unfoldable pub last_price : ℕ → List Trade → ℕ
last_price p [] = p
last_price p (t ∷ ts) = last_price t.price ts

-- The calls that the processor makes, in order.
unfoldable pub add_trades : Build → TradeTicker → List Trade → Outcome TradeTicker
add_trades b t [] = ok t
add_trades b t (x ∷ xs) = do
  t' ← add_trade b t x.price x.quantity x.match_number x.side
  add_trades b t' xs

-- Recording trades whose volume keeps the total within u64 succeeds in both builds: the ticker lists
-- them in order after its earlier ones, the total grows by their volume, and the last sale is the
-- price of the last of them.
pub add_trades_lem :
    (b : Build) (t : TradeTicker) (xs : List Trade)
    → t.total_volume + volume xs < u64_mod
    → add_trades b t xs
      ≡ ok (record {
        trades = t.trades ++ xs;
        total_volume = t.total_volume + volume xs;
        last_sale = last_price t.last_sale xs;
      })
unfolding add_trades volume last_price add_trade
add_trades_lem b t [] h = ground (arith, append-nil t.trades)
add_trades_lem b t (x ∷ xs) h =
    let t' : TradeTicker = record {
      trades = t.trades ++ (x ∷ []);
      total_volume = t.total_volume + x.quantity;
      last_sale = x.price;
    } in
    ground (arith, add_trades_lem b t' xs (omega arith), append_assoc t.trades (x ∷ []) xs)
