-- ===== src/Market/State.antt =====
-- `MarketState`: the processors of the target symbols, the table from stock locates to processors,
-- and the entry points that feed packets and fills to them.
use mathlib.Core.Option
use hft_demo.Market.Processor.{SymbolProcessor, contains, remove_id}
use hft_demo.Market.Traits.{MessageAnalyticsWriter}
use hft_demo.Strategies.{Strategy}
use hft_demo.Risk.{new_risk}
use hft_demo.Ticker.{new_ticker}
use hft_demo.Orderbook.{new_book}
use hft_demo.Common.{ExecutionReport, buyer}
use hft_demo.Prelude.Float.{FloatOps}
use hft_demo.Prelude.Word.{u64_mod, mul_word, as_i16}
use hft_demo.Prelude.Bytes.{index}
use hft_demo.Prelude.Text.{Text, trim, trim_matches, text_eq}
use hft_demo.Prelude.Int.{ℤ, pos, negsuc}
use hft_demo.Prelude.{
  ℕ, suc, ◌-◌, ◌%◌, Bool, false, Option, none, some, List, [], ◌∷◌, map, if◌then◌else◌, ◌==◌, Build,
  Outcome, ok, panic, ◌>>=◌, set,
}

abbrev pub clean : Text → Text
clean symbol = trim (trim_matches (λ c. c == 0) symbol)

abbrev pub set_entry : (ℕ → ℤ) → ℕ → ℤ → ℕ → ℤ
set_entry table locate slot l = if l == locate then slot else table l

abbrev pub is_ignored : ℤ → Bool
is_ignored (pos _) = false
is_ignored (negsuc n) = n == 0

-- What a processor starts from: the limits of its risk engine and no stock locate yet.
module _ (f : FloatOps) (st : Strategy) (wr : MessageAnalyticsWriter) where
  abbrev pub new_processor : st.State → Text → SymbolProcessor f st
  new_processor base_strategy sym = record {
    symbol = sym;
    stock_locate = 0;
    order_book = new_book;
    strategy = base_strategy;
    ticker = new_ticker;
    order_tracker = [];
    risk_engine = new_risk f 1000 (f.div (f.of_nat 2) (f.of_nat 100)) (pos 3500);
    last_midpoint = 0;
  }

  -- `lookup_table` is an array over all the locates, of which -1 marks those that are ignored.
  pub record MarketState : Type 0 where
    pub processors : List (SymbolProcessor f st)
    pub lookup_table : ℕ → ℤ
    pub global_order_id_counter : ℕ
    pub telemetry_writer : wr.State
    pub current_time_ns : ℕ
    pub midnight_today_ns : ℕ

  -- The wall clock is read by the caller here.
  unfoldable pub new :
      Build → (now_secs : ℕ) → List Text → st.State → wr.State → Outcome MarketState
  new b now_secs target_symbols base_strategy writer = do
    midnight ← mul_word u64_mod b (now_secs - now_secs % 86400) 1000000000
    ok (record {
      processors = map (new_processor base_strategy) target_symbols;
      lookup_table = λ _. negsuc 0;
      global_order_id_counter = 0;
      telemetry_writer = writer;
      current_time_ns = 0;
      midnight_today_ns = midnight;
    })

  abbrev pub position_of : Text → List (SymbolProcessor f st) → Option ℕ
  position_of sym [] = none
  position_of sym (p ∷ ps) =
      if text_eq p.symbol sym then some 0 else Option.map suc (position_of sym ps)

  abbrev pub map_slot : MarketState → ℕ → Option ℕ → Outcome MarketState
  map_slot m stock_locate none = ok m
  map_slot m stock_locate (some i) = do
    p ← index m.processors i
    ok (record m {
      processors = set m.processors i (record p { stock_locate = stock_locate });
      lookup_table = set_entry m.lookup_table stock_locate (as_i16 i);
    })

  unfoldable pub handle_stock_directory : MarketState → ℕ → Text → Outcome MarketState
  handle_stock_directory m stock_locate symbol =
      map_slot m stock_locate (position_of (clean symbol) m.processors)

  -- `processors[slot as usize]`: a negative slot is an index far out of range.
  abbrev pub processor_at : List (SymbolProcessor f st) → ℤ → Outcome (ℕ × SymbolProcessor f st)
  processor_at ps (pos i) = do p ← index ps i; ok (i, p)
  processor_at ps (negsuc _) = panic

  -- An order that the processor tracks is reported to its strategy, as a buyer's fill, and is
  -- tracked no more.
  unfoldable pub report_fill :
      Build → SymbolProcessor f st → ExecutionReport → Outcome (SymbolProcessor f st)
  report_fill b p report = do
    (s, _) ← st.on_trade b p.strategy report.last_price report.last_qty buyer
    ok (record p { strategy = s; order_tracker = remove_id report.order_id p.order_tracker })

  unfoldable pub confirm_at :
      Build → MarketState → ExecutionReport → ℕ × SymbolProcessor f st → Outcome MarketState
  unfolding report_fill
  confirm_at b m report (i, p) =
      if contains report.order_id p.order_tracker
      then (do p' ← report_fill b p report; ok (record m { processors = set m.processors i p' }))
      else ok m

  -- The body of the polling loop.
  unfoldable pub confirm : Build → MarketState → ExecutionReport → Outcome MarketState
  unfolding confirm_at
  confirm b m report =
      let slot = m.lookup_table report.stock_locate in
      if is_ignored slot
      then ok m
      else (do found ← processor_at m.processors slot; confirm_at b m report found)
