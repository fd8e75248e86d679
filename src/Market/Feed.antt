-- ===== src/Market/Feed.antt =====
-- What a sound feed and the outside keep to, and the messages of such a feed on a sound book.
use hft_demo.Prelude.Word.{u32_mod, u64_mod, add_word-ok}
use hft_demo.Risk.Position.{IsSafe}
use hft_demo.Orderbook.Prices.{PricesFit, IsSound, AtMost, cancel-IsSound, add_order-PricesFit}
use hft_demo.Orderbook.Invariant.{WellFormed, level, add_order-WellFormed}
use hft_demo.Prelude.Map.{lookup}
use hft_demo.Ticker.{TradeTicker, add_trade}
use hft_demo.Orderbook.{L3OrderBook, Order}
use hft_demo.Common.{OrderCommand, Side, AggressorSide}
use hft_demo.Strategies.{Strategy, Quote}
use hft_demo.Prelude.Int.{◌≤ℤ◌, pos, ◌+ℤ◌}
use hft_demo.Prelude.Float.{FloatOps}
use hft_demo.Market.{
  ExchangeGateway, execute, SymbolProcessor, aggressor_against, execute_found, apply_message,
  delete_found, aggressor_of,
}
use hft_demo.Prelude.{
  ℕ, Outcome, Option, ◌≡◌, Build, some, ok, ◌^◌, ◌+◌, none, Option-cases, ◌<◌, inl, refl, ◌++◌, ◌∷◌,
  [], inr, arith, Returns, ◌≤◌,
}
use hft_demo.Itch.{
  ItchMessage, add_order, modify_order, trade, delete_order, order_executed,
  order_executed_with_price, stock_directory,
}

-- What the exchange reports of a stock is far from the ends of its types: a position within 2^30
-- either way, and a cash balance within 2^61.
pub record IsBalanced (gw : ExchangeGateway) (g : gw.State) (locate : ℕ) : Type 0 where
  pub long : gw.get_position g locate ≤ℤ pos (2 ^ 30)
  pub short : pos 0 ≤ℤ gw.get_position g locate +ℤ pos (2 ^ 30)
  pub rich : gw.get_cash_balance g locate ≤ℤ pos (2 ^ 61)
  pub poor : pos 0 ≤ℤ gw.get_cash_balance g locate +ℤ pos (2 ^ 61)

-- The exchange takes each order for the stock of at most 1000 shares at a price in u32, and its reports
-- of the stock are in bounds, before and after one.
pub record Serves (gw : ExchangeGateway) (g : gw.State) (locate : ℕ) : Type 0 where
  pub balanced : IsBalanced gw g locate
  pub takes :
      (cmd : OrderCommand)
      → cmd.symbol_locate ≡ locate
      → cmd.quantity ≤ 1000
      → cmd.price < u32_mod
      → (g' : gw.State) × (gw.send_order g cmd ≡ ok g') × IsBalanced gw g' locate

-- The best price and quantity of a sound book: a price in u32 and fewer than 2^31 shares.
abbrev pub IsQuoted : Quote → Type 0
IsQuoted none = Unit {0}
IsQuoted (some (price, quantity)) = (price < u32_mod) × (quantity < 2 ^ 31)

-- An order of at most 1000 shares at a price in u32.
abbrev pub IsModest : Option OrderCommand → Type 0
IsModest none = Unit {0}
IsModest (some cmd) = (cmd.quantity ≤ 1000) × (cmd.price < u32_mod)

-- The strategy answers the best prices of a sound book, with a modest order if any.
abbrev pub Answers : (st : Strategy) → Build → st.State → Type 0
Answers st b s =
    (bid ask : Quote)
    → IsQuoted bid
    → IsQuoted ask
    → (s' : st.State) × (answer : Option OrderCommand) × (st.on_book_update b s bid ask
        ≡ ok (s', answer))
      × IsModest answer

module _ (f : FloatOps) (st : Strategy) where
  -- The state of a processor that events keep.
  pub record Ready (p : SymbolProcessor f st) : Type 0 where
    pub book : WellFormed p.order_book
    pub prices : PricesFit p.order_book
    pub risk : IsSafe f p.risk_engine

  -- What a message of a sound feed keeps to: a new order has a fresh id, shares, a price in u32 and a
  -- level that stays below 2^31; no more is cancelled or executed than the order has; the volume of the
  -- day stays in u64.
  abbrev pub Respects : SymbolProcessor f st → ItchMessage → Type 0
  Respects p (add_order _ order_id side quantity price) =
      (lookup order_id p.order_book.orders ≡ none)
      × (0 < quantity)
      × (price < u32_mod)
      × (level side price p.order_book + quantity < 2 ^ 31)
  Respects p (modify_order _ order_id quantity) =
      AtMost quantity (lookup order_id p.order_book.orders)
  Respects p (trade _ _ quantity _ _) = p.ticker.total_volume + quantity < u64_mod
  Respects p (delete_order _ _) = Unit {0}
  Respects p (order_executed _ order_id quantity _) =
      AtMost quantity (lookup order_id p.order_book.orders)
      × (p.ticker.total_volume + quantity < u64_mod)
  Respects p (order_executed_with_price _ order_id quantity _ _) =
      AtMost quantity (lookup order_id p.order_book.orders)
      × (p.ticker.total_volume + quantity < u64_mod)
  Respects p (stock_directory _ _) = Unit {0}

  -- What applying a message comes to: the processor with another book, which is sound, and ticker.
  abbrev pub Applies : SymbolProcessor f st → Outcome (SymbolProcessor f st) → Type 0
  Applies p r =
      (book : L3OrderBook) × (ticker : TradeTicker) × (r
        ≡ ok (record p { order_book = book; ticker = ticker }))
      × IsSound book

  add_trade-Returns :
      (b : Build) (t : TradeTicker) (price quantity match_number : ℕ) (side : AggressorSide)
      → t.total_volume + quantity < u64_mod
      → Returns (add_trade b t price quantity match_number side)
  unfolding add_trade
  add_trade-Returns b t price quantity match_number side fits = (
    record {
      trades =
          t.trades
          ++ (record {
            price = price;
            quantity = quantity;
            match_number = match_number;
            side = side;
          }
              ∷ []);
      total_volume = t.total_volume + quantity;
      last_sale = price;
    },
    rw (add_word-ok u64_mod b t.total_volume quantity fits) refl,
  )

  execute-Applies :
      (b : Build) (p : SymbolProcessor f st) (id quantity price match_number : ℕ) (side : Side)
      → IsSound p.order_book
      → AtMost quantity (lookup id p.order_book.orders)
      → p.ticker.total_volume + quantity < u64_mod
      → Applies p (execute f st b p id quantity price match_number side)
  unfolding execute
  execute-Applies b p id quantity price match_number side s few fits =
      let (book, cancelled, sound) = cancel-IsSound b p.order_book id quantity s few in
      let (t, traded) =
        add_trade-Returns b p.ticker price quantity match_number (aggressor_against side) fits in
      (book, t, rw (traded, cancelled) refl, sound)

  delete_found-Applies :
      (b : Build) (p : SymbolProcessor f st) (id : ℕ)
      → IsSound p.order_book
      → Applies p (delete_found f st b p id (lookup id p.order_book.orders))
  delete_found-Applies b p id s = elim (Option-cases (lookup id p.order_book.orders)) [
    | inl e ↦ (p.order_book, p.ticker, rw e refl, s)
    | inr (o, e) ↦
        let (book, cancelled, sound) =
          cancel-IsSound b p.order_book id o.quantity s (rw e (ground arith)) in
        (book, p.ticker, rw (e, cancelled) refl, sound)
  ]

  execute_found-Applies :
      (b : Build) (p : SymbolProcessor f st) (id quantity match_number : ℕ) (price : Option ℕ)
      → IsSound p.order_book
      → AtMost quantity (lookup id p.order_book.orders)
      → p.ticker.total_volume + quantity < u64_mod
      → Applies p
          (execute_found f st b p id quantity match_number price (lookup id p.order_book.orders))
  execute_found-Applies b p id quantity match_number price s few fits =
      elim (Option-cases (lookup id p.order_book.orders)) [
        | inl e ↦ (p.order_book, p.ticker, rw e refl, s)
        | inr (o, e) ↦ rw e (at_price o price)
      ]
    where
      at_price :
          (o : Order) (price : Option ℕ)
          → Applies p (execute_found f st b p id quantity match_number price (some o))
      at_price o none = execute-Applies b p id quantity o.price match_number o.side s few fits
      at_price o (some price) = execute-Applies b p id quantity price match_number o.side s few fits

  -- A message that respects the contract of the feed is applied, and the book stays sound.
  pub apply_message-Applies :
      (b : Build) (p : SymbolProcessor f st) (msg : ItchMessage)
      → IsSound p.order_book
      → Respects p msg
      → Applies p (apply_message f st b p msg)
  unfolding apply_message
  apply_message-Applies b p (add_order l id side quantity price) (w, fit) (fresh, more, low, fits) =
      let (book, added, w') =
        add_order-WellFormed b p.order_book id side price quantity w fresh more
          (omega (arith, fits)) in
      (
        book,
        p.ticker,
        rw added refl,
        (w', add_order-PricesFit b p.order_book book fit id side price quantity low fits added),
      )
  apply_message-Applies b p (modify_order l id quantity) s few =
      let (book, cancelled, sound) = cancel-IsSound b p.order_book id quantity s few in
      (book, p.ticker, rw cancelled refl, sound)
  apply_message-Applies b p (trade l price quantity n side) s fits =
      let (t, traded) = add_trade-Returns b p.ticker price quantity n (aggressor_of side) fits in
      (p.order_book, t, rw traded refl, s)
  apply_message-Applies b p (delete_order l id) s h = delete_found-Applies b p id s
  apply_message-Applies b p (order_executed l id quantity n) s (few, fits) =
      execute_found-Applies b p id quantity n none s few fits
  apply_message-Applies b p (order_executed_with_price l id quantity price n) s (few, fits) =
      execute_found-Applies b p id quantity n (some price) s few fits
  apply_message-Applies b p (stock_directory l symbol) s h = (p.order_book, p.ticker, refl, s)
