-- ===== src/Market/Routing.antt =====
-- Which processor a message reaches, and how the directory messages set that up.
use mathlib.Core.Path.{subst}
use hft_demo.Prelude.Bytes.{index-there, index}
use mathlib.Core.Option.{some-injective}
use hft_demo.Prelude.Word.{as_i16}
use hft_demo.Prelude.Int.{pos, ℤ, negsuc}
use hft_demo.Prelude.Text.{Text, text_eq_refl, text_eq, text_eq→eq}
use hft_demo.Market.{
  MessageAnalyticsWriter, MarketState, handle_stock_directory, SymbolProcessor, clean, position_of,
  set_entry, ExchangeGateway, filter_message_for_symbols, deliver, dispatch, get_locate_from_msg,
  is_ignored, processor_at, handle_event,
}
use hft_demo.Strategies.{Strategy}
use hft_demo.Prelude.Float.{FloatOps}
use hft_demo.Itch.{
  ItchMessage, stock_directory, add_order, modify_order, trade, delete_order, order_executed,
  order_executed_with_price,
}
use hft_demo.Prelude.{
  ℕ, Bool, List, true, ◌≡◌, false, get_elem?, some, ◌<◌, ◌≢◌, ◌^◌, ok, ◌∷◌, set, ap, arith,
  get_elem?-set_self, get_elem?-set_ne, sym, get_elem?-lt, Build, bind-ok, refl, Outcome-cases, ◌∙◌,
  Bool-cases, inl, suc, inr, [], zero,
}

abbrev pub is_directory : ItchMessage → Bool
is_directory (stock_directory _ _) = true
is_directory (add_order _ _ _ _ _) = false
is_directory (modify_order _ _ _) = false
is_directory (trade _ _ _ _ _) = false
is_directory (delete_order _ _) = false
is_directory (order_executed _ _ _ _) = false
is_directory (order_executed_with_price _ _ _ _ _) = false

module _ (f : FloatOps) (st : Strategy) (wr : MessageAnalyticsWriter) where
  position_of-first :
      (ps : List (SymbolProcessor f st)) (name : Text) (i : ℕ) (p : SymbolProcessor f st)
      → get_elem? ps i ≡ some p
      → p.symbol ≡ name
      → ((j : ℕ) (q : SymbolProcessor f st) → j < i → get_elem? ps j ≡ some q → q.symbol ≢ name)
      → position_of f st wr name ps ≡ some i
  position_of-first [] name i p at named first = absurd cc
  position_of-first (q ∷ ps) name zero p at named first =
      let same : q.symbol ≡ name = ap (λ p. p.symbol) (some-injective q p at) ∙ named in
      rw (same, text_eq_refl name)
  position_of-first (q ∷ ps) name (suc i) p at named first =
      let rest = position_of-first ps name i p at named (λ j q h. first (suc j) q (omega arith)) in
      let other : q.symbol ≢ name = first 0 q (omega arith) refl in
      elim (Bool-cases (text_eq q.symbol name)) [
        | inl e ↦ absurd (other (text_eq→eq q.symbol name e))
        | inr e ↦ rw (e, rest)
      ]

  -- What a directory message changes: the locate's entry in the table, and the locate of the
  -- processor. The counter, the sink and the clock are as they were.
  pub record Mapped (m m' : MarketState f st wr) (l i : ℕ) (p : SymbolProcessor f st) : Type 0 where
    pub entry : m'.lookup_table l ≡ pos i
    pub other_entries : (k : ℕ) → k ≢ l → m'.lookup_table k ≡ m.lookup_table k
    pub located : get_elem? m'.processors i ≡ some (record p { stock_locate = l })
    pub same_rest : m' ≡ record m { processors = m'.processors; lookup_table = m'.lookup_table }
    pub other_processors : (j : ℕ) → j ≢ i → get_elem? m'.processors j ≡ get_elem? m.processors j

  -- A directory message for a symbol, padded or not, whose first processor stands at a position that an
  -- i16 holds maps the locate to that processor and gives it the locate; the other processors, the other
  -- entries of the table and the rest of the market's state stay as they are.
  pub handle_stock_directory-Mapped :
      (m : MarketState f st wr) (l i : ℕ) (symbol : Text) (p : SymbolProcessor f st)
      → get_elem? m.processors i ≡ some p
      → p.symbol ≡ clean symbol
      → ((j : ℕ) (q : SymbolProcessor f st)
          → j < i
          → get_elem? m.processors j ≡ some q
          → q.symbol ≢ clean symbol)
      → i < 2 ^ 15
      → (m' : MarketState f st wr) × (handle_stock_directory f st wr m l symbol ≡ ok m')
        × Mapped m m' l i p
  unfolding handle_stock_directory
  handle_stock_directory-Mapped m l i symbol p at named first small =
      let found = position_of-first m.processors (clean symbol) i p at named first in
      (
        record m {
          processors = set m.processors i (record p { stock_locate = l });
          lookup_table = set_entry m.lookup_table l (as_i16 i);
        },
        rw (found, index-there m.processors i p at),
        record {
          entry = ground arith;
          other_entries = λ k h. ground arith;
          located = get_elem?-set_self m.processors i _ (get_elem?-lt m.processors i p at);
          same_rest = refl;
          other_processors = λ j h. get_elem?-set_ne m.processors _ (λ e. h (sym e));
        },
      )

module _ (f : FloatOps) (st : Strategy) (wr : MessageAnalyticsWriter) (gw : ExchangeGateway) where
  -- What an event leaves alone in the market: the table, the clock, and the processors at the other
  -- positions.
  pub record Isolated (m m' : MarketState f st wr) (slot : ℤ) : Type 0 where
    pub same_table : m'.lookup_table ≡ m.lookup_table
    pub same_clock : m'.current_time_ns ≡ m.current_time_ns
    pub others : (j : ℕ) → slot ≢ pos j → get_elem? m'.processors j ≡ get_elem? m.processors j

  pub processor_at-slot :
      (ps : List (SymbolProcessor f st)) (slot : ℤ) (i : ℕ) (p : SymbolProcessor f st)
      → processor_at f st wr ps slot ≡ ok (i, p)
      → slot ≡ pos i
  processor_at-slot ps (pos n) i p e = let found = Outcome-cases (index ps n) in ground arith
  processor_at-slot ps (negsuc n) i p e = absurd cc

  pub filter-dispatch :
      (b : Build) (m : MarketState f st wr) (g : gw.State) (msg : ItchMessage)
      → is_directory msg ≡ false
      → filter_message_for_symbols f st wr gw b (m, g) msg ≡ dispatch f st wr gw b (m, g) msg
  unfolding filter_message_for_symbols
  filter-dispatch b m g (stock_directory l s) h = absurd cc
  filter-dispatch b m g (add_order l i s q c) h = refl
  filter-dispatch b m g (modify_order l i q) h = refl
  filter-dispatch b m g (trade l c q n s) h = refl
  filter-dispatch b m g (delete_order l i) h = refl
  filter-dispatch b m g (order_executed l i q n) h = refl
  filter-dispatch b m g (order_executed_with_price l i q c n) h = refl

  deliver-Isolated :
      (b : Build) (m m' : MarketState f st wr) (g g' : gw.State) (slot : ℤ) (msg : ItchMessage)
      → deliver f st wr gw b (m, g) slot msg ≡ ok (m', g')
      → Isolated m m' slot
  unfolding deliver
  deliver-Isolated b m m' g g' slot msg e =
      let ((i, p), at, e1) = bind-ok (processor_at f st wr m.processors slot) _ e in
      let ((p', w), handled, e2) =
        bind-ok (handle_event f st gw wr b _ msg m.current_time_ns) _ e1 in
      record {
        same_table = ground arith;
        same_clock = ground arith;
        others = λ j h.
            let stored : m'.processors ≡ set m.processors i p' = ground arith in
            let away : i ≢ j = λ e. h (processor_at-slot m.processors slot i p at ∙ ap pos e) in
            rw stored (get_elem?-set_ne m.processors p' away);
      }

  -- A message that is not a directory's leaves every processor but the one that its locate is mapped
  -- to as it was, and so the table and the clock.
  pub filter_message-Isolated :
      (b : Build) (m m' : MarketState f st wr) (g g' : gw.State) (msg : ItchMessage)
      → is_directory msg ≡ false
      → filter_message_for_symbols f st wr gw b (m, g) msg ≡ ok (m', g')
      → Isolated m m' (m.lookup_table (get_locate_from_msg msg))
  filter_message-Isolated b m m' g g' msg h e =
      let slot : ℤ = m.lookup_table (get_locate_from_msg msg) in
      let e' : dispatch f st wr gw b (m, g) msg ≡ ok (m', g') =
        sym (filter-dispatch b m g msg h) ∙ e in
      elim (Bool-cases (is_ignored slot)) [
        | inl unmapped ↦
            let same : m ≡ m' = ground (arith, e', unmapped) in
            subst (λ m'. Isolated m m' slot) same
              (record { same_table = refl; same_clock = refl; others = λ j h. refl })
        | inr mapped ↦
            let e2 : deliver f st wr gw b (m, g) slot msg ≡ ok (m', g') =
              ground (arith, e', mapped) in
            deliver-Isolated b m m' g g' slot msg e2
      ]

  -- A message of a locate that is not mapped changes nothing, in the market and at the exchange.
  filter_message-ignored :
      (b : Build) (m : MarketState f st wr) (g : gw.State) (msg : ItchMessage)
      → is_directory msg ≡ false
      → m.lookup_table (get_locate_from_msg msg) ≡ negsuc 0
      → filter_message_for_symbols f st wr gw b (m, g) msg ≡ ok (m, g)
  filter_message-ignored b m g msg h e = filter-dispatch b m g msg h ∙ rw e refl
