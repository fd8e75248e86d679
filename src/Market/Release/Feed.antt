-- ===== src/Market/Release/Feed.antt =====
-- The way of a message to its processor, in a release build.
use hft_demo.Prelude.Word.{as_i16}
use hft_demo.Prelude.Text.{Text}
use hft_demo.Prelude.Bytes.{index-there, index}
use hft_demo.Market.{
  ExchangeGateway, timestamp, MessageAnalyticsWriter, MarketState, is_ignored, SymbolProcessor,
  processor_at, filter_message_for_symbols, Running, deliver, handle_stock_directory, position_of,
  dispatch, map_slot, set_entry, get_locate_from_msg, clean,
}
use hft_demo.Strategies.{Strategy}
use hft_demo.Prelude.Int.{ℤ, pos, negsuc}
use hft_demo.Prelude.Float.{FloatOps}
use hft_demo.Prelude.{
  ℕ, List, ◌≤◌, length, Returns, ◌<◌, Outcome-cases, arith, ◌^◌, ◌≡◌, false, set, inl, inr, ap,
  get_elem?-cases, ◌∙◌, length-set, refl, bind-Returns_both, suc, Option, Gives, ◌+◌, some, ◌∷◌,
  release, bind-Gives, Option-cases, bind-Returns, Bool-cases, ◌==◌, none, [],
}
use hft_demo.Market.Release.Event.{Outside, handle_event-Gives}
use hft_demo.Itch.Bounds.{needed, parse_itch_message-panic_iff}
use hft_demo.Itch.{
  ItchMessage, add_order, modify_order, trade, delete_order, order_executed,
  order_executed_with_price, stock_directory, parse_itch_message,
}

-- An entry of the table over `count` processors: one of them, or ignored.
abbrev pub Points : ℕ → ℤ → Type 0
Points count (pos i) = i < count
Points count (negsuc n) = n ≡ 0

-- A packet that has its timestamp and all that the parser reads.
abbrev pub IsWhole : List ℕ → Type 0
IsWhole raw_data = (11 ≤ length raw_data) × (needed raw_data ≤ length raw_data)

index-Returns : {A : Type 0} (xs : List A) (i : ℕ) → i < length xs → Returns (index xs i)
index-Returns xs i h = elim (get_elem?-cases xs i) [
  | inl past ↦ absurd (omega (arith, h, past))
  | inr (x, at) ↦ (x, index-there xs i x at)
]

pub timestamp-Returns : (raw_data : List ℕ) → 11 ≤ length raw_data → Returns (timestamp raw_data)
unfolding timestamp
timestamp-Returns raw_data h =
    let byte : (i : ℕ) → i < 11 → Returns (index raw_data i) =
      λ i low. index-Returns raw_data i (omega (arith, h, low)) in
    bind-Returns_both _ _ (byte 5 (omega arith)) (λ b5.
      bind-Returns_both _ _ (byte 6 (omega arith)) (λ b6.
        bind-Returns_both _ _ (byte 7 (omega arith)) (λ b7.
          bind-Returns_both _ _ (byte 8 (omega arith)) (λ b8.
            bind-Returns_both _ _ (byte 9 (omega arith))
              (λ b9. bind-Returns_both _ _ (byte 10 (omega arith)) (λ b10. (_, refl)))))))

pub parse-Returns :
    (raw_data : List ℕ) → needed raw_data ≤ length raw_data → Returns (parse_itch_message raw_data)
parse-Returns raw_data h = elim (Outcome-cases (parse_itch_message raw_data)) [
  | inl stops ↦ absurd (omega (arith, h, (parse_itch_message-panic_iff raw_data).0 stops))
  | inr read ↦ read
]

module _ (f : FloatOps) (st : Strategy) (gw : ExchangeGateway) (wr : MessageAnalyticsWriter)
    (o : Outside st gw wr) where
  -- The table points into the processors, of which there are no more than an i16 counts.
  pub record IsRouted (m : MarketState f st wr) : Type 0 where
    pub few : length m.processors ≤ 2 ^ 15
    pub points : (l : ℕ) → Points (length m.processors) (m.lookup_table l)

  pub replaced-IsRouted :
      (m m' : MarketState f st wr) (i : ℕ) (p : SymbolProcessor f st)
      → IsRouted m
      → m'.processors ≡ set m.processors i p
      → m'.lookup_table ≡ m.lookup_table
      → IsRouted m'
  replaced-IsRouted m m' i p r ps table =
      let same : length m'.processors ≡ length m.processors =
        ap length ps ∙ length-set m.processors i p in
      record { few = rw same r.few; points = λ l. rw (same, table) (r.points l) }

  pub processor-Returns :
      (m : MarketState f st wr) (slot : ℤ)
      → Points (length m.processors) slot
      → is_ignored slot ≡ false
      → Returns (processor_at f st wr m.processors slot)
  processor-Returns m (pos i) there h = elim (get_elem?-cases m.processors i) [
    | inl past ↦ absurd (omega (arith, there, past))
    | inr (p, at) ↦ ((i, p), rw (index-there m.processors i p at) refl)
  ]
  processor-Returns m (negsuc n) there h = absurd (ground (arith, there))

  -- What feeding a message leaves: a market that is routed, room for one record fewer, and at most
  -- one fill more to poll.
  abbrev pub Fed : ℕ → gw.State → Running f st wr gw → Type 0
  Fed n g r = IsRouted r.0 × o.Room n r.0.telemetry_writer × (o.waiting r.1 ≤ o.waiting g + 1)

  deliver-Gives :
      (n : ℕ) (m : MarketState f st wr) (g : gw.State) (slot : ℤ) (msg : ItchMessage)
      → IsRouted m
      → Points (length m.processors) slot
      → is_ignored slot ≡ false
      → o.Room (suc n) m.telemetry_writer
      → Gives (Fed n g) (deliver f st wr gw release (m, g) slot msg)
  unfolding deliver
  deliver-Gives n m g slot msg r there h room =
      bind-Returns _ _ (processor-Returns m slot there h) (λ (i, p).
        bind-Gives _ _ (handle_event-Gives f st gw wr o n p _ msg m.current_time_ns room)
          (λ s left. (_, refl, (replaced-IsRouted m _ i s.0 r refl refl, left.0, left.1))))

  dispatch-Gives :
      (n : ℕ) (m : MarketState f st wr) (g : gw.State) (msg : ItchMessage)
      → IsRouted m
      → o.Room (suc n) m.telemetry_writer
      → Gives (Fed n g) (dispatch f st wr gw release (m, g) msg)
  dispatch-Gives n m g msg r room =
      let slot : ℤ = m.lookup_table (get_locate_from_msg msg) in
      elim (Bool-cases (is_ignored slot)) [
        | inl ignored ↦
            rw ignored ((m, g), refl, (r, o.less_room n m.telemetry_writer room, omega arith))
        | inr ours ↦ rw ours (deliver-Gives n m g slot msg r (r.points _) ours room)
      ]

  position_of-lt :
      (name : Text) (ps : List (SymbolProcessor f st)) (i : ℕ)
      → position_of f st wr name ps ≡ some i
      → i < length ps
  position_of-lt name [] i e = absurd (ground arith)
  position_of-lt name (p ∷ ps) i e = elim (Option-cases (position_of f st wr name ps)) [
    | inl nowhere ↦ ground (arith, nowhere)
    | inr (j, found) ↦ ground (arith, found, position_of-lt name ps j found)
  ]

  -- A change of the market that keeps the sink.
  abbrev pub Kept : MarketState f st wr → MarketState f st wr → Type 0
  Kept m m' = IsRouted m' × (m'.telemetry_writer ≡ m.telemetry_writer)

  map_slot-Gives :
      (m : MarketState f st wr) (l : ℕ) (found : Option ℕ)
      → IsRouted m
      → ((i : ℕ) → found ≡ some i → i < length m.processors)
      → Gives (Kept m) (map_slot f st wr m l found)
  map_slot-Gives m l none r low = (m, refl, (r, refl))
  map_slot-Gives m l (some i) r low =
      let small : i < length m.processors = low i refl in
      bind-Returns _ _ (index-Returns m.processors i small) (λ p.
        let p' : SymbolProcessor f st = record p { stock_locate = l } in
        let same = length-set m.processors i p' in
        (_, refl, (record { few = rw same r.few; points = λ k. rw same (entry k small) }, refl)))
    where
      entry :
          (k : ℕ)
          → i < length m.processors
          → Points (length m.processors) (set_entry m.lookup_table l (as_i16 i) k)
      entry k small =
          let signed : as_i16 i ≡ pos i = ground (arith, small, r.few) in
          rw signed (elim (Bool-cases (k == l)) [
            | inl own ↦ rw own small
            | inr other ↦ rw other (r.points k)
          ])

  pub filter-Gives :
      (n : ℕ) (m : MarketState f st wr) (g : gw.State) (msg : ItchMessage)
      → IsRouted m
      → o.Room (suc n) m.telemetry_writer
      → Gives (Fed n g) (filter_message_for_symbols f st wr gw release (m, g) msg)
  unfolding filter_message_for_symbols handle_stock_directory
  filter-Gives n m g (stock_directory l symbol) r room =
      bind-Gives _ _ (map_slot-Gives m l _ r (position_of-lt (clean symbol) m.processors))
        (λ m' kept.
          ((m', g), refl, (kept.0, rw kept.1 (o.less_room n m.telemetry_writer room), omega arith)))
  filter-Gives n m g (add_order l i s q c) r room =
      dispatch-Gives n m g (add_order l i s q c) r room
  filter-Gives n m g (modify_order l i q) r room = dispatch-Gives n m g (modify_order l i q) r room
  filter-Gives n m g (trade l c q k s) r room = dispatch-Gives n m g (trade l c q k s) r room
  filter-Gives n m g (delete_order l i) r room = dispatch-Gives n m g (delete_order l i) r room
  filter-Gives n m g (order_executed l i q k) r room =
      dispatch-Gives n m g (order_executed l i q k) r room
  filter-Gives n m g (order_executed_with_price l i q c k) r room =
      dispatch-Gives n m g (order_executed_with_price l i q c k) r room
