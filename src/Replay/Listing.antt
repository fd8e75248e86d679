-- ===== src/Replay/Listing.antt =====
-- A directory message for a fresh stock, and the accounts of the replay.
use hft_demo.Prelude.Bytes.{index, index-ok}
use hft_demo.Market.Safety.{HasLimits, location-HasLimits}
use hft_demo.Prelude.Word.{as_i16}
use hft_demo.Replay.Balance.{Accounts}
use hft_demo.Prelude.Text.{Text}
use hft_demo.Replay.Gateway.{ReplayGateway, get_position, replay_gateway}
use hft_demo.Prelude.Int.{ℤ, pos}
use hft_demo.Market.{
  MessageAnalyticsWriter, MarketState, SymbolProcessor, set_entry, position_of, clean,
  handle_stock_directory, new, map_slot,
}
use hft_demo.Strategies.{Strategy}
use hft_demo.Prelude.Float.{FloatOps}
use hft_demo.Prelude.{
  ℕ, some, sym, Build, ◌<◌, ◌^◌, All, ◌≢◌, ◌≡◌, get_elem?, arith, set, ◌⊎◌, get_elem?-set_cases, ap,
  inl, inr, ◌∙◌, ok, Option-cases, bind-ok,
}
use mathlib.Core.Path.{subst}

module _ (f : FloatOps) (st : Strategy) (wr : MessageAnalyticsWriter) (b : Build) where
  -- A stock is listed before it is traded, under a locate that no other has, at a position of the
  -- market's list that an i16 holds.
  pub record Fresh (m : MarketState f st wr) (g : ReplayGateway) (l : ℕ) (symbol : Text)
      : Type 0 where
    pub unused : All (λ q. q.stock_locate ≢ l) m.processors
    pub untraded : get_position g l ≡ pos 0
    pub flat :
        (i : ℕ) (p : SymbolProcessor f st)
        → position_of f st wr (clean symbol) m.processors ≡ some i
        → get_elem? m.processors i ≡ some p
        → (i < 2 ^ 15) × (p.risk_engine.current_position ≡ pos 0)

  entry_of :
      (table : ℕ → ℤ) (l k i j : ℕ)
      → i < 2 ^ 15
      → set_entry table l (as_i16 i) k ≡ pos j
      → i ≢ j
      → table k ≡ pos j
  entry_of table l k i j small e ne = ground arith

  listed_at :
      (m m' : MarketState f st wr) (g : ReplayGateway) (l i : ℕ) (p : SymbolProcessor f st)
      → Accounts f st wr b m g
      → All (λ q. q.stock_locate ≢ l) m.processors
      → get_position g l ≡ pos 0
      → i < 2 ^ 15
      → p.risk_engine.current_position ≡ pos 0
      → get_elem? m.processors i ≡ some p
      → m' ≡ record m {
        processors = set m.processors i (record p { stock_locate = l });
        lookup_table = set_entry m.lookup_table l (as_i16 i);
      }
      → Accounts f st wr b m' g
  listed_at m m' g l i p a unused untraded small flat at e =
      let p' : SymbolProcessor f st = record p { stock_locate = l } in
      let was : (j : ℕ) (q : SymbolProcessor f st)
          → get_elem? m'.processors j ≡ some q
          → ((i ≡ j) × (q ≡ p')) ⊎ ((i ≢ j) × (get_elem? m.processors j ≡ some q)) =
        λ j q eq.
          get_elem?-set_cases m.processors i j p' q
            (subst (λ ps. get_elem? ps j ≡ some q) (ap (λ m. m.processors) e) eq) in
      record {
        limits = λ j q eq. elim (was j q eq) [
          | inl (_, new) ↦
              subst (HasLimits f st wr (replay_gateway b)) (sym new)
                (location-HasLimits f st wr (replay_gateway b) p l (a.limits i p at))
          | inr (_, old) ↦ a.limits j q old
        ];
        agree = λ j q eq. elim (was j q eq) [
          | inl (_, new) ↦ ground (arith, new, untraded, flat)
          | inr (_, old) ↦ a.agree j q old
        ];
        apart = λ k j n q r mapped eq er ne. elim (was j q eq) [
          | inl (here, new) ↦ elim (was n r er) [
            | inl (there, _) ↦ absurd (ne (sym here ∙ there))
            | inr (_, old) ↦ λ same. unused n r old (same ∙ ap (λ p. p.stock_locate) new)
          ]
          | inr (away, old) ↦ elim (was n r er) [
            | inl (_, new) ↦ λ same. unused j q old (sym same ∙ ap (λ p. p.stock_locate) new)
            | inr (_, other) ↦
                a.apart k j n q r
                  (entry_of m.lookup_table l k i j small
                    (sym (ap (λ m. m.lookup_table k) e) ∙ mapped) away)
                  old other ne
          ]
        ];
      }

  pub listed :
      (m m' : MarketState f st wr) (g : ReplayGateway) (l : ℕ) (symbol : Text)
      → Accounts f st wr b m g
      → Fresh m g l symbol
      → handle_stock_directory f st wr m l symbol ≡ ok m'
      → Accounts f st wr b m' g
  unfolding handle_stock_directory
  listed m m' g l symbol a fresh e =
      elim (Option-cases (position_of f st wr (clean symbol) m.processors)) [
        | inl missing ↦
            let same : m ≡ m' = ground (arith, missing, e) in
            subst (λ m. Accounts f st wr b m g) same a
        | inr (i, found) ↦
            let mapped : map_slot f st wr m l (some i) ≡ ok m' =
              ap (map_slot f st wr m l) (sym found) ∙ e in
            let (p, read, e') = bind-ok (index m.processors i) _ mapped in
            let at = index-ok m.processors i p read in
            let (small, flat) = fresh.flat i p found at in
            listed_at m m' g l i p a fresh.unused fresh.untraded small flat at (ground (arith, e'))
      ]
