-- ===== src/Replay/Balance.antt =====
-- The steps of the market, between the engines' positions and the exchange's.
use hft_demo.Market.Orders.{handle_event-Sends}
use hft_demo.Prelude.Bytes.{index, index-ok}
use hft_demo.Common.{ExecutionReport}
use hft_demo.Itch.{ItchMessage}
use hft_demo.Prelude.Int.{pos, ℤ, negsuc}
use hft_demo.Replay.Accounts.{Agrees, event-Agrees}
use hft_demo.Market.Safety.{HasLimits, fill-HasLimits, event-HasLimits}
use hft_demo.Replay.Gateway.{ReplayGateway, replay_gateway, get_position}
use hft_demo.Market.{
  MessageAnalyticsWriter, MarketState, SymbolProcessor, deliver, confirm, confirm_at, processor_at,
  report_fill, handle_event, poll_confirmed_orders,
}
use hft_demo.Strategies.{Strategy}
use hft_demo.Prelude.Float.{FloatOps}
use hft_demo.Prelude.{
  ℕ, some, [], refl, sym, Build, All, get_elem?, ◌≡◌, set, ◌≢◌, All-set, ◌⊎◌, inl, ◌∙◌, ap, inr,
  get_elem?-set_cases, List, ok, bind-ok, arith, Outcome-cases, zero, suc, ◌∷◌, List-cases, ◌>>=◌,
}
use mathlib.Core.Path.{subst}

module _ (f : FloatOps) (st : Strategy) (wr : MessageAnalyticsWriter) (b : Build) where
  -- Every engine has its limits and the exchange's position, and the stock of a mapped processor is no
  -- other processor's.
  pub record Accounts (m : MarketState f st wr) (g : ReplayGateway) : Type 0 where
    pub limits : All (HasLimits f st wr (replay_gateway b)) m.processors
    pub agree : All (Agrees f st wr b g) m.processors
    pub apart :
        (l i j : ℕ) (p q : SymbolProcessor f st)
        → m.lookup_table l ≡ pos i
        → get_elem? m.processors i ≡ some p
        → get_elem? m.processors j ≡ some q
        → i ≢ j
        → q.stock_locate ≢ p.stock_locate

  -- Another processor in place of the one at `i`, of the same stock.
  Accounts-set :
      (m m' : MarketState f st wr) (g g' : ReplayGateway) (i : ℕ) (p p' : SymbolProcessor f st)
      → Accounts m g
      → get_elem? m.processors i ≡ some p
      → m'.processors ≡ set m.processors i p'
      → m'.lookup_table ≡ m.lookup_table
      → p'.stock_locate ≡ p.stock_locate
      → HasLimits f st wr (replay_gateway b) p'
      → Agrees f st wr b g' p'
      → ((j : ℕ) (q : SymbolProcessor f st)
          → get_elem? m.processors j ≡ some q
          → i ≢ j
          → get_position g' q.stock_locate ≡ get_position g q.stock_locate)
      → Accounts m' g'
  Accounts-set m m' g g' i p p' a at stored table here limits agrees others =
      let was : (j : ℕ) (q : SymbolProcessor f st)
          → get_elem? m'.processors j ≡ some q
          → ((i ≡ j) × (q ≡ p')) ⊎ ((i ≢ j) × (get_elem? m.processors j ≡ some q)) =
        λ j q e.
          get_elem?-set_cases m.processors i j p' q
            (subst (λ ps. get_elem? ps j ≡ some q) stored e) in
      record {
        limits = subst (All _) (sym stored) (All-set m.processors i p' a.limits limits);
        agree = λ j q e. elim (was j q e) [
          | inl (_, new) ↦ subst (Agrees f st wr b g') (sym new) agrees
          | inr (other, old) ↦ others j q old other ∙ a.agree j q old
        ];
        apart = λ l j k q r mapped eq er ne.
            let (q0, eq0, sq) = old_locate j q (was j q eq) in
            let (r0, er0, sr) = old_locate k r (was k r er) in
            λ same.
              a.apart l j k q0 r0 (sym (ap (λ t. t l) table) ∙ mapped) eq0 er0 ne
                (sr ∙ (same ∙ sym sq));
      }
    where
      old_locate :
          (j : ℕ) (q : SymbolProcessor f st)
          → ((i ≡ j) × (q ≡ p')) ⊎ ((i ≢ j) × (get_elem? m.processors j ≡ some q))
          → (q0 : SymbolProcessor f st) × (get_elem? m.processors j ≡ some q0)
            × (q0.stock_locate ≡ q.stock_locate)
      old_locate j q (inl (there, new)) = (
        p,
        subst (λ j. get_elem? m.processors j ≡ some p) there at,
        sym here ∙ ap (λ p. p.stock_locate) (sym new),
      )
      old_locate j q (inr (other, old)) = (q, old, refl)

  -- The processor that a table's entry points to.
  found_at :
      (ps : List (SymbolProcessor f st)) (slot : ℤ) (i : ℕ) (p : SymbolProcessor f st)
      → processor_at f st wr ps slot ≡ ok (i, p)
      → (slot ≡ pos i) × (get_elem? ps i ≡ some p)
  found_at ps (pos n) i p e =
      let (q, at, e') = bind-ok (index ps n) _ e in
      let there : n ≡ i = ground arith in
      let same : q ≡ p = ground arith in
      (ap pos there, subst (λ k. get_elem? ps k ≡ some p) there (index-ok ps n p (at ∙ ap ok same)))
  found_at ps (negsuc n) i p e = absurd cc

  pub deliver-Accounts :
      (m m' : MarketState f st wr) (g g' : ReplayGateway) (l : ℕ) (msg : ItchMessage)
      → Accounts m g
      → deliver f st wr (replay_gateway b) b (m, g) (m.lookup_table l) msg ≡ ok (m', g')
      → Accounts m' g'
  unfolding deliver
  deliver-Accounts m m' g g' l msg a e =
      let ((i, p), found, e1) =
        bind-ok (processor_at f st wr m.processors (m.lookup_table l)) _ e in
      let ((p', w), handled, e2) =
        bind-ok (handle_event f st (replay_gateway b) wr b _ msg m.current_time_ns) _ e1 in
      let (mapped, at) = found_at m.processors (m.lookup_table l) i p found in
      let limits = a.limits i p at in
      let (agrees, others) =
        event-Agrees f st wr b p p' _ w msg m.current_time_ns handled limits (a.agree i p at) in
      let (_, follows) =
        handle_event-Sends f st (replay_gateway b) wr b p p' _ w msg m.current_time_ns handled in
      let same : w.gateway ≡ g' = ground (arith, e2) in
      Accounts-set m m' g g' i p p' a at (ground (arith, e2)) (ground (arith, e2))
        follows.same_locate
        (event-HasLimits f st wr (replay_gateway b) b p p' _ w msg m.current_time_ns handled limits)
        (subst (λ g. Agrees f st wr b g p') same agrees)
        (λ j q eq ne.
          subst (λ g'. get_position g' q.stock_locate ≡ get_position g q.stock_locate) same
            (others q.stock_locate (a.apart l i j p q mapped at eq ne)))

  confirm-Accounts :
      (m m' : MarketState f st wr) (g : ReplayGateway) (report : ExecutionReport)
      → Accounts m g
      → confirm f st wr b m report ≡ ok m'
      → Accounts m' g
  unfolding confirm confirm_at
  confirm-Accounts m m' g report a e =
      elim (Outcome-cases
        (processor_at f st wr m.processors (m.lookup_table report.stock_locate))) [
          | inl stops ↦
              let same : m ≡ m' = ground (arith, stops) in subst (λ m. Accounts m g) same a
          | inr ((i, p), found) ↦
              let (mapped, at) =
                found_at m.processors (m.lookup_table report.stock_locate) i p found in
              elim (Outcome-cases (report_fill f st wr b p report)) [
                | inl stops ↦
                    let same : m ≡ m' = ground (arith, found, stops) in
                    subst (λ m. Accounts m g) same a
                | inr (p', fill) ↦
                    let same : (m ≡ m') ⊎ (m' ≡ record m { processors = set m.processors i p' }) =
                      ground (arith, found, fill) in
                    elim same [
                      | inl s ↦ subst (λ m. Accounts m g) s a
                      | inr s ↦
                          let kept = filled_kept p p' report fill in
                          Accounts-set m m' g g i p p' a at (ap (λ m. m.processors) s)
                            (ap (λ m. m.lookup_table) s) kept.0
                            (fill-HasLimits f st wr (replay_gateway b) b p p' report fill
                              (a.limits i p at))
                            (ground (arith, kept, a.agree i p at)) (λ j q eq ne. refl)
                    ]
              ]
        ]
    where
      filled_kept :
          (p p' : SymbolProcessor f st) (report : ExecutionReport)
          → report_fill f st wr b p report ≡ ok p'
          → (p'.stock_locate ≡ p.stock_locate) × (p'.risk_engine ≡ p.risk_engine)
      filled_kept p p' report e = unfold report_fill in ground arith

  -- A turn of the polling loop against the replay's exchange.
  pub poll-empty :
      (fuel : ℕ) (m : MarketState f st wr) (g : ReplayGateway)
      → g.pending_fills ≡ []
      → poll_confirmed_orders f st wr (replay_gateway b) b (suc fuel) (m, g) ≡ ok (some (m, g))
  unfolding poll_confirmed_orders
  poll-empty fuel m g e = rw e

  pub poll-next :
      (fuel : ℕ) (m : MarketState f st wr) (g : ReplayGateway) (report : ExecutionReport)
      (reports : List ExecutionReport)
      → g.pending_fills ≡ report ∷ reports
      → poll_confirmed_orders f st wr (replay_gateway b) b (suc fuel) (m, g) ≡ (
          confirm f st wr b m report >>= λ m'.
          poll_confirmed_orders f st wr
            (replay_gateway b)
            b
            fuel
            (m', record g { pending_fills = reports }))
  unfolding poll_confirmed_orders
  poll-next fuel m g report reports e = rw e

  pub poll-Accounts :
      (fuel : ℕ) (m m' : MarketState f st wr) (g g' : ReplayGateway)
      → Accounts m g
      → poll_confirmed_orders f st wr (replay_gateway b) b fuel (m, g) ≡ ok (some (m', g'))
      → Accounts m' g' × (g'.pending_fills ≡ [])
  poll-Accounts zero m m' g g' a e = absurd (unfold poll_confirmed_orders in ground arith)
  poll-Accounts (suc fuel) m m' g g' a e = elim (List-cases g.pending_fills) [
    | inl done ↦
        let same : (m ≡ m') × (g ≡ g') = ground (arith, poll-empty fuel m g done, e) in
        (
          subst (λ m. Accounts m g') same.0 (subst (λ g. Accounts m g) same.1 a),
          ground (arith, same, done),
        )
    | inr (report, reports, left) ↦
        let g1 : ReplayGateway = record g { pending_fills = reports } in
        let (m1, confirmed, e1) =
          bind-ok (confirm f st wr b m report) _
            (sym (poll-next fuel m g report reports left) ∙ e) in
        let a1 : Accounts m1 g = confirm-Accounts m m1 g report a confirmed in
        poll-Accounts fuel m1 m' g1 g'
          (record { limits = a1.limits; agree = a1.agree; apart = a1.apart }) e1
  ]
