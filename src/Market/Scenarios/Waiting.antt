-- ===== src/Market/Scenarios/Waiting.antt =====
-- `test_end_to_end`, which the repository does not run as a test, with its wait on fuel.
use hft_demo.Prelude.Float.{fractions}
use hft_demo.Prelude.Text.{text}
use hft_demo.Prelude.{
  Build, ℕ, Outcome, ◌≡◌, Option, ◌>>=◌, List, ok, none, ◌+◌, ◌∷◌, some, bind-ok, [], suc, arith,
  zero, refl,
}
use hft_demo.Market.Scenarios.Setup.{
  Run, Processor, no_orders, message, setup_test_market, mock_gateway, mock_analytics, strategy,
}
use hft_demo.Market.{poll_confirmed_orders}
use hft_demo.Prelude.Bytes.{index}

-- The `while` loop, on fuel: none when it runs out.
wait : Build → ℕ → Run → Outcome (Option Run)
wait b zero r = ok none
wait b (suc fuel) r = do
  p ← index r.0.processors 0
  elim p.order_tracker [
    | [] ↦ ok (some r)
    | _ ∷ _ ↦ do
      polled ← poll_confirmed_orders fractions strategy mock_analytics mock_gateway b 1 r
      elim polled [ none ↦ ok none | some r' ↦ wait b fuel r' ]
  ]

-- The two messages of a turn.
send_both : Build → (i : ℕ) → Run → Outcome Run
unfolding message
send_both b i r = do
  r' ← message b r b'A' 10 (100 + i) 100 (15000 + i) 0 b'S' (text "AAPL")
  message b r' b'A' 10 (1000 + i) 10000 (14990 + i) 0 b'B' (text "AAPL")

-- `n` turns, from the `i`-th on.
turns : Build → (fuel n i : ℕ) → Run → Outcome (Option Run)
turns b fuel zero i r = ok (some r)
turns b fuel (suc n) i r = do
  r' ← send_both b i r
  waited ← wait b fuel r'
  elim waited [ none ↦ ok none | some r2 ↦ turns b fuel n (i + 1) r2 ]

test_end_to_end : Build → (fuel : ℕ) → Outcome (Option Run)
test_end_to_end b fuel = do
  market ← setup_test_market b (text "AAPL") 10
  turns b fuel 15 0 (market, no_orders)

-- A wait for a tracked order takes up all the fuel, however much it is.
wait-stays :
    (b : Build) (fuel : ℕ) (r : Run) (p : Processor) (id : ℕ) (ids : List ℕ)
    → index r.0.processors 0 ≡ ok p
    → p.order_tracker ≡ id ∷ ids
    → wait b fuel r ≡ ok none
unfolding wait poll_confirmed_orders
wait-stays b zero r p id ids at tracked = refl
wait-stays b (suc fuel) r p id ids at tracked =
    rw (at, tracked) (wait-stays b fuel r p id ids at tracked)

-- The market after the first turn, before its wait, and what its processor tracks.
first_sent : Build → Outcome Run
first_sent b = do market ← setup_test_market b (text "AAPL") 10; send_both b 0 (market, no_orders)

tracked_by : Run → Outcome (List ℕ)
unfolding index
tracked_by r = do p ← index r.0.processors 0; ok p.order_tracker

first_sent-tracked : (b : Build) → (first_sent b >>= tracked_by) ≡ ok (0 ∷ [])
unfolding first_sent tracked_by setup_test_market send_both
first_sent-tracked b = refl

first_sent-waits :
    (b : Build) (fuel : ℕ) (r : Run) → tracked_by r ≡ ok (0 ∷ []) → wait b fuel r ≡ ok none
unfolding tracked_by
first_sent-waits b fuel r e =
    let (p, at, e') = bind-ok (index r.0.processors 0) (λ p. ok p.order_tracker) e in
    wait-stays b fuel r p 0 [] at (ground (arith, e'))

-- The test does not end, whatever the fuel, in both builds.
test_end_to_end-stays : (b : Build) (fuel : ℕ) → test_end_to_end b fuel ≡ ok none
unfolding test_end_to_end turns first_sent
test_end_to_end-stays b fuel =
    let (r, sent, e) = bind-ok (first_sent b) tracked_by (first_sent-tracked b) in
    let (market, made, sent') =
      bind-ok (setup_test_market b (text "AAPL") 10) (λ market. send_both b 0 (market, no_orders))
        sent in
    rw (made, sent', first_sent-waits b fuel r e) refl
