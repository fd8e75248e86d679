-- ===== src/Live/Polling.antt =====
-- The reports of the exchange's process, and the polls of the engine.
use hft_demo.Strategies.{Strategy}
use hft_demo.Common.{ExecutionReport}
use hft_demo.Prelude.Float.{FloatOps}
use hft_demo.Market.{confirm, poll_confirmed_orders, MarketState, MessageAnalyticsWriter}
use hft_demo.Live.Gateway.{ShmGateway, poll_reports, live_gateway, report_of}
use hft_demo.Live.Layout.{report_bytes, ReportFits, report_of-report_bytes}
use hft_demo.Ring.Served.{Serves, read-served, read-ahead, read-behind}
use hft_demo.Prelude.Word.{u64_mod, add_word-ok}
use hft_demo.Prelude.Mask.{pow2}
use hft_demo.Prelude.{
  zero, suc, none, some, [], ◌∷◌, refl, ap, ◌∙◌, ◌≡◌, ℕ, List, Build, length, get_elem?, All, drop,
  ◌≤◌, panic, ok, ◌↔◌, arith, Outcome, ◌+◌, ◌<◌, get_elem?-lt, ◌>>=◌, ◌⊎◌, get_elem?-cases,
  Bool-cases, inl, leb, inr, Outcome-cases, drop-past, drop-next,
}

-- The ring of the reports, seen from the gateway: 2^k slots, which hold what is not a lap behind.
pub record Inbound (k : ℕ) (g : ShmGateway) (sent : List ExecutionReport) : Type 0 where
  pub slots : g.inbound_shm.capacity ≡ pow2 k
  pub serves : Serves report_bytes k g.inbound_shm.mmap sent
  pub fit : All ReportFits sent
  pub countable : length sent < u64_mod

poll_reports-next :
    (b : Build) (k : ℕ) (g : ShmGateway) (sent : List ExecutionReport) (report : ExecutionReport)
    → Inbound k g sent
    → length sent ≤ g.next_seq + pow2 k
    → get_elem? sent g.next_seq ≡ some report
    → poll_reports b g ≡ ok (record g { next_seq = g.next_seq + 1 }, some report)
unfolding poll_reports
poll_reports-next b k g sent report h near at =
    let (s, rest, got, holds) =
      read-served report_bytes b k g.next_seq g.inbound_shm sent report h.slots h.serves near at in
    let same : report_of s.bytes ≡ report =
      ap report_of holds ∙ report_of-report_bytes report rest (h.fit g.next_seq report at) in
    let within = get_elem?-lt sent g.next_seq report at in
    rw (got, add_word-ok u64_mod b g.next_seq 1 (omega (arith, within, h.countable)), same) refl

poll_reports-done :
    (b : Build) (k : ℕ) (g : ShmGateway) (sent : List ExecutionReport)
    → Inbound k g sent
    → length sent ≤ g.next_seq
    → poll_reports b g ≡ ok (g, none)
unfolding poll_reports
poll_reports-done b k g sent h past =
    rw (read-ahead report_bytes b k g.next_seq g.inbound_shm sent h.serves past) refl

-- A poll of a ring of reports, whose slots in the last lap are mapped, panics exactly when the
-- engine is more than a lap behind the exchange's process.
pub poll_reports-panic_iff :
    (b : Build) (k : ℕ) (g : ShmGateway) (sent : List ExecutionReport)
    → Inbound k g sent
    → (poll_reports b g ≡ panic) ↔ (g.next_seq + pow2 k < length sent)
poll_reports-panic_iff b k g sent h = (
  λ stops. elim (near_or_lost (length sent) (g.next_seq + pow2 k)) [
    | inr lost ↦ lost
    | inl near ↦ elim (get_elem?-cases sent g.next_seq) [
      | inl past ↦ absurd (ground (arith, stops, poll_reports-done b k g sent h past))
      | inr (report, at) ↦
          absurd (ground (arith, stops, poll_reports-next b k g sent report h near at))
    ]
  ],
  λ lost.
      unfold poll_reports in
      rw (read-behind report_bytes b k g.next_seq g.inbound_shm sent h.slots h.serves lost) refl,
)
  where
    near_or_lost : (m n : ℕ) → (m ≤ n) ⊎ (n < m)
    near_or_lost m n = elim (Bool-cases (leb m n)) [
      | inl e ↦ inl (ground arith)
      | inr e ↦ inr (ground arith)
    ]

module _ (f : FloatOps) (st : Strategy) (wr : MessageAnalyticsWriter) (b : Build)
    (clock : ℕ → ℕ) where
  -- The market is told of the fills of a list, one after the other.
  unfoldable pub confirm_all :
      MarketState f st wr → List ExecutionReport → Outcome (MarketState f st wr)
  confirm_all m [] = ok m
  confirm_all m (report ∷ reports) = do m' ← confirm f st wr b m report; confirm_all m' reports

  -- A live engine less than a lap behind a ring of reports, whose slots in that lap are mapped, is
  -- told of exactly the reports that it has not yet seen, each once, in the order in which they
  -- were written, and then has seen them all; fuel beyond their number is enough.
  pub poll-confirm_all :
      (k fuel : ℕ) (m : MarketState f st wr) (g : ShmGateway) (sent : List ExecutionReport)
      → Inbound k g sent
      → g.next_seq ≤ length sent
      → length sent ≤ g.next_seq + pow2 k
      → length sent < g.next_seq + fuel
      → poll_confirmed_orders f st wr (live_gateway b clock) b fuel (m, g) ≡ (do
        m' ← confirm_all m (drop g.next_seq sent)
        ok (some (m', record g { next_seq = length sent })))
  unfolding confirm_all poll_confirmed_orders
  poll-confirm_all k zero m g sent h low near more = absurd (omega (arith, low, more))
  poll-confirm_all k (suc fuel) m g sent h low near more = elim (get_elem?-cases sent g.next_seq) [
    | inl past ↦
        let same : g.next_seq ≡ length sent = omega (arith, low, past) in
        let nothing = drop-past sent g.next_seq past in
        rw (poll_reports-done b k g sent h past, nothing)
          (ap (λ n. ok (some (m, record g { next_seq = n }))) same)
    | inr (report, at) ↦
        let g1 : ShmGateway = record g { next_seq = g.next_seq + 1 } in
        let h1 : Inbound k g1 sent = record {
          slots = h.slots;
          serves = h.serves;
          fit = h.fit;
          countable = h.countable;
        } in
        let within = get_elem?-lt sent g.next_seq report at in
        let rest : (m' : MarketState f st wr)
            → poll_confirmed_orders f st wr (live_gateway b clock) b fuel (m', g1) ≡ (
                confirm_all m' (drop (g.next_seq + 1) sent) >>= λ m2.
                ok (some (m2, record g { next_seq = length sent }))) =
          λ m'.
            poll-confirm_all k fuel m' g1 sent h1 (omega (arith, within)) (omega (arith, near))
              (omega (arith, more)) in
        elim (Outcome-cases (confirm f st wr b m report)) [
          | inl stops ↦
              rw
                (
                  poll_reports-next b k g sent report h near at,
                  drop-next sent g.next_seq report at,
                  stops,
                )
                refl
          | inr (m', done) ↦
              rw
                (
                  poll_reports-next b k g sent report h near at,
                  drop-next sent g.next_seq report at,
                  done,
                )
                (rest m')
        ]
  ]
