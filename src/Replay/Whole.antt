-- ===== src/Replay/Whole.antt =====
-- A replay from its start to the end of its file.
use hft_demo.Replay.Ends.{Finishes, replay-ends}
use hft_demo.Ring.{Slot}
use hft_demo.Replay.Main.{main, target_symbols, new_telemetry_writer}
use hft_demo.Prelude.Word.{add_word, u64_mod}
use hft_demo.Prelude.Text.{Text}
use hft_demo.Strategies.{Strategy, simple_mid_point, new_mid_point}
use hft_demo.Prelude.Float.{FloatOps}
use hft_demo.Replay.Session.{Admits, Replayed, Replayed-Accounts, started, packet}
use hft_demo.Replay.Frames.{messages_in, frames, AreMessages, Partial, send_all, replay-frames}
use hft_demo.Replay.Balance.{Accounts}
use hft_demo.Replay.File.{replay}
use hft_demo.Replay.Gateway.{ReplayGateway, replay_gateway, new_gateway, telemetry_writer}
use hft_demo.Market.{MarketState, handle_raw_packet, new, MessageAnalyticsWriter, timestamp}
use hft_demo.Itch.{parse_itch_message, ItchMessage}
use hft_demo.Prelude.{
  none, some, [], ◌∷◌, refl, sym, ap, ◌∙◌, ◌≡◌, Build, ℕ, List, Option, ok, length, bind-ok, arith,
  ◌<◌, ◌++◌, Option-cases, inl, inr, Outcome-cases, ◌+◌,
}
use mathlib.Core.Path.{subst}

module _ (f : FloatOps) (st : Strategy) (wr : MessageAnalyticsWriter) (b : Build)
    (poll_fuel : ℕ) where
  -- Each message of a list may stand where it does: a directory's lists a stock that is fresh then.
  abbrev pub Feeds : MarketState f st wr → ReplayGateway → List (List ℕ) → Type 0
  Feeds m g [] = Unit {0}
  Feeds m g (p ∷ ps) =
      ((parsed : Option ItchMessage)
        → parse_itch_message p ≡ ok parsed
        → Admits f st wr b m g parsed)
      × ((m' : MarketState f st wr) (g' : ReplayGateway)
          → handle_raw_packet f st wr (replay_gateway b) b poll_fuel (m, g) p ≡ ok (some (m', g'))
          → Feeds m' g' ps)

  -- A packet that is handled was parsed.
  handled-parsed :
      (m m' : MarketState f st wr) (g g' : ReplayGateway) (p : List ℕ)
      → handle_raw_packet f st wr (replay_gateway b) b poll_fuel (m, g) p ≡ ok (some (m', g'))
      → (parsed : Option ItchMessage) × (parse_itch_message p ≡ ok parsed)
  unfolding handle_raw_packet
  handled-parsed m m' g g' p e =
      let (ns, _, e1) = bind-ok (timestamp p) _ e in
      let (now, _, e2) = bind-ok (add_word u64_mod b m.midnight_today_ns ns) _ e1 in
      let (parsed, read, _) = bind-ok (parse_itch_message p) _ e2 in (parsed, read)

  send_all-Replayed :
      (packets : List (List ℕ)) (count count' : ℕ) (m m' : MarketState f st wr)
      (g g' : ReplayGateway)
      → Replayed f st wr b m g
      → Feeds m g packets
      → send_all f st wr (replay_gateway b) b poll_fuel packets count (m, g)
        ≡ ok (some (count', (m', g')))
      → Replayed f st wr b m' g'
  unfolding send_all
  send_all-Replayed [] count count' m m' g g' r feeds e =
      let same : (m ≡ m') × (g ≡ g') = ground arith in
      subst (λ m. Replayed f st wr b m g') same.0 (subst (λ g. Replayed f st wr b m g) same.1 r)
  send_all-Replayed (p ∷ ps) count count' m m' g g' r feeds e =
      let (answer, handled, e1) =
        bind-ok (handle_raw_packet f st wr (replay_gateway b) b poll_fuel (m, g) p) _ e in
      let (next, _, e2) = bind-ok (add_word u64_mod b count 1) _ e1 in
      elim (Option-cases answer) [
        | inl nothing ↦ absurd (ground (arith, e2, nothing))
        | inr ((m1, g1), there) ↦
            let done = handled ∙ ap ok there in
            let (parsed, read) = handled-parsed m m1 g g1 p done in
            send_all-Replayed ps next count' m1 m' g1 g'
              (packet poll_fuel m m1 g g1 p parsed r read (feeds.0 parsed read) done)
              (feeds.1 m1 g1 done)
              (subst
                (λ o.
                  elim o [
                    | none ↦ ok none
                    | some r' ↦ send_all f st wr (replay_gateway b) b poll_fuel ps next r'
                  ]
                  ≡ ok (some (count', (m', g'))))
                there e2)
      ]

  -- A replay, from its start, of a file that holds given messages, of which each directory's lists
  -- a stock that is fresh then, and perhaps the beginning of another, ends, where it returns, with
  -- accounts that agree: for each stock the position that the risk engine counts is the position at
  -- the exchange, from -3500 to 3500, and no fill waits.
  pub replay-Accounts :
      (fuel now_secs count : ℕ) (symbols : List Text) (s : st.State) (writer : wr.State)
      (packets : List (List ℕ)) (tail : List ℕ) (m m' : MarketState f st wr) (g' : ReplayGateway)
      → new f st wr b now_secs symbols s writer ≡ ok m
      → AreMessages packets
      → Partial tail
      → length packets < fuel
      → Feeds m new_gateway packets
      → replay f st wr
          (replay_gateway b)
          b
          poll_fuel
          fuel
          (frames packets ++ tail)
          0
          0
          (m, new_gateway)
        ≡ ok (some (count, (m', g')))
      → Accounts f st wr b m' g' × (g'.pending_fills ≡ [])
  replay-Accounts fuel now_secs count symbols s writer packets tail m m' g' made messages part more
        feeds e =
      let sent =
        sym (
          replay-frames f st wr (replay_gateway b) b poll_fuel fuel [] packets tail 0
            (m, new_gateway) messages part more)
        ∙ e in
      Replayed-Accounts f st wr b m' g' (
        send_all-Replayed packets 0 count m m' new_gateway g'
          (started now_secs symbols s writer m made) feeds sent)

-- The replay program's whole run on any file of fewer than 2^64 bytes ends: it panics, or it returns
-- as the count of the packets that it sent the number of messages that stand, each behind its
-- length, from the file's start on, and then no fill waits; fuel beyond the bytes of the file, and
-- for two polls of each packet, is enough.
pub main-ends :
    (f : FloatOps) (b : Build) (clock : ℕ → ℕ) (now_secs : ℕ) (slots : ℕ → Slot)
    (poll_fuel fuel : ℕ) (file : List ℕ)
    → 1 < poll_fuel
    → length file < fuel
    → length file < u64_mod
    → Finishes f
        (simple_mid_point f)
        (telemetry_writer b clock)
        b
        (messages_in fuel file 0)
        (main f b clock now_secs slots poll_fuel fuel file)
unfolding main
main-ends f b clock now_secs slots poll_fuel fuel file polls more short =
    let strategy = new_mid_point f (f.div (f.of_nat 8) (f.of_nat 10)) in
    elim (Outcome-cases (new_telemetry_writer slots)) [
      | inl stops ↦ inl (rw stops)
      | inr (writer, made) ↦
          elim (Outcome-cases (
            new f (simple_mid_point f) (telemetry_writer b clock) b now_secs target_symbols strategy
              writer)) [
                | inl stops ↦ inl (rw (made, stops))
                | inr (market, ready) ↦
                    let run =
                      replay f (simple_mid_point f) (telemetry_writer b clock) (replay_gateway b) b
                        poll_fuel fuel file 0 0 (market, new_gateway) in
                    let ends =
                      replay-ends f (simple_mid_point f) (telemetry_writer b clock) b poll_fuel fuel
                        file 0 0 market new_gateway refl polls (omega arith) (omega (arith, more))
                        (omega (arith, short)) in
                    let none_before : 0 + messages_in fuel file 0 ≡ messages_in fuel file 0 =
                      omega arith in
                    rw (made, ready)
                      (subst
                        (λ n. Finishes f (simple_mid_point f) (telemetry_writer b clock) b n run)
                        none_before ends)
              ]
    ]
