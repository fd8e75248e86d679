-- ===== src/Replay/Total.antt =====
-- The replay program in a release build, on a file of whole messages.
use hft_demo.Prelude.Mask.{pow2}
use hft_demo.Replay.Gateway.{replay_gateway, telemetry_writer, new_gateway}
use hft_demo.Prelude.Word.{u64_mod, mul_word-release, add_word-ok}
use hft_demo.Prelude.Text.{Text}
use hft_demo.Market.{
  ExchangeGateway, MessageAnalyticsWriter, MarketState, new, Running, new_processor,
}
use hft_demo.Ring.{Slot, ShmRing}
use hft_demo.Strategies.{Strategy, simple_mid_point, new_mid_point}
use hft_demo.Prelude.Float.{FloatOps}
use hft_demo.Prelude.{
  List, ℕ, ◌∷◌, length, ◌<◌, Outcome, ◌≡◌, ◌^◌, Option, ◌+◌, ◌≤◌, ok, Gives, release, some,
  bind-Returns, ap, arith, ◌++◌, ◌-◌, ◌%◌, ◌*◌, length-map, refl, [], ◌∙◌,
}
use hft_demo.Market.Release.Event.{Outside}
use hft_demo.Market.Release.Feed.{IsRouted, IsWhole}
use hft_demo.Market.Release.Packet.{handle_raw_packet-Done}
use hft_demo.Replay.Frames.{frames, AreMessages, Partial, send_all, replay-frames}
use hft_demo.Replay.Main.{main, new_telemetry_writer, target_symbols}
use hft_demo.Replay.Outside.{HasRoom, replay_outside}
use hft_demo.Ring.Create.{slot_index-panic_iff, producer}

-- Packets that each have all that the parser reads.
abbrev pub AreWhole : List (List ℕ) → Type 0
AreWhole [] = Unit {0}
AreWhole (p ∷ ps) = IsWhole p × AreWhole ps

module _ (f : FloatOps) (st : Strategy) (gw : ExchangeGateway) (wr : MessageAnalyticsWriter)
    (o : Outside st gw wr) where
  -- What a run over packets comes to: their count, with no fill waiting.
  abbrev pub Sends : ℕ → Outcome (Option (ℕ × Running f st wr gw)) → Type 0
  Sends count r =
      (m : MarketState f st wr) × (g : gw.State) × (r ≡ ok (some (count, (m, g))))
      × (o.waiting g ≡ 0)

  -- Whole packets, one after the other, are all handled by a release build, while the sink has room
  -- for a record of each and the count fits a u64.
  send_all-Sends :
      (poll_fuel : ℕ) (packets : List (List ℕ)) (count : ℕ) (m : MarketState f st wr) (g : gw.State)
      → IsRouted f st gw wr o m
      → o.Room (length packets) m.telemetry_writer
      → o.waiting g ≡ 0
      → AreWhole packets
      → 1 < poll_fuel
      → count + length packets < u64_mod
      → Sends (count + length packets) (send_all f st wr gw release poll_fuel packets count (m, g))
  unfolding send_all
  send_all-Sends poll_fuel [] count m g r room empty whole polls few =
      (m, g, ap (λ c. ok (some (c, (m, g)))) (omega arith), empty)
  send_all-Sends poll_fuel (p ∷ ps) count m g r room empty whole polls few =
      let (m1, g1, handled, r1, room1, empty1) =
        handle_raw_packet-Done f st gw wr o (length ps) poll_fuel m g p r room empty whole.0
          polls in
      let counted = add_word-ok u64_mod release count 1 (omega (arith, few)) in
      let (m2, g2, rest, empty2) =
        send_all-Sends poll_fuel ps (count + 1) m1 g1 r1 room1 empty1 whole.1 polls
          (omega (arith, few)) in
      (
        m2,
        g2,
        rw (handled, counted, rest) (ap (λ c. ok (some (c, (m2, g2)))) (omega arith)),
        empty2,
      )

  new-IsRouted :
      (now_secs : ℕ) (symbols : List Text) (s : st.State) (writer : wr.State)
      → length symbols ≤ 2 ^ 15
      → Gives
          (λ m. IsRouted f st gw wr o m × (m.telemetry_writer ≡ writer))
          (new f st wr release now_secs symbols s writer)
  unfolding new
  new-IsRouted now_secs symbols s writer few =
      bind-Returns _ _ (mul_word-release u64_mod (now_secs - now_secs % 86400) 1000000000)
        (λ midnight. (
          _,
          refl,
          (
            record {
              few = rw (length-map symbols (new_processor f st wr s)) few;
              points = λ l. refl;
            },
            refl,
          ),
        ))

-- A release build of the replay program, run on a file that holds fewer than 2^20 messages, each of
-- less than 2^16 bytes and long enough for its timestamp and its type, and perhaps the beginning of
-- another, does not panic: it returns the number of these messages, and no fill waits. Fuel beyond
-- their number, and for two polls of each, is enough.
pub main-returns :
    (f : FloatOps) (clock : ℕ → ℕ) (now_secs : ℕ) (slots : ℕ → Slot) (poll_fuel fuel : ℕ)
    (packets : List (List ℕ)) (tail : List ℕ)
    → AreMessages packets
    → AreWhole packets
    → Partial tail
    → length packets < 2 ^ 20
    → 1 < poll_fuel
    → length packets < fuel
    → Sends f
        (simple_mid_point f)
        (replay_gateway release)
        (telemetry_writer release clock)
        (replay_outside f clock 20)
        (length packets)
        (main f release clock now_secs slots poll_fuel fuel (frames packets ++ tail))
unfolding main
main-returns f clock now_secs slots poll_fuel fuel packets tail messages whole part few polls more =
    let st = simple_mid_point f in
    let gw = replay_gateway release in
    let wr = telemetry_writer release clock in
    let o = replay_outside f clock 20 in
    let writer : ShmRing = producer (64 * pow2 20) slots in
    let made : new_telemetry_writer slots ≡ ok writer =
      unfold new_telemetry_writer in (slot_index-panic_iff release 20 0 slots).0 in
    let (m, started, (routed, same)) =
      new-IsRouted f st gw wr o now_secs target_symbols
        (new_mid_point f (f.div (f.of_nat 8) (f.of_nat 10))) writer (omega arith) in
    let room : HasRoom 20 (length packets) writer = record {
      counts = refl;
      mapped = refl;
      room = omega (arith, few);
      countable = omega arith;
    } in
    let (m', g', sent, empty) =
      send_all-Sends f st gw wr o poll_fuel packets 0 m new_gateway routed (rw same room) refl whole
        polls (omega (arith, few)) in
    (
      m',
      g',
      rw (made, started)
          (replay-frames f st wr gw release poll_fuel fuel [] packets tail 0 (m, new_gateway)
              messages part more
            ∙ (sent ∙ ap (λ c. ok (some (c, (m', g')))) (omega arith))),
      empty,
    )
