-- ===== src/Replay/File.antt =====
-- The loop over the file: each message stands behind its length, two bytes, big-endian.
use hft_demo.Prelude.Word.{add_word, u64_mod}
use hft_demo.Market.{MessageAnalyticsWriter, ExchangeGateway, Running, handle_raw_packet}
use hft_demo.Prelude.Bytes.{from_be}
use hft_demo.Strategies.{Strategy}
use hft_demo.Prelude.Float.{FloatOps}
use hft_demo.Prelude.{
  ℕ, none, some, zero, suc, List, Option, get_or, ◌∷◌, Build, ◌+◌, Outcome, [], ok, if◌then◌else◌,
  ltb, length, take, drop, ◌>>=◌,
}

-- One turn of the loop: the message at the cursor and the cursor behind it, or none where the loop
-- ends. The length is read at two positions that the first test puts in bounds.
unfoldable pub next_message : List ℕ → ℕ → Option (List ℕ × ℕ)
next_message file cursor =
    let msg_len = from_be (get_or file cursor 0 ∷ get_or file (cursor + 1) 0 ∷ []) in
    let msg_start = cursor + 2 in
    let msg_end = msg_start + msg_len in
    if ltb (cursor + 2) (length file)
    then if ltb (length file) msg_end
      then none
      else some (take msg_len (drop msg_start file), msg_end)
    else none

module _ (f : FloatOps) (st : Strategy) (wr : MessageAnalyticsWriter) (gw : ExchangeGateway) where
  -- The loop on fuel, with fuel for the polls of each packet: none when either runs out. It counts
  -- the packets that it sends.
  unfoldable pub replay :
      Build
      → (poll_fuel fuel : ℕ) → List ℕ
      → (cursor num_of_packets_sent : ℕ) → Running f st wr gw
      → Outcome (Option (ℕ × Running f st wr gw))
  replay b poll_fuel zero file cursor num_of_packets_sent r = ok none
  replay b poll_fuel (suc fuel) file cursor num_of_packets_sent r =
      elim (next_message file cursor) [
        | none ↦ ok (some (num_of_packets_sent, r))
        | some (msg_payload, msg_end) ↦ do
          answer ← handle_raw_packet f st wr gw b poll_fuel r msg_payload
          count ← add_word u64_mod b num_of_packets_sent 1
          elim answer [ none ↦ ok none | some r' ↦ replay b poll_fuel fuel file msg_end count r' ]
      ]
