-- ===== src/Visualiser/Defs.antt =====
-- The loop of the visualiser: what it does with each answer of the ring.
use hft_demo.Prelude.Word.{signed_of, i64_half, i32_half, add_word, u64_mod}
use hft_demo.Ring
use hft_demo.Ring.{ShmRing, ReadResult, success, empty, reset, overlapped, interrupted}
use hft_demo.Prelude.Decimal.{decimal, signed_decimal}
use hft_demo.Prelude.Layout.{word_at}
use hft_demo.Prelude.Text.{Text, text}
use hft_demo.Common.{TelemetryPayload}
use hft_demo.Prelude.{
  [], ◌∷◌, zero, suc, List, Build, ◌++◌, ℕ, if◌then◌else◌, ◌==◌, ltb, Outcome, ok, ◌>>=◌,
}

-- The variables of `main`, and the bodies posted so far, whether or not the database took them.
pub record Visualiser : Type 0 where
  pub sequence_num : ℕ
  pub batch_buffer : Text
  pub records_in_batch : ℕ
  pub posted : List Text

abbrev pub start : Visualiser
start = record { sequence_num = 0; batch_buffer = []; records_in_batch = 0; posted = [] }

abbrev pub batch_sizelimit : ℕ
batch_sizelimit = 5000

-- The struct at the start of a slot's data, in its C layout.
unfoldable pub payload_of : List ℕ → TelemetryPayload
unfolding word_at
payload_of bytes = record {
  timestamp_ns = word_at 8 0 bytes;
  realised_pnl = signed_of i64_half (word_at 8 8 bytes);
  midpoint_px = word_at 4 16 bytes;
  position = signed_of i32_half (word_at 4 20 bytes);
  latency_ns = word_at 4 24 bytes;
  locate_id = word_at 2 28 bytes;
}

abbrev pub symbol_of : ℕ → Text
symbol_of locate_id = if locate_id == 13 then text "AAPL" else text "MSFT"

-- The `format!` of a record, with its newline.
unfoldable pub line : TelemetryPayload → Text
unfolding decimal signed_decimal
line p =
    text "strategy_state,symbol="
    ++ (symbol_of p.locate_id
        ++ (text " price="
            ++ (decimal p.midpoint_px
                ++ (text ",position="
                    ++ (signed_decimal p.position
                        ++ (text ",pnl="
                            ++ (signed_decimal p.realised_pnl
                                ++ (text ",latency="
                                    ++ (decimal p.latency_ns
                                        ++ (32 ∷ (decimal p.timestamp_ns ++ (10 ∷ []))))))))))))

abbrev pub flush_to_influx : Visualiser → Visualiser
flush_to_influx v = record v {
  batch_buffer = [];
  records_in_batch = 0;
  posted = v.posted ++ (v.batch_buffer ∷ []);
}

abbrev pub flush_over : Visualiser → Visualiser
flush_over v = if ltb batch_sizelimit v.records_in_batch then flush_to_influx v else v

abbrev pub flush_some : Visualiser → Visualiser
flush_some v = if ltb 0 v.records_in_batch then flush_to_influx v else v

-- The `match` of the loop.
unfoldable pub step : Build → Visualiser → ReadResult → Outcome Visualiser
unfolding payload_of line
step b v (success slot) = do
  records ← add_word u64_mod b v.records_in_batch 1
  next ← add_word u64_mod b v.sequence_num 1
  ok (
      flush_over (record v {
        sequence_num = next;
        batch_buffer = v.batch_buffer ++ line (payload_of slot.bytes);
        records_in_batch = records;
      }))
step b v empty = ok (flush_some v)
step b v reset = ok (record v { sequence_num = 0; batch_buffer = []; records_in_batch = 0 })
step b v (overlapped new_seq_num) = ok (record v { sequence_num = new_seq_num })
step b v (interrupted new_seq_num) = ok (record v { sequence_num = new_seq_num })

unfoldable pub turn : Build → ShmRing → Visualiser → Outcome Visualiser
unfolding step Ring.read
turn b ring v = do result ← Ring.read b ring v.sequence_num; step b v result

-- Turns of the loop while the ring stays as it is.
unfoldable pub turns : Build → ShmRing → ℕ → Visualiser → Outcome Visualiser
unfolding turn
turns b ring zero v = ok v
turns b ring (suc n) v = do v' ← turn b ring v; turns b ring n v'
