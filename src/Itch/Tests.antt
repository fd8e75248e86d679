-- ===== src/Itch/Tests.antt =====
-- Runs of the parser.
use hft_demo.Common.{Side}
use hft_demo.Itch.RoundTrip.{packet_of, parse_itch_message-packet_of}
use hft_demo.Itch.{ItchMessage, parse_itch_message, add_order}
use hft_demo.Itch.Bounds.{needed, parse_itch_message-panic_iff}
use hft_demo.Prelude.{ℕ, List, ◌∷◌, ◌≡◌, [], panic, ok, ◌↔◌, some, length, arith, ◌<◌}

abbrev sample : ItchMessage
sample = add_order 25 1001 Side.buy 500 1500000

parse_itch_message-packet_of_example : parse_itch_message (packet_of sample) ≡ ok (some sample)
parse_itch_message-packet_of_example =
    parse_itch_message-packet_of sample (omega arith, omega arith, omega arith, omega arith)

-- A delete message cut short.
abbrev short_packet : List ℕ
short_packet = b'D' ∷ 0 ∷ 1 ∷ []

parse_itch_message-panic_iff_example :
    (parse_itch_message short_packet ≡ panic) ↔ (length short_packet < needed short_packet)
parse_itch_message-panic_iff_example = parse_itch_message-panic_iff short_packet
