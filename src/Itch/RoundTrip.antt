-- ===== src/Itch/RoundTrip.antt =====
-- Parsing what the packet writer of the tests produces.
use hft_demo.Prelude.{ℕ, ◌≤◌, ◌<◌, ◌≡◌, some, List, ok, length}
use hft_demo.Prelude.Bytes.{be_bytes, from_be, from_be-be_bytes}
use hft_demo.Prelude.Word.{u16_mod, u32_mod, u64_mod}
use hft_demo.Prelude.Text.{IsGraphic}
use hft_demo.Common.{Side}
use hft_demo.Itch.Defs.{
  ItchMessage, add_order, modify_order, trade, delete_order, order_executed,
  order_executed_with_price, stock_directory, parse_itch_message, parse_add_order,
  parse_modify_order, parse_trade, parse_delete_order, parse_order_executed,
  parse_order_executed_with_price,
}
use hft_demo.Itch.Symbol.{stock_directory_read}
use hft_demo.Itch.Encode.{
  stock_directory_packet, add_order_packet, order_executed_packet, executed_with_price_packet,
  modify_order_packet, delete_order_packet, trade_packet,
}

abbrev pub side_byte : Side → ℕ
side_byte Side.buy = b'B'
side_byte Side.sell = b'S'

-- The packet of a message.
abbrev pub packet_of : ItchMessage → List ℕ
packet_of (add_order l i s q p) = add_order_packet l i q p (side_byte s)
packet_of (modify_order l i q) = modify_order_packet l i q
packet_of (trade l p q m s) = trade_packet l q p m (side_byte s)
packet_of (delete_order l i) = delete_order_packet l i
packet_of (order_executed l i q m) = order_executed_packet l i q m
packet_of (order_executed_with_price l i q p m) = executed_with_price_packet l i q p m
packet_of (stock_directory l s) = stock_directory_packet l s

-- Every number fits its field of the wire format, and a symbol is at most 8 printable characters.
abbrev pub IsEncodable : ItchMessage → Type 0
IsEncodable (add_order l i s q p) = (l < u16_mod) × (i < u64_mod) × (q < u32_mod) × (p < u32_mod)
IsEncodable (modify_order l i q) = (l < u16_mod) × (i < u64_mod) × (q < u32_mod)
IsEncodable (trade l p q m s) = (l < u16_mod) × (p < u32_mod) × (q < u32_mod) × (m < u64_mod)
IsEncodable (delete_order l i) = (l < u16_mod) × (i < u64_mod)
IsEncodable (order_executed l i q m) = (l < u16_mod) × (i < u64_mod) × (q < u32_mod) × (m < u64_mod)
IsEncodable (order_executed_with_price l i q p m) =
    (l < u16_mod) × (i < u64_mod) × (q < u32_mod) × (p < u32_mod) × (m < u64_mod)
IsEncodable (stock_directory l s) = (l < u16_mod) × IsGraphic s × (length s ≤ 8)

u16_read : (v : ℕ) → v < u16_mod → from_be (be_bytes 2 v) ≡ v
u16_read v h = from_be-be_bytes 2 v h

u32_read : (v : ℕ) → v < u32_mod → from_be (be_bytes 4 v) ≡ v
u32_read v h = from_be-be_bytes 4 v h

u64_read : (v : ℕ) → v < u64_mod → from_be (be_bytes 8 v) ≡ v
u64_read v h = from_be-be_bytes 8 v h

add_order_read :
    (l i : ℕ) (s : Side) (q p : ℕ)
    → l < u16_mod
    → i < u64_mod
    → q < u32_mod
    → p < u32_mod
    → parse_itch_message (add_order_packet l i q p (side_byte s)) ≡ ok (some (add_order l i s q p))
unfolding parse_itch_message parse_add_order add_order_packet be_bytes from_be
add_order_read l i Side.buy q p hl hi hq hp = λ k. ok (
    some
      (add_order (u16_read l hl k) (u64_read i hi k) Side.buy (u32_read q hq k) (u32_read p hp k)))
add_order_read l i Side.sell q p hl hi hq hp = λ k. ok (
    some
      (add_order (u16_read l hl k) (u64_read i hi k) Side.sell (u32_read q hq k) (u32_read p hp k)))

trade_read :
    (l p q m : ℕ) (s : Side)
    → l < u16_mod
    → p < u32_mod
    → q < u32_mod
    → m < u64_mod
    → parse_itch_message (trade_packet l q p m (side_byte s)) ≡ ok (some (trade l p q m s))
unfolding parse_itch_message parse_trade trade_packet be_bytes from_be
trade_read l p q m Side.buy hl hp hq hm = λ k.
    ok (
      some (trade (u16_read l hl k) (u32_read p hp k) (u32_read q hq k) (u64_read m hm k) Side.buy))
trade_read l p q m Side.sell hl hp hq hm = λ k.
    ok (
      some
        (trade (u16_read l hl k) (u32_read p hp k) (u32_read q hq k) (u64_read m hm k) Side.sell))

modify_order_read :
    (l i q : ℕ)
    → l < u16_mod
    → i < u64_mod
    → q < u32_mod
    → parse_itch_message (modify_order_packet l i q) ≡ ok (some (modify_order l i q))
unfolding parse_itch_message parse_modify_order modify_order_packet be_bytes from_be
modify_order_read l i q hl hi hq =
    λ k. ok (some (modify_order (u16_read l hl k) (u64_read i hi k) (u32_read q hq k)))

delete_order_read :
    (l i : ℕ)
    → l < u16_mod
    → i < u64_mod
    → parse_itch_message (delete_order_packet l i) ≡ ok (some (delete_order l i))
unfolding parse_itch_message parse_delete_order delete_order_packet be_bytes from_be
delete_order_read l i hl hi = λ k. ok (some (delete_order (u16_read l hl k) (u64_read i hi k)))

order_executed_read :
    (l i q m : ℕ)
    → l < u16_mod
    → i < u64_mod
    → q < u32_mod
    → m < u64_mod
    → parse_itch_message (order_executed_packet l i q m) ≡ ok (some (order_executed l i q m))
unfolding parse_itch_message parse_order_executed order_executed_packet be_bytes from_be
order_executed_read l i q m hl hi hq hm = λ k.
    ok (
      some (order_executed (u16_read l hl k) (u64_read i hi k) (u32_read q hq k) (u64_read m hm k)))

executed_with_price_read :
    (l i q p m : ℕ)
    → l < u16_mod
    → i < u64_mod
    → q < u32_mod
    → p < u32_mod
    → m < u64_mod
    → parse_itch_message (executed_with_price_packet l i q p m)
      ≡ ok (some (order_executed_with_price l i q p m))
unfolding parse_itch_message parse_order_executed_with_price executed_with_price_packet be_bytes
    from_be
executed_with_price_read l i q p m hl hi hq hp hm = λ k. ok (
    some (
      order_executed_with_price (u16_read l hl k) (u64_read i hi k) (u32_read q hq k)
        (u32_read p hp k) (u64_read m hm k)))

-- Parsing the packet of a message gives the message back, for all seven types: each field of the
-- wire format is read from where it was written, and the symbol loses its padding.
pub parse_itch_message-packet_of :
    (m : ItchMessage) → IsEncodable m → parse_itch_message (packet_of m) ≡ ok (some m)
parse_itch_message-packet_of (add_order l i s q p) h = add_order_read l i s q p h.0 h.1 h.2 h.3
parse_itch_message-packet_of (modify_order l i q) h = modify_order_read l i q h.0 h.1 h.2
parse_itch_message-packet_of (trade l p q m s) h = trade_read l p q m s h.0 h.1 h.2 h.3
parse_itch_message-packet_of (delete_order l i) h = delete_order_read l i h.0 h.1
parse_itch_message-packet_of (order_executed l i q m) h =
    order_executed_read l i q m h.0 h.1 h.2 h.3
parse_itch_message-packet_of (order_executed_with_price l i q p m) h =
    executed_with_price_read l i q p m h.0 h.1 h.2 h.3 h.4
parse_itch_message-packet_of (stock_directory l s) h = stock_directory_read l s h.0 h.1 h.2
