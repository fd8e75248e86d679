-- ===== src/Itch/Bounds.antt =====
-- How long a packet has to be for the parser not to panic.
use hft_demo.Prelude.{
  take, drop, ℕ, ◌≤◌, ◌<◌, ◌≡◌, ◌↔◌, List, arith, panic, length, get_or, ◌==◌, ◌||◌, if◌then◌else◌,
}
use hft_demo.Prelude.Bytes.{index-eq, be_field-eq, from_be}
use hft_demo.Itch.Defs.{
  parse_stock_directory, parse_add_order, parse_modify_order, parse_delete_order, parse_trade,
  parse_order_executed, parse_order_executed_with_price, parse_body, parse_itch_message,
}

-- The length that a packet of each type must have. An 'A' packet with a bad Buy/Sell byte is given up
-- before its later fields are read.
abbrev add_order_needed : List ℕ → ℕ
add_order_needed packet =
    if get_or packet 19 0 == b'B' || get_or packet 19 0 == b'S' then 36 else 20

abbrev needed_of : ℕ → List ℕ → ℕ
needed_of t packet =
    if t == b'R'
    then 19
    else if t == b'A'
    then add_order_needed packet
    else if t == b'X'
    then 23
    else if t == b'D'
    then 19
    else if t == b'P'
    then 44
    else if t == b'E'
    then 31
    else if t == b'C'
    then 36
    else 3

-- The first three bytes are always read.
abbrev pub needed : List ℕ → ℕ
needed packet = needed_of (get_or packet 0 0) packet

module _ (l : ℕ) (packet : List ℕ) where
  stock_directory-panic_iff : (parse_stock_directory l packet ≡ panic) ↔ (length packet < 19)
  unfolding parse_stock_directory
  stock_directory-panic_iff = ground arith

  add_order-panic_iff :
      (parse_add_order l packet ≡ panic) ↔ (length packet < add_order_needed packet)
  unfolding parse_add_order
  add_order-panic_iff = ground (arith, index-eq packet 19)

  modify_order-panic_iff : (parse_modify_order l packet ≡ panic) ↔ (length packet < 23)
  unfolding parse_modify_order
  modify_order-panic_iff = ground arith

  delete_order-panic_iff : (parse_delete_order l packet ≡ panic) ↔ (length packet < 19)
  unfolding parse_delete_order
  delete_order-panic_iff = ground arith

  trade-panic_iff : (parse_trade l packet ≡ panic) ↔ (length packet < 44)
  unfolding parse_trade
  trade-panic_iff = ground (arith, index-eq packet 19)

  order_executed-panic_iff : (parse_order_executed l packet ≡ panic) ↔ (length packet < 31)
  unfolding parse_order_executed
  order_executed-panic_iff = ground arith

  executed_with_price-panic_iff :
      (parse_order_executed_with_price l packet ≡ panic) ↔ (length packet < 36)
  unfolding parse_order_executed_with_price
  executed_with_price-panic_iff = ground arith

  parse_body-panic_iff :
      (t : ℕ)
      → 3 ≤ length packet
      → (parse_body t l packet ≡ panic) ↔ (length packet < needed_of t packet)
  unfolding parse_body
  parse_body-panic_iff t h = ground (
    arith, stock_directory-panic_iff, add_order-panic_iff, modify_order-panic_iff,
    delete_order-panic_iff, trade-panic_iff, order_executed-panic_iff,
    executed_with_price-panic_iff,
  )

-- The parser panics on a packet exactly when the packet is shorter than its type needs.
pub parse_itch_message-panic_iff :
    (packet : List ℕ) → (parse_itch_message packet ≡ panic) ↔ (length packet < needed packet)
unfolding parse_itch_message
parse_itch_message-panic_iff packet = ground (
  arith,
  index-eq packet 0,
  be_field-eq packet 1 3,
  parse_body-panic_iff (from_be (take 2 (drop 1 packet))) packet (get_or packet 0 0),
)
