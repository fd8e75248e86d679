-- ===== src/Itch/Defs.antt =====
-- The message type and the parser.
use hft_demo.Prelude.{ℕ, Option, none, some, List, ◌==◌, if◌then◌else◌, Outcome, ok, ◌>>=◌}
use hft_demo.Prelude.Bytes.{index, slice, be_field}
use hft_demo.Prelude.Text.{Text, trim, from_utf8_lossy}
use hft_demo.Common.{Side}

pub data ItchMessage : Type 0 where
  add_order : (stock_locate order_id : ℕ) (side : Side) (quantity price : ℕ) → ItchMessage
  modify_order : (stock_locate order_id quantity_to_remove : ℕ) → ItchMessage
  trade : (stock_locate price quantity match_number : ℕ) (bid : Side) → ItchMessage
  delete_order : (stock_locate order_id : ℕ) → ItchMessage
  order_executed : (stock_locate order_id quantity match_number : ℕ) → ItchMessage
  order_executed_with_price : (stock_locate order_id quantity price match_number : ℕ) → ItchMessage
  stock_directory : (stock_locate : ℕ) (symbol : Text) → ItchMessage

-- The byte of the field Buy/Sell.
unfoldable pub side_of : ℕ → Option Side
side_of b = if b == b'B' then some Side.buy else if b == b'S' then some Side.sell else none

unfoldable pub parse_stock_directory : ℕ → List ℕ → Outcome (Option ItchMessage)
unfolding slice
parse_stock_directory stock_locate packet = do
  bytes ← slice packet 11 19
  ok (some (stock_directory stock_locate (trim (from_utf8_lossy bytes))))

unfoldable pub add_order_tail : ℕ → ℕ → List ℕ → Option Side → Outcome (Option ItchMessage)
unfolding be_field
add_order_tail stock_locate order_id packet none = ok none
add_order_tail stock_locate order_id packet (some side) = do
  quantity ← be_field packet 20 24
  price ← be_field packet 32 36
  ok (some (add_order stock_locate order_id side quantity price))

unfoldable pub parse_add_order : ℕ → List ℕ → Outcome (Option ItchMessage)
unfolding be_field index side_of add_order_tail
parse_add_order stock_locate packet = do
  order_id ← be_field packet 11 19
  b ← index packet 19
  add_order_tail stock_locate order_id packet (side_of b)

unfoldable pub parse_modify_order : ℕ → List ℕ → Outcome (Option ItchMessage)
unfolding be_field
parse_modify_order stock_locate packet = do
  order_id ← be_field packet 11 19
  quantity_to_remove ← be_field packet 19 23
  ok (some (modify_order stock_locate order_id quantity_to_remove))

unfoldable pub parse_delete_order : ℕ → List ℕ → Outcome (Option ItchMessage)
unfolding be_field
parse_delete_order stock_locate packet = do
  order_id ← be_field packet 11 19
  ok (some (delete_order stock_locate order_id))

abbrev trade_of : ℕ → ℕ → ℕ → ℕ → Option Side → Option ItchMessage
trade_of stock_locate price quantity match_number none = none
trade_of stock_locate price quantity match_number (some bid) =
    some (trade stock_locate price quantity match_number bid)

unfoldable pub parse_trade : ℕ → List ℕ → Outcome (Option ItchMessage)
unfolding be_field index side_of
parse_trade stock_locate packet = do
  quantity ← be_field packet 20 24
  price ← be_field packet 32 36
  match_number ← be_field packet 36 44
  b ← index packet 19
  ok (trade_of stock_locate price quantity match_number (side_of b))

unfoldable pub parse_order_executed : ℕ → List ℕ → Outcome (Option ItchMessage)
unfolding be_field
parse_order_executed stock_locate packet = do
  order_id ← be_field packet 11 19
  quantity ← be_field packet 19 23
  match_number ← be_field packet 23 31
  ok (some (order_executed stock_locate order_id quantity match_number))

unfoldable pub parse_order_executed_with_price : ℕ → List ℕ → Outcome (Option ItchMessage)
unfolding be_field
parse_order_executed_with_price stock_locate packet = do
  order_id ← be_field packet 11 19
  quantity ← be_field packet 19 23
  match_number ← be_field packet 23 31
  price ← be_field packet 32 36
  ok (some (order_executed_with_price stock_locate order_id quantity price match_number))

-- The `match` on the message type.
unfoldable pub parse_body : ℕ → ℕ → List ℕ → Outcome (Option ItchMessage)
parse_body message_type stock_locate packet =
    if message_type == b'R'
    then parse_stock_directory stock_locate packet
    else if message_type == b'A'
    then parse_add_order stock_locate packet
    else if message_type == b'X'
    then parse_modify_order stock_locate packet
    else if message_type == b'D'
    then parse_delete_order stock_locate packet
    else if message_type == b'P'
    then parse_trade stock_locate packet
    else if message_type == b'E'
    then parse_order_executed stock_locate packet
    else if message_type == b'C'
    then parse_order_executed_with_price stock_locate packet
    else ok none

unfoldable pub parse_itch_message : List ℕ → Outcome (Option ItchMessage)
unfolding index be_field parse_body
parse_itch_message packet = do
  message_type ← index packet 0
  stock_locate ← be_field packet 1 3
  parse_body message_type stock_locate packet
