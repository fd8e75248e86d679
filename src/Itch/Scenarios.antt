-- ===== src/Itch/Scenarios.antt =====
-- The unit tests of crates/itch-parser/src/lib.rs: each is a run of its body.
use hft_demo.Common.{Side}
use hft_demo.Itch.{
  ItchMessage, parse_itch_message, add_order, modify_order, trade, delete_order, order_executed,
  order_executed_with_price,
}
use hft_demo.Itch.Defs.{
  parse_add_order, parse_modify_order, parse_delete_order, parse_trade, parse_order_executed,
  parse_order_executed_with_price,
}
use hft_demo.Prelude.Bytes.{splice, be_bytes, or_panic}
use hft_demo.Prelude.{
  [], ◌∷◌, true, false, refl, ◌>>=◌, ◌>>◌, Outcome, ℕ, ◌≡◌, Bool, ok, List, assert, is_none,
  replicate, ◌==◌, panic,
}

abbrev is_buy : Side → Bool
is_buy Side.buy = true
is_buy Side.sell = false

-- `[0u8; size]` with the type of the message.
abbrev blank_packet : (size msg_type : ℕ) → List ℕ
blank_packet size msg_type = splice (replicate size 0) 0 (msg_type ∷ [])

abbrev expect_add_order : ItchMessage → Outcome (Unit {0})
expect_add_order (add_order stock_locate order_id side quantity price) = do
  assert (stock_locate == 1111)
  assert (order_id == 1000)
  assert (is_buy side)
  assert (quantity == 50)
  assert (price == 1500000)
expect_add_order _ = panic

test_add_order : Outcome (Unit {0})
unfolding parse_itch_message parse_add_order be_bytes splice
test_add_order = do
  let packet : List ℕ = blank_packet 36 b'A'
  let packet : List ℕ = splice packet 1 (be_bytes 2 1111)
  let packet : List ℕ = splice packet 11 (be_bytes 8 1000)
  let packet : List ℕ = splice packet 19 (b'B' ∷ [])
  let packet : List ℕ = splice packet 20 (be_bytes 4 50)
  let packet : List ℕ = splice packet 32 (be_bytes 4 1500000)
  parsed ← parse_itch_message packet
  result ← or_panic parsed
  expect_add_order result

test_add_order-passes : test_add_order ≡ ok tt
unfolding test_add_order
test_add_order-passes = refl

test_invalid_packet : Outcome (Unit {0})
unfolding parse_itch_message parse_add_order splice
test_invalid_packet = do
  let packet : List ℕ = splice (blank_packet 36 b'A') 19 (b'Z' ∷ [])
  result ← parse_itch_message packet
  assert (is_none result)

test_invalid_packet-passes : test_invalid_packet ≡ ok tt
unfolding test_invalid_packet
test_invalid_packet-passes = refl

abbrev expect_cancel_order : ItchMessage → Outcome (Unit {0})
expect_cancel_order (modify_order stock_locate order_id quantity_to_remove) = do
  assert (stock_locate == 42)
  assert (order_id == 2000)
  assert (quantity_to_remove == 100)
expect_cancel_order _ = ok tt

test_cancel_order : Outcome (Unit {0})
unfolding parse_itch_message parse_modify_order be_bytes splice
test_cancel_order = do
  let packet : List ℕ = blank_packet 23 b'X'
  let packet : List ℕ = splice packet 1 (be_bytes 2 42)
  let packet : List ℕ = splice packet 11 (be_bytes 8 2000)
  let packet : List ℕ = splice packet 19 (be_bytes 4 100)
  parsed ← parse_itch_message packet
  result ← or_panic parsed
  expect_cancel_order result

test_cancel_order-passes : test_cancel_order ≡ ok tt
unfolding test_cancel_order
test_cancel_order-passes = refl

abbrev expect_delete_order : ItchMessage → Outcome (Unit {0})
expect_delete_order (delete_order stock_locate order_id) = do
  assert (stock_locate == 82)
  assert (order_id == 3000)
expect_delete_order _ = ok tt

test_delete_order : Outcome (Unit {0})
unfolding parse_itch_message parse_delete_order be_bytes splice
test_delete_order = do
  let packet : List ℕ = blank_packet 19 b'D'
  let packet : List ℕ = splice packet 1 (be_bytes 2 82)
  let packet : List ℕ = splice packet 11 (be_bytes 8 3000)
  parsed ← parse_itch_message packet
  result ← or_panic parsed
  expect_delete_order result

test_delete_order-passes : test_delete_order ≡ ok tt
unfolding test_delete_order
test_delete_order-passes = refl

abbrev expect_trade_order : ItchMessage → Outcome (Unit {0})
expect_trade_order (trade stock_locate price quantity match_number bid) = do
  assert (stock_locate == 99)
  assert (price == 2500000)
  assert (quantity == 200)
  assert (match_number == 99999)
  assert (is_buy bid)
expect_trade_order _ = ok tt

test_trade_order : Outcome (Unit {0})
unfolding parse_itch_message parse_trade be_bytes splice
test_trade_order = do
  let packet : List ℕ = blank_packet 44 b'P'
  let packet : List ℕ = splice packet 1 (be_bytes 2 99)
  let packet : List ℕ = splice packet 20 (be_bytes 4 200)
  let packet : List ℕ = splice packet 32 (be_bytes 4 2500000)
  let packet : List ℕ = splice packet 36 (be_bytes 8 99999)
  let packet : List ℕ = splice packet 19 (b'B' ∷ [])
  parsed ← parse_itch_message packet
  result ← or_panic parsed
  expect_trade_order result

test_trade_order-passes : test_trade_order ≡ ok tt
unfolding test_trade_order
test_trade_order-passes = refl

abbrev expect_order_executed : ItchMessage → Outcome (Unit {0})
expect_order_executed (order_executed stock_locate order_id quantity match_number) = do
  assert (stock_locate == 12)
  assert (order_id == 4000)
  assert (quantity == 300)
  assert (match_number == 88888)
expect_order_executed _ = ok tt

test_order_executed : Outcome (Unit {0})
unfolding parse_itch_message parse_order_executed be_bytes splice
test_order_executed = do
  let packet : List ℕ = blank_packet 31 b'E'
  let packet : List ℕ = splice packet 1 (be_bytes 2 12)
  let packet : List ℕ = splice packet 11 (be_bytes 8 4000)
  let packet : List ℕ = splice packet 19 (be_bytes 4 300)
  let packet : List ℕ = splice packet 23 (be_bytes 8 88888)
  parsed ← parse_itch_message packet
  result ← or_panic parsed
  expect_order_executed result

test_order_executed-passes : test_order_executed ≡ ok tt
unfolding test_order_executed
test_order_executed-passes = refl

abbrev expect_order_executed_price : ItchMessage → Outcome (Unit {0})
expect_order_executed_price
      (order_executed_with_price stock_locate order_id quantity price match_number) =
    do
      assert (stock_locate == 52)
      assert (order_id == 4000)
      assert (quantity == 300)
      assert (match_number == 88888)
      assert (price == 3500000)
expect_order_executed_price _ = ok tt

test_order_executed_price : Outcome (Unit {0})
unfolding parse_itch_message parse_order_executed_with_price be_bytes splice
test_order_executed_price = do
  let packet : List ℕ = blank_packet 36 b'C'
  let packet : List ℕ = splice packet 1 (be_bytes 2 52)
  let packet : List ℕ = splice packet 11 (be_bytes 8 4000)
  let packet : List ℕ = splice packet 19 (be_bytes 4 300)
  let packet : List ℕ = splice packet 23 (be_bytes 8 88888)
  let packet : List ℕ = splice packet 32 (be_bytes 4 3500000)
  parsed ← parse_itch_message packet
  result ← or_panic parsed
  expect_order_executed_price result

test_order_executed_price-passes : test_order_executed_price ≡ ok tt
unfolding test_order_executed_price
test_order_executed_price-passes = refl
