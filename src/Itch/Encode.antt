-- ===== src/Itch/Encode.antt =====
-- `create_itch_packet` of crates/market-handler/src/lib.rs: the packets of the seven message types,
-- as the repository's own tests write them.
use hft_demo.Prelude.{
  ℕ, ◌-◌, List, [], ◌∷◌, ◌++◌, ◌==◌, if◌then◌else◌, Outcome, ok, panic, length, take, replicate,
}
use hft_demo.Prelude.Bytes.{splice, be_bytes}
use hft_demo.Prelude.Text.{Text, as_bytes}

-- `vec![0u8; 50]` with the type and the locate written.
unfoldable pub header : ℕ → ℕ → List ℕ
unfolding splice be_bytes
header msg_type locate = splice (splice (replicate 50 0) 0 (msg_type ∷ [])) 1 (be_bytes 2 locate)

-- The symbol's bytes, cut at 8 and padded with spaces.
unfoldable pub symbol_field : Text → List ℕ
unfolding as_bytes
symbol_field symbol =
    let bytes = take 8 (as_bytes symbol) in bytes ++ replicate (8 - length bytes) b' '

unfoldable pub stock_directory_packet : ℕ → Text → List ℕ
unfolding header symbol_field
stock_directory_packet locate symbol =
    take 39 (splice (header b'R' locate) 11 (symbol_field symbol))

unfoldable pub add_order_packet : (locate id qty price side : ℕ) → List ℕ
unfolding header
add_order_packet locate id qty price side =
    let buf = splice (header b'A' locate) 11 (be_bytes 8 id) in
    let buf = splice buf 19 (side ∷ []) in
    let buf = splice buf 20 (be_bytes 4 qty) in take 36 (splice buf 32 (be_bytes 4 price))

unfoldable pub order_executed_packet : (locate id qty match_number : ℕ) → List ℕ
unfolding header
order_executed_packet locate id qty match_number =
    let buf = splice (header b'E' locate) 11 (be_bytes 8 id) in
    let buf = splice buf 19 (be_bytes 4 qty) in take 31 (splice buf 23 (be_bytes 8 match_number))

unfoldable pub executed_with_price_packet : (locate id qty price match_number : ℕ) → List ℕ
unfolding header
executed_with_price_packet locate id qty price match_number =
    let buf = splice (header b'C' locate) 11 (be_bytes 8 id) in
    let buf = splice buf 19 (be_bytes 4 qty) in
    let buf = splice buf 23 (be_bytes 8 match_number) in take 36 (splice buf 32 (be_bytes 4 price))

unfoldable pub modify_order_packet : (locate id qty : ℕ) → List ℕ
unfolding header
modify_order_packet locate id qty =
    take 23 (splice (splice (header b'X' locate) 11 (be_bytes 8 id)) 19 (be_bytes 4 qty))

unfoldable pub delete_order_packet : (locate id : ℕ) → List ℕ
unfolding header
delete_order_packet locate id = take 19 (splice (header b'D' locate) 11 (be_bytes 8 id))

unfoldable pub trade_packet : (locate qty price match_number side : ℕ) → List ℕ
unfolding header
trade_packet locate qty price match_number side =
    let buf = splice (header b'P' locate) 19 (side ∷ []) in
    let buf = splice buf 20 (be_bytes 4 qty) in
    let buf = splice buf 32 (be_bytes 4 price) in take 44 (splice buf 36 (be_bytes 8 match_number))

unfoldable pub create_itch_packet :
    (msg_type locate id qty price match_number side : ℕ) → Text → Outcome (List ℕ)
create_itch_packet msg_type locate id qty price match_number side symbol =
    if msg_type == b'R'
    then ok (stock_directory_packet locate symbol)
    else if msg_type == b'A'
    then ok (add_order_packet locate id qty price side)
    else if msg_type == b'E'
    then ok (order_executed_packet locate id qty match_number)
    else if msg_type == b'C'
    then ok (executed_with_price_packet locate id qty price match_number)
    else if msg_type == b'X'
    then ok (modify_order_packet locate id qty)
    else if msg_type == b'D'
    then ok (delete_order_packet locate id)
    else if msg_type == b'P'
    then ok (trade_packet locate qty price match_number side)
    else panic
