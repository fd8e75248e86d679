-- ===== src/Live/Layout.antt =====
-- The 19 bytes of an `ExecutionReport`, as the exchange's process writes them.
use hft_demo.Prelude.Bytes.{span, le_bytes}
use hft_demo.Common.{ExecutionReport}
use hft_demo.Live.Gateway.{report_of}
use hft_demo.Prelude.Layout.{word_at, word_at-here, word_at-there}
use hft_demo.Prelude.{refl, ◌∙◌, ◌<◌, List, ℕ, ◌++◌, ◌≡◌, arith}
use mathlib.Core.List.{append_assoc}

unfoldable pub report_bytes : ExecutionReport → List ℕ
report_bytes r =
    le_bytes 8 r.order_id
    ++ (le_bytes 4 r.last_qty
        ++ (le_bytes 4 r.last_price ++ (le_bytes 1 r.exec_type ++ le_bytes 2 r.stock_locate)))

-- Each field fits its type.
pub record ReportFits (r : ExecutionReport) : Type 0 where
  pub order_id : r.order_id < span 8
  pub last_qty : r.last_qty < span 4
  pub last_price : r.last_price < span 4
  pub exec_type : r.exec_type < span 1
  pub stock_locate : r.stock_locate < span 2

-- A report read from its bytes is the report, whatever stands behind them.
pub report_of-report_bytes :
    (r : ExecutionReport) (rest : List ℕ) → ReportFits r → report_of (report_bytes r ++ rest) ≡ r
unfolding report_of report_bytes
report_of-report_bytes r rest fits =
    let e4 : List ℕ = le_bytes 2 r.stock_locate ++ rest in
    let e3 : List ℕ = le_bytes 1 r.exec_type ++ e4 in
    let e2 : List ℕ = le_bytes 4 r.last_price ++ e3 in
    let e1 : List ℕ = le_bytes 4 r.last_qty ++ e2 in
    let flat : report_bytes r ++ rest ≡ le_bytes 8 r.order_id ++ e1 =
      simp (append_assoc {0}) refl in
    let id = word_at-here 8 r.order_id e1 fits.order_id in
    let qty = word_at-there 4 8 0 r.order_id e1 ∙ word_at-here 4 r.last_qty e2 fits.last_qty in
    let price =
      word_at-there 4 8 4 r.order_id e1
      ∙ (word_at-there 4 4 0 r.last_qty e2 ∙ word_at-here 4 r.last_price e3 fits.last_price) in
    let kind =
      word_at-there 1 8 8 r.order_id e1
      ∙ (word_at-there 1 4 4 r.last_qty e2
          ∙ (word_at-there 1 4 0 r.last_price e3 ∙ word_at-here 1 r.exec_type e4 fits.exec_type)) in
    let locate =
      word_at-there 2 8 9 r.order_id e1
      ∙ (word_at-there 2 4 5 r.last_qty e2
          ∙ (word_at-there 2 4 1 r.last_price e3
              ∙ (word_at-there 2 1 0 r.exec_type e4
                  ∙ word_at-here 2 r.stock_locate rest fits.stock_locate))) in
    rw flat unfold word_at in ground (arith, id, qty, price, kind, locate)
