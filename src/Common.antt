-- ===== src/Common.antt =====
-- crates/common/src/lib.rs: the types that the crates share, and the memory layout of those that
-- cross a process boundary. Words lie in memory least significant byte first (x86-64).
use hft_demo.Prelude.{ℕ, List, [], ◌∷◌, ◌++◌, length, ◌≡◌, length-append, refl}
use hft_demo.Prelude.Bytes.{le_bytes, length-le_bytes}
use hft_demo.Prelude.Int.{ℤ}
use hft_demo.Prelude.Word.{u32_mod, u64_mod, pattern_of}

pub data Side : Type 0 where
  buy sell : Side

pub data AggressorSide : Type 0 where
  buyer seller : AggressorSide

-- `enum OrderSide`, with the discriminants Buy = 0 and Sell = 1.
pub data OrderSide : Type 0 where
  buy sell : OrderSide

abbrev pub discriminant : OrderSide → ℕ
discriminant OrderSide.buy = 0
discriminant OrderSide.sell = 1

pub record ExecutionReport : Type 0 where
  pub order_id : ℕ
  pub last_qty : ℕ
  pub last_price : ℕ
  pub exec_type : ℕ
  pub stock_locate : ℕ

pub record OrderCommand : Type 0 where
  pub symbol_locate : ℕ
  pub order_id : ℕ
  pub price : ℕ
  pub quantity : ℕ
  pub side : OrderSide

pub record TelemetryPayload : Type 0 where
  pub timestamp_ns : ℕ
  pub realised_pnl : ℤ
  pub midpoint_px : ℕ
  pub position : ℤ
  pub latency_ns : ℕ
  pub locate_id : ℕ

-- `OrderCommand::as_bytes`: the packed struct, 22 bytes; `side` is a C enum of 4 bytes.
unfoldable pub as_bytes : OrderCommand → List ℕ
as_bytes c =
    le_bytes 2 c.symbol_locate
    ++ (le_bytes 8 c.order_id
        ++ (le_bytes 4 c.price ++ (le_bytes 4 c.quantity ++ le_bytes 4 (discriminant c.side))))

-- The 32 bytes of a `TelemetryPayload`; the last two are padding, written as zero here.
unfoldable pub payload_bytes : TelemetryPayload → List ℕ
payload_bytes p =
    le_bytes 8 p.timestamp_ns
    ++ (le_bytes 8 (pattern_of u64_mod p.realised_pnl)
        ++ (le_bytes 4 p.midpoint_px
            ++ (le_bytes 4 (pattern_of u32_mod p.position)
                ++ (le_bytes 4 p.latency_ns ++ (le_bytes 2 p.locate_id ++ (0 ∷ 0 ∷ []))))))

pub length-payload_bytes : (p : TelemetryPayload) → length (payload_bytes p) ≡ 32
unfolding payload_bytes
length-payload_bytes p = simp (length-append, length-le_bytes) refl
