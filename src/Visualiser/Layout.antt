-- ===== src/Visualiser/Layout.antt =====
-- The 32 bytes of a `TelemetryPayload`, as the engines write them.
use native.Mathlib.Nat.{mod-lt}
use hft_demo.Prelude.Bytes.{span, le_bytes}
use hft_demo.Prelude.Word.{i64_half, i32_half, signed_of, pattern_of, u32_mod, u64_mod}
use hft_demo.Common.{TelemetryPayload, payload_bytes}
use hft_demo.Visualiser.Defs.{payload_of}
use hft_demo.Prelude.Layout.{word_at, word_at-here, word_at-there}
use hft_demo.Prelude.Int.{ℤ, pos, negsuc, Fits, int_laws}
use hft_demo.Prelude.{refl, ◌∙◌, ◌∷◌, ◌<◌, List, ℕ, ◌++◌, ◌≡◌, arith}
use mathlib.Core.List.{append_assoc}

-- Each field fits its type.
pub record PayloadFits (p : TelemetryPayload) : Type 0 where
  pub timestamp_ns : p.timestamp_ns < span 8
  pub realised_pnl : Fits i64_half p.realised_pnl
  pub midpoint_px : p.midpoint_px < span 4
  pub position : Fits i32_half p.position
  pub latency_ns : p.latency_ns < span 4
  pub locate_id : p.locate_id < span 2

-- An integer is the signed reading of its bit pattern.
signed_64 : (z : ℤ) → Fits i64_half z → signed_of i64_half (pattern_of u64_mod z) ≡ z
signed_64 (pos n) h = let small : n < i64_half = omega (int_laws, h.0) in ground (arith, small)
signed_64 (negsuc n) h = let small : n < i64_half = omega (int_laws, h.1) in ground (arith, small)

signed_32 : (z : ℤ) → Fits i32_half z → signed_of i32_half (pattern_of u32_mod z) ≡ z
signed_32 (pos n) h = let small : n < i32_half = omega (int_laws, h.0) in ground (arith, small)
signed_32 (negsuc n) h = let small : n < i32_half = omega (int_laws, h.1) in ground (arith, small)

pattern-lt : (m : ℕ) (z : ℤ) → 0 < m → pattern_of m z < m
pattern-lt m (pos n) h = mod-lt n h
pattern-lt m (negsuc n) h = omega (arith, h)

-- A record of the telemetry read from its bytes is the record, whatever stands behind them.
pub payload_of-payload_bytes :
    (p : TelemetryPayload) (rest : List ℕ)
    → PayloadFits p
    → payload_of (payload_bytes p ++ rest) ≡ p
unfolding payload_of payload_bytes
payload_of-payload_bytes p rest fits =
    let pnl : ℕ = pattern_of u64_mod p.realised_pnl in
    let at : ℕ = pattern_of u32_mod p.position in
    let e5 : List ℕ = le_bytes 2 p.locate_id ++ (0 ∷ 0 ∷ rest) in
    let e4 : List ℕ = le_bytes 4 p.latency_ns ++ e5 in
    let e3 : List ℕ = le_bytes 4 at ++ e4 in
    let e2 : List ℕ = le_bytes 4 p.midpoint_px ++ e3 in
    let e1 : List ℕ = le_bytes 8 pnl ++ e2 in
    let flat : payload_bytes p ++ rest ≡ le_bytes 8 p.timestamp_ns ++ e1 =
      simp (append_assoc {0}) refl in
    let time = word_at-here 8 p.timestamp_ns e1 fits.timestamp_ns in
    let worth =
      word_at-there 8 8 0 p.timestamp_ns e1
      ∙ (word_at-here 8 pnl e2 (pattern-lt u64_mod p.realised_pnl (omega arith))) in
    let price =
      word_at-there 4 8 8 p.timestamp_ns e1
      ∙ (word_at-there 4 8 0 pnl e2 ∙ (word_at-here 4 p.midpoint_px e3 fits.midpoint_px)) in
    let place =
      word_at-there 4 8 12 p.timestamp_ns e1
      ∙ (word_at-there 4 8 4 pnl e2
          ∙ (word_at-there 4 4 0 p.midpoint_px e3
              ∙ (word_at-here 4 at e4 (pattern-lt u32_mod p.position (omega arith))))) in
    let delay =
      word_at-there 4 8 16 p.timestamp_ns e1
      ∙ (word_at-there 4 8 8 pnl e2
          ∙ (word_at-there 4 4 4 p.midpoint_px e3
              ∙ (word_at-there 4 4 0 at e4 ∙ (word_at-here 4 p.latency_ns e5 fits.latency_ns)))) in
    let locate =
      word_at-there 2 8 20 p.timestamp_ns e1
      ∙ (word_at-there 2 8 12 pnl e2
          ∙ (word_at-there 2 4 8 p.midpoint_px e3
              ∙ (word_at-there 2 4 4 at e4
                  ∙ (word_at-there 2 4 0 p.latency_ns e5
                      ∙ (word_at-here 2 p.locate_id (0 ∷ 0 ∷ rest) fits.locate_id))))) in
    rw flat (
      unfold word_at in
      ground (
        arith,
        time,
        worth,
        price,
        place,
        delay,
        locate,
        signed_64 p.realised_pnl fits.realised_pnl,
        signed_32 p.position fits.position,
      ))
