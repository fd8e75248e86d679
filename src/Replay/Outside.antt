-- ===== src/Replay/Outside.antt =====
-- The outside of the replay: its exchange and its strategy in a release build, and the room of its
-- telemetry ring.
use native.Mathlib.Nat.{mod-eq_of_lt}
use hft_demo.Prelude.Word.{signed_result-release, i64_half, i32_half, u64_mod, as_i32}
use hft_demo.Prelude.Mask.{pow2}
use hft_demo.Prelude.Int.{ℤ, ◌-ℤ◌, pos, ◌*ℤ◌, ◌+ℤ◌}
use hft_demo.Ring.{ShmRing, slot_size, Slot, update, fill}
use hft_demo.Strategies.{simple_mid_point}
use hft_demo.Prelude.Float.{FloatOps}
use hft_demo.Prelude.{
  ℕ, List, Gives, length, suc, ◌≤◌, Returns, release, ◌≡◌, bind-Returns_both, ◌+◌, arith, ◌%◌,
  bind-Returns, ◌*◌, ◌<◌, length-append, ◌∷◌, refl, [], ap, Build,
}
use hft_demo.Common.{
  OrderCommand, OrderSide, ExecutionReport, TelemetryPayload, payload_bytes, length-payload_bytes,
}
use hft_demo.Market.Release.Event.{Outside, Left}
use hft_demo.Ring.Create.{slot_index-eq}
use hft_demo.Ring
use hft_demo.Replay.Gateway.{
  ReplayGateway, send_order, settle, replay_gateway, telemetry_writer, write_telemetry, poll_fills,
  fill_of, pop_fill,
}
use hft_demo.Strategies.Release.{on_book_update-Returns, on_trade-Returns}

settle-Returns :
    (side : OrderSide) (cash position value : ℤ) (quantity : ℕ)
    → Returns (settle release side cash position value quantity)
unfolding settle
settle-Returns OrderSide.buy cash position value quantity =
    bind-Returns_both _ _ (signed_result-release i64_half (cash -ℤ value)) (λ c.
      bind-Returns_both _ _ (signed_result-release i32_half (position +ℤ as_i32 quantity))
        (λ p. (_, refl)))
settle-Returns OrderSide.sell cash position value quantity =
    bind-Returns_both _ _ (signed_result-release i64_half (cash +ℤ value)) (λ c.
      bind-Returns_both _ _ (signed_result-release i32_half (position -ℤ as_i32 quantity))
        (λ p. (_, refl)))

-- The fills that wait.
abbrev pub waiting : ReplayGateway → ℕ
waiting g = length g.pending_fills

pub send_order-Gives :
    (g : ReplayGateway) (cmd : OrderCommand)
    → Gives (λ g'. waiting g' ≤ waiting g + 1) (send_order release g cmd)
unfolding send_order
send_order-Gives g cmd =
    bind-Returns _ _ (signed_result-release i64_half (pos cmd.quantity *ℤ pos cmd.price)) (λ value.
      bind-Returns _ _ (settle-Returns cmd.side _ _ value cmd.quantity) (λ (cash, position).
        (_, refl, omega (arith, length-append g.pending_fills (fill_of cmd ∷ [])))))

pub polls-Left : (g : ReplayGateway) → Left (waiting g) (poll_fills g).1 (waiting (poll_fills g).0)
polls-Left g = popped g.pending_fills refl
  where
    popped :
        (fills : List ExecutionReport)
        → fills ≡ g.pending_fills
        → Left (length fills) (pop_fill g fills).1 (waiting (pop_fill g fills).0)
    popped [] e = omega (arith, ap (λ (xs : List ExecutionReport). length xs) e)
    popped (report ∷ reports) e = omega arith

-- A ring as a producer makes it of 64 * 2^k bytes, with room for `n` messages before its last slot.
pub record HasRoom (k n : ℕ) (r : ShmRing) : Type 0 where
  pub counts : r.capacity ≡ pow2 k
  pub mapped : r.mmap.mapped ≡ slot_size * pow2 k
  pub room : r.mmap.head + n < pow2 k
  pub countable : pow2 k < u64_mod

write-HasRoom :
    (b : Build) (k n now : ℕ) (r : ShmRing) (packet : List ℕ)
    → HasRoom k (suc n) r
    → length packet ≤ 54
    → Gives (HasRoom k n) (Ring.write b r now packet)
unfolding Ring.write
write-HasRoom b k n now r packet h short =
    let head : ℕ = r.mmap.head in
    let low : head % pow2 k ≡ head = mod-eq_of_lt (omega (arith, h.room)) in
    let i : ℕ = head in
    let slots' : ℕ → Slot = update r.mmap.slots i (fill now packet (r.mmap.slots i)) in
    (
      record r { mmap = record r.mmap { slots = slots'; head = head + 1 } },
      ground (arith, slot_index-eq b r k head h.counts, low, h.mapped, h.room, h.countable, short),
      record {
        counts = h.counts;
        mapped = h.mapped;
        room = omega (arith, h.room);
        countable = h.countable;
      },
    )

module _ (f : FloatOps) (clock : ℕ → ℕ) (k : ℕ) where
  pub telemetry-Gives :
      (b : Build) (n : ℕ) (r : ShmRing) (t : TelemetryPayload)
      → HasRoom k (suc n) r
      → Gives (HasRoom k n) (write_telemetry b clock r (payload_bytes t))
  unfolding write_telemetry
  telemetry-Gives b n r t h =
      write-HasRoom b k n (clock r.mmap.head) r (payload_bytes t) h
        (omega (arith, length-payload_bytes t))

  abbrev pub replay_outside :
      Outside (simple_mid_point f) (replay_gateway release) (telemetry_writer release clock)
  replay_outside = record {
    waiting = waiting;
    Room = HasRoom k;
    less_room = λ n r h. record {
      counts = h.counts;
      mapped = h.mapped;
      room = omega (arith, h.room);
      countable = h.countable;
    };
    answers = on_book_update-Returns f;
    trades = on_trade-Returns f;
    sends = send_order-Gives;
    polls = λ g. (poll_fills g, refl, polls-Left g);
    writes = telemetry-Gives release;
  }
