-- ===== src/Live/Sending.antt =====
-- The orders of the engine on their way to the exchange's process.
use hft_demo.Risk.Position.{check-passed}
use hft_demo.Market.Orders.{handle_event-Sends}
use hft_demo.Market.Safety.{HasLimits}
use hft_demo.Itch.{ItchMessage}
use hft_demo.Market.{MessageAnalyticsWriter, SymbolProcessor, World, handle_event}
use hft_demo.Strategies.{Strategy}
use hft_demo.Prelude.Bytes.{length-le_bytes}
use hft_demo.Prelude.Float.{FloatOps}
use hft_demo.Prelude.Word.{u64_mod}
use hft_demo.Ring.{ShmRing, slot_size}
use hft_demo.Common.{OrderCommand, as_bytes}
use hft_demo.Live.Gateway.{ShmGateway, send_order, live_gateway}
use hft_demo.Ring.Served.{Serves, write-Serves}
use hft_demo.Prelude.Mask.{pow2}
use hft_demo.Prelude.{
  refl, [], ◌∷◌, ◌≡◌, Build, length, ℕ, List, ok, ◌+◌, ◌++◌, ◌%◌, arith, ◌*◌, ◌≤◌, ◌<◌,
  length-append, ◌⊎◌, inl, inr,
}

-- The ring of the orders, seen from the gateway: 2^k slots, of which the next is mapped.
pub record Outbound (k : ℕ) (g : ShmGateway) (sent : List OrderCommand) : Type 0 where
  pub slots : g.outbound_shm.capacity ≡ pow2 k
  pub serves : Serves as_bytes k g.outbound_shm.mmap sent
  pub room : slot_size + length sent % pow2 k * slot_size + slot_size ≤ g.outbound_shm.mmap.mapped
  pub countable : length sent + 1 < u64_mod

length-as_bytes : (cmd : OrderCommand) → length (as_bytes cmd) ≡ 22
unfolding as_bytes
length-as_bytes cmd = simp (length-append, length-le_bytes) refl

-- An order that is sent goes out behind the others, and nothing else changes.
pub send_order-sent :
    (b : Build) (clock : ℕ → ℕ) (k : ℕ) (g : ShmGateway) (sent : List OrderCommand)
    (cmd : OrderCommand)
    → Outbound k g sent
    → (r : ShmRing) × (send_order b clock g cmd ≡ ok (record g { outbound_shm = r }))
      × Serves as_bytes k r.mmap (sent ++ (cmd ∷ []))
unfolding send_order
send_order-sent b clock k g sent cmd h =
    let (m, written, serves) =
      write-Serves as_bytes b k g.outbound_shm sent (clock g.outbound_shm.mmap.head) cmd h.slots
        h.serves h.room (omega (arith, length-as_bytes cmd)) h.countable in
    (record g.outbound_shm { mmap = m }, rw written refl, serves)

module _ (f : FloatOps) (st : Strategy) (wr : MessageAnalyticsWriter) (b : Build)
    (clock : ℕ → ℕ) where
  -- The order that an event sends, if any.
  abbrev pub Sent : ℕ → ShmGateway → ShmGateway → List OrderCommand → Type 0
  Sent k g g' sent =
      (g' ≡ g)
      ⊎ ((cmd : OrderCommand) × (r : ShmRing) × (g' ≡ record g { outbound_shm = r })
          × (cmd.quantity ≤ 1000)
          × Serves as_bytes k r.mmap (sent ++ (cmd ∷ [])))

  -- An event of a processor within its limits, while the next slot of the ring of the orders is
  -- mapped, leaves the live gateway as it was, or puts one order of at most 1000 shares behind the
  -- others on that ring, and changes nothing else of the gateway.
  pub event-Sent :
      (k : ℕ) (p p' : SymbolProcessor f st) (w w' : World f st (live_gateway b clock) wr)
      (msg : ItchMessage) (now : ℕ) (sent : List OrderCommand)
      → HasLimits f st wr (live_gateway b clock) p
      → Outbound k w.gateway sent
      → handle_event f st (live_gateway b clock) wr b (p, w) msg now ≡ ok (p', w')
      → Sent k w.gateway w'.gateway sent
  event-Sent k p p' w w' msg now sent limits h e =
      let (sends, _) = handle_event-Sends f st (live_gateway b clock) wr b p p' w w' msg now e in
      elim sends [
        | inl one ↦
            let cmd : OrderCommand = record one.answer {
              symbol_locate = p.stock_locate;
              order_id = w.global_order_id;
            } in
            let (small, _, _) =
              check-passed f b p.risk_engine p'.risk_engine _ _ _ limits.safe one.passed in
            let (r, went, serves) = send_order-sent b clock k w.gateway sent cmd h in
            inr (
              cmd,
              r,
              ground (arith, one.sent, went),
              omega (arith, limits.qty_limit, small),
              serves,
            )
        | inr nothing ↦ inl nothing.same_gateway
      ]
