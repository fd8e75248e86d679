-- ===== src/Replay/Ledger.antt =====
-- The accounts of the replay's exchange against the orders that it was sent.
use mathlib.Core.Path.{subst}
use mathlib.Core.List.{append-nil, append_assoc, map-append}
use hft_demo.Prelude.Map.{lookup, insert, lookup-insert}
use hft_demo.Risk.Position.{signed}
use hft_demo.Prelude.Word.{i32_half, i64_half, as_i32-pos, u32_mod, signed_result-ok}
use hft_demo.Prelude.Int.{
  ℤ, ◌+ℤ◌, pos, ◌-ℤ◌, int_laws, add_zero, Fits, add_negated, mul_pos, zero_add, add_assoc,
}
use hft_demo.Common.{OrderSide, OrderCommand, ExecutionReport}
use hft_demo.Replay.Gateway.{
  settle, ReplayGateway, fill_of, get_position, get_cash_balance, poll_fills, send_order, pop_fill,
}
use native.Mathlib.Nat.{mul-le-mul}
use hft_demo.Prelude.{
  ℕ, none, some, [], refl, Option, List, Build, ◌++◌, ◌<◌, ◌∷◌, ◌≡◌, ◌*◌, map, if◌then◌else◌, ◌==◌,
  ok, arith, ◌⊎◌, ◌≤◌, inl, inr, ==_iff, sym, ◌∙◌, ap,
}

-- The change of cash by an order that is worth `value`.
abbrev pub payment : OrderSide → ℕ → ℤ
payment OrderSide.buy value = pos 0 -ℤ pos value
payment OrderSide.sell value = pos value

-- What a list of orders, oldest first, changes for the stock `l`, and its last price.
unfoldable pub total_at : (OrderCommand → ℤ) → ℕ → List OrderCommand → ℤ
total_at change l [] = pos 0
total_at change l (c ∷ cs) =
    (if l == c.symbol_locate then change c else pos 0) +ℤ total_at change l cs

abbrev pub shares : ℕ → List OrderCommand → ℤ
shares = total_at (λ c. signed c.side c.quantity)

abbrev pub cash : ℕ → List OrderCommand → ℤ
cash = total_at (λ c. payment c.side (c.quantity * c.price))

unfoldable pub last_price : ℕ → Option ℕ → List OrderCommand → Option ℕ
last_price l found [] = found
last_price l found (c ∷ cs) = last_price l (if l == c.symbol_locate then some c.price else found) cs

-- The accounts are those of the orders, and the fills taken and pending are theirs, in order.
pub record Books (g : ReplayGateway) (taken : List ExecutionReport) (sent : List OrderCommand)
    : Type 0 where
  pub fills : taken ++ g.pending_fills ≡ map fill_of sent
  pub positions : (l : ℕ) → get_position g l ≡ shares l sent
  pub balances : (l : ℕ) → get_cash_balance g l ≡ cash l sent
  pub prices : (l : ℕ) → lookup l g.last_prices ≡ last_price l none sent

total_at-snoc :
    (change : OrderCommand → ℤ) (l : ℕ) (cs : List OrderCommand) (c : OrderCommand)
    → total_at change l (cs ++ (c ∷ []))
      ≡ (if l == c.symbol_locate then total_at change l cs +ℤ change c else total_at change l cs)
unfolding total_at
total_at-snoc change l [] c =
    ground (arith, add_zero (change c), zero_add (change c), zero_add (pos 0))
total_at-snoc change l (d ∷ ds) c =
    let first : ℤ = if l == d.symbol_locate then change d else pos 0 in
    ground (arith, total_at-snoc change l ds c, add_assoc first (total_at change l ds) (change c))

last_price-snoc :
    (l : ℕ) (cs : List OrderCommand) (c : OrderCommand) (found : Option ℕ)
    → last_price l found (cs ++ (c ∷ []))
      ≡ (if l == c.symbol_locate then some c.price else last_price l found cs)
unfolding last_price
last_price-snoc l [] c found = refl
last_price-snoc l (d ∷ ds) c found =
    last_price-snoc l ds c (if l == d.symbol_locate then some d.price else found)

-- The accounts after one order, where no step overflows.
settled :
    (b : Build) (side : OrderSide) (money position : ℤ) (value quantity : ℕ)
    → quantity < i32_half
    → Fits i64_half (money +ℤ payment side value)
    → Fits i32_half (position +ℤ signed side quantity)
    → settle b side money position (pos value) quantity
      ≡ ok (money +ℤ payment side value, position +ℤ signed side quantity)
unfolding settle
settled b OrderSide.buy money position value quantity small fm fp = rw (
  ← add_negated money (pos value),
  as_i32-pos quantity small,
  signed_result-ok i64_half b (money +ℤ (pos 0 -ℤ pos value)) fm.0 fm.1,
  signed_result-ok i32_half b (position +ℤ pos quantity) fp.0 fp.1,
)
settled b OrderSide.sell money position value quantity small fm fp = rw (
  as_i32-pos quantity small,
  ← add_negated position (pos quantity),
  signed_result-ok i64_half b (money +ℤ pos value) fm.0 fm.1,
  signed_result-ok i32_half b (position +ℤ (pos 0 -ℤ pos quantity)) fp.0 fp.1,
)

product_fits : (q p : ℕ) → q < i32_half → p < u32_mod → q * p < i64_half
product_fits q p hq hp =
    let top : q * p ≤ 9223372030412324865 =
      mul-le-mul {n₁ = q} {m₁ = p} {n₂ = 2147483647} {m₂ = 4294967295} (omega arith)
        (omega arith) in
    omega (arith, top)

queued :
    (taken pending : List ExecutionReport) (sent : List OrderCommand) (cmd : OrderCommand)
    → taken ++ pending ≡ map fill_of sent
    → taken ++ (pending ++ (fill_of cmd ∷ [])) ≡ map fill_of (sent ++ (cmd ∷ []))
queued taken pending sent cmd e =
    sym (append_assoc taken pending (fill_of cmd ∷ []))
    ∙ (ap (λ fs. fs ++ (fill_of cmd ∷ [])) e ∙ sym (map-append fill_of sent (cmd ∷ [])))

-- An order that overflows none of the accounts is accepted by both builds: the shares and the cash
-- of its stock change by it, its price is the stock's last, and its fill joins the end of the
-- queue; the accounts are those of all the orders sent.
pub send_order-Books :
    (b : Build) (g : ReplayGateway) (taken : List ExecutionReport) (sent : List OrderCommand)
    (cmd : OrderCommand)
    → Books g taken sent
    → cmd.quantity < i32_half
    → cmd.price < u32_mod
    → Fits i64_half (cash cmd.symbol_locate (sent ++ (cmd ∷ [])))
    → Fits i32_half (shares cmd.symbol_locate (sent ++ (cmd ∷ [])))
    → (g' : ReplayGateway) × (send_order b g cmd ≡ ok g') × Books g' taken (sent ++ (cmd ∷ []))
unfolding send_order
send_order-Books b g taken sent cmd h small cheap fm fp =
    let l : ℕ = cmd.symbol_locate in
    let value : ℕ = cmd.quantity * cmd.price in
    let money : ℤ = get_cash_balance g l +ℤ payment cmd.side value in
    let position : ℤ = get_position g l +ℤ signed cmd.side cmd.quantity in
    let paid : money ≡ cash l (sent ++ (cmd ∷ [])) = ground (
      arith,
      total_at-snoc (λ c. payment c.side (c.quantity * c.price)) l sent cmd,
      h.balances l,
      ==_iff l l,
    ) in
    let moved : position ≡ shares l (sent ++ (cmd ∷ [])) = ground (
      arith,
      total_at-snoc (λ c. signed c.side c.quantity) l sent cmd,
      h.positions l,
      ==_iff l l,
    ) in
    (
      record {
        pending_fills = g.pending_fills ++ (fill_of cmd ∷ []);
        cash_balances = insert l money g.cash_balances;
        positions = insert l position g.positions;
        last_prices = insert l cmd.price g.last_prices;
      },
      rw (
        mul_pos cmd.quantity cmd.price,
        signed_result-ok i64_half b (pos value)
            (omega (int_laws, product_fits cmd.quantity cmd.price small cheap)) (omega int_laws),
        settled b cmd.side (get_cash_balance g l) (get_position g l) value cmd.quantity small
            (subst (Fits i64_half) (sym paid) fm) (subst (Fits i32_half) (sym moved) fp),
      ),
      record {
        fills = queued taken g.pending_fills sent cmd h.fills;
        positions = λ k. ground (
          arith,
          moved,
          lookup-insert k l position g.positions,
          total_at-snoc (λ c. signed c.side c.quantity) k sent cmd,
          h.positions k,
          ==_iff k l,
        );
        balances = λ k. ground (
          arith,
          paid,
          lookup-insert k l money g.cash_balances,
          total_at-snoc (λ c. payment c.side (c.quantity * c.price)) k sent cmd,
          h.balances k,
          ==_iff k l,
        );
        prices = λ k. ground (
          arith,
          lookup-insert k l cmd.price g.last_prices,
          last_price-snoc k sent cmd none,
          h.prices k,
        );
      },
    )

abbrev pub Polled :
    ReplayGateway
    → List ExecutionReport
    → List OrderCommand
    → ReplayGateway × Option ExecutionReport
    → Type 0
Polled g taken sent answer =
    ((answer ≡ (g, none)) × (taken ≡ map fill_of sent))
    ⊎ ((report : ExecutionReport) × (g' : ReplayGateway) × (answer ≡ (g', some report))
        × Books g' (taken ++ (report ∷ [])) sent)

popped :
    (g : ReplayGateway) (taken : List ExecutionReport) (sent : List OrderCommand)
    (reports : List ExecutionReport)
    → Books g taken sent
    → g.pending_fills ≡ reports
    → Polled g taken sent (pop_fill g reports)
popped g taken sent [] h e =
    inl (refl, sym (append-nil taken) ∙ (ap (λ fs. taken ++ fs) (sym e) ∙ h.fills))
popped g taken sent (report ∷ reports) h e = inr (
  report,
  record g { pending_fills = reports },
  refl,
  record {
    fills = append_assoc taken (report ∷ []) reports ∙ (ap (λ fs. taken ++ fs) (sym e) ∙ h.fills);
    positions = h.positions;
    balances = h.balances;
    prices = h.prices;
  },
)

-- Each poll takes the next fill, in the order in which the orders were sent, or finds none when all
-- are taken; the accounts stay.
pub poll_fills-Books :
    (g : ReplayGateway) (taken : List ExecutionReport) (sent : List OrderCommand)
    → Books g taken sent
    → Polled g taken sent (poll_fills g)
poll_fills-Books g taken sent h = popped g taken sent g.pending_fills h refl
