-- ===== src/Risk/Position.antt =====
-- The position limit, and when an order passes.
use hft_demo.Prelude.{
  ℕ, ◌-◌, ◌≤◌, ◌≡◌, ◌↔◌, refl, Option, none, arith, Build, ok, if◌then◌else◌, ap, false, Bool-cases,
  inl, inr, ◌⊎◌, Option-cases, ltb, ◌∙◌, true,
}
use hft_demo.Prelude.Int.{ℤ, pos, ◌+ℤ◌, ◌-ℤ◌, ◌≤ℤ◌, int_laws, ltb_ℤ}
use hft_demo.Prelude.Word.{i32_half, as_i32-pos, signed_result-ok, add_signed, abs_signed}
use hft_demo.Prelude.Float.{FloatOps}
use hft_demo.Common.{OrderSide, OrderCommand}
use hft_demo.Risk.{
  LocalRisk, RiskDecision, Reason, pass, fail, qty_exceeds, position_exceeds, check, signed_qty,
  outside_band, decide_position,
}

-- The change of position by an order that is filled in full.
abbrev pub signed : OrderSide → ℕ → ℤ
signed OrderSide.buy qty = pos qty
signed OrderSide.sell qty = pos 0 -ℤ pos qty

module _ (f : FloatOps) where
  -- The position is within the limit on both sides, and an order of the largest size cannot overflow it.
  pub record IsSafe (r : LocalRisk f) : Type 0 where
    pub limited : r.current_position ≤ℤ r.max_absolute_position
    pub limited_short : pos 0 ≤ℤ r.current_position +ℤ r.max_absolute_position
    pub no_overflow : r.max_absolute_position +ℤ pos r.max_qty_per_order ≤ℤ pos (i32_half - 1)

  -- No step of the projection overflows.
  projected_ok :
      (b : Build) (r : LocalRisk f) (side : OrderSide) (qty : ℕ)
      → IsSafe r
      → qty ≤ r.max_qty_per_order
      → (signed_qty b side qty ≡ ok (signed side qty))
        × (add_signed i32_half b r.current_position (signed side qty)
            ≡ ok (r.current_position +ℤ signed side qty))
  projected_ok b r OrderSide.buy qty s h = (
    ap ok (as_i32-pos qty (omega int_laws)),
    signed_result-ok i32_half b _ (omega int_laws) (omega int_laws),
  )
  projected_ok b r OrderSide.sell qty s h = (
    rw (as_i32-pos qty (omega int_laws))
        (signed_result-ok i32_half b _ (omega int_laws) (omega int_laws)),
    signed_result-ok i32_half b _ (omega int_laws) (omega int_laws),
  )

  -- The absolute value that the limit is compared with.
  abs_ok :
      (b : Build) (z : ℤ)
      → z ≤ℤ pos (i32_half - 1)
      → pos 0 ≤ℤ z +ℤ pos (i32_half - 1)
      → abs_signed i32_half b z ≡ ok (if ltb_ℤ z (pos 0) then pos 0 -ℤ z else z)
  abs_ok b z hi lo = elim (Bool-cases (ltb_ℤ z (pos 0))) [
    | inl e ↦ rw e (signed_result-ok i32_half b _ (grind int_laws) (grind int_laws))
    | inr e ↦ rw e
  ]

  within_iff :
      (m z : ℤ)
      → (ltb_ℤ m (if ltb_ℤ z (pos 0) then pos 0 -ℤ z else z) ≡ false)
        ↔ ((z ≤ℤ m) × (pos 0 ≤ℤ z +ℤ m))
  unfolding ◌+ℤ◌ ◌-ℤ◌
  within_iff m z = ground arith

  abbrev magnitude : ℤ → ℤ
  magnitude z = if ltb_ℤ z (pos 0) then pos 0 -ℤ z else z

  projected_range :
      (r : LocalRisk f) (side : OrderSide) (qty : ℕ)
      → IsSafe r
      → qty ≤ r.max_qty_per_order
      → (r.current_position +ℤ signed side qty ≤ℤ pos (i32_half - 1))
        × (pos 0 ≤ℤ r.current_position +ℤ signed side qty +ℤ pos (i32_half - 1))
  projected_range r OrderSide.buy qty s h = (omega int_laws, omega int_laws)
  projected_range r OrderSide.sell qty s h = (omega int_laws, omega int_laws)

  -- An order of an allowed size goes on to the position limit with the exact projected position.
  check_allowed :
      (b : Build) (r : LocalRisk f) (cmd : OrderCommand) (bid ask : Option (ℕ × ℕ))
      → IsSafe r
      → cmd.quantity ≤ r.max_qty_per_order
      → let projected = r.current_position +ℤ signed cmd.side cmd.quantity in
        check f b r cmd bid ask ≡ decide_position f r cmd bid ask projected (magnitude projected)
  unfolding check
  check_allowed b r cmd bid ask s h =
      let projected : ℤ = r.current_position +ℤ signed cmd.side cmd.quantity in
      let (d, p) = projected_ok b r cmd.side cmd.quantity s h in
      let (hi, lo) = projected_range r cmd.side cmd.quantity s h in
      ground (arith, d, p, abs_ok b projected hi lo)

  -- What a check leaves: a safe state with the same limits and price band, and the same position too unless the
  -- order passes.
  abbrev pub Leaves : LocalRisk f → LocalRisk f → RiskDecision → Type 0
  Leaves r r' d =
      IsSafe r'
      × (r'.max_qty_per_order ≡ r.max_qty_per_order)
      × (r'.max_absolute_position ≡ r.max_absolute_position)
      × (r'.price_band_percentage ≡ r.price_band_percentage)
      × ((d ≡ pass) ⊎ (r'.current_position ≡ r.current_position))

  decide_position-Leaves :
      (r : LocalRisk f) (cmd : OrderCommand) (bid ask : Option (ℕ × ℕ)) (projected : ℤ)
      → IsSafe r
      → (r' : LocalRisk f) × (d : RiskDecision) × (decide_position f r cmd bid ask projected
            (magnitude projected)
          ≡ ok (r', d))
        × Leaves r r' d
  unfolding decide_position
  decide_position-Leaves r cmd bid ask z s =
      elim (Bool-cases (ltb_ℤ r.max_absolute_position (magnitude z))) [
        | inl e ↦ (
          r,
          fail (position_exceeds z r.max_absolute_position),
          rw e,
          (s, refl, refl, refl, inr refl),
        )
        | inr e ↦
            elim (Option-cases
              (outside_band f r.price_band_percentage cmd.side cmd.price bid ask)) [
                | inl inside ↦
                    let (top, low) = (within_iff r.max_absolute_position z).0 e in
                    (
                      record r { current_position = z },
                      pass,
                      rw (e, inside),
                      (
                        record { limited = top; limited_short = low; no_overflow = s.no_overflow },
                        refl,
                        refl,
                        refl,
                        inl refl,
                      ),
                    )
                | inr (reason, outside) ↦
                    (r, fail reason, rw (e, outside), (s, refl, refl, refl, inr refl))
              ]
      ]

  -- From a safe state the check never panics, whatever the order and the book: it leaves a safe state
  -- with the same limits and price band, and the same position too unless the order passes.
  pub check-IsSafe :
      (b : Build) (r : LocalRisk f) (cmd : OrderCommand) (bid ask : Option (ℕ × ℕ))
      → IsSafe r
      → (r' : LocalRisk f) × (d : RiskDecision) × (check f b r cmd bid ask ≡ ok (r', d))
        × Leaves r r' d
  unfolding check
  check-IsSafe b r cmd bid ask s = elim (Bool-cases (ltb r.max_qty_per_order cmd.quantity)) [
    | inl e ↦ (
      r,
      fail (qty_exceeds cmd.quantity r.max_qty_per_order),
      too_large e,
      (s, refl, refl, refl, inr refl),
    )
    | inr e ↦
        let (r', d, h, leaves) =
          decide_position-Leaves r cmd bid ask (r.current_position +ℤ signed cmd.side cmd.quantity)
            s in
        (r', d, check_allowed b r cmd bid ask s (ground arith) ∙ h, leaves)
  ]
    where
      too_large :
          ltb r.max_qty_per_order cmd.quantity ≡ true
          → check f b r cmd bid ask ≡ ok (r, fail (qty_exceeds cmd.quantity r.max_qty_per_order))
      too_large e = rw (e, check)

  -- A rejected order leaves the engine as it was, from any state.
  pub check-fail :
      (b : Build) (r r' : LocalRisk f) (cmd : OrderCommand) (bid ask : Option (ℕ × ℕ))
      (reason : Reason)
      → check f b r cmd bid ask ≡ ok (r', fail reason)
      → r' ≡ r
  unfolding check decide_position
  check-fail b r r' cmd bid ask reason e = ground arith

  -- What an order that passed tells.
  pub check-passed :
      (b : Build) (r r' : LocalRisk f) (cmd : OrderCommand) (bid ask : Option (ℕ × ℕ))
      → IsSafe r
      → check f b r cmd bid ask ≡ ok (r', pass)
      → (cmd.quantity ≤ r.max_qty_per_order)
        × (r' ≡ record r { current_position = r.current_position +ℤ signed cmd.side cmd.quantity })
        × (outside_band f r.price_band_percentage cmd.side cmd.price bid ask ≡ none)
  check-passed b r r' cmd bid ask s e = elim (Bool-cases (ltb r.max_qty_per_order cmd.quantity)) [
    | inl over ↦ absurd (unfold check in ground (arith, over))
    | inr fits ↦
        let same = check_allowed b r cmd bid ask s (ground arith) in
        unfold decide_position in ground (arith, same)
  ]
