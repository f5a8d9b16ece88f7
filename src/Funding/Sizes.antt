-- ===== src/Funding/Sizes.antt =====
-- What the handlers of the funding-rate engine write into a position (app/core/fr_execution/engine.py): marks,
-- sizes and the status.
use pmm_simple.Prelude.{Bool, true, false, ◌&&◌, Option, none, some, if◌then◌else◌}
use pmm_simple.Float.{Float, ◌-◌, ◌*◌, nought, lt, eq, max}
use pmm_simple.Funding.Legs.{LegPositionState, DualLegPosition, flat, opened, closing, recalculate}
use pmm_simple.Funding.Orders.{set_status}

module _ {F : Type 0} ⦃f : Float F⦄ where
  -- `price or ref_price`
  abbrev pub price_or : F → F → F
  price_or p ref = if eq p nought then ref else p

  unfoldable pub is_open : DualLegPosition F → Bool
  is_open p = elim p.status [
    | opened ↦ lt nought p.long_leg.size && lt nought p.short_leg.size
    | _ ↦ false
  ]

  -- The marks of a HOLD: a price that is not positive changes nothing.
  unfoldable pub mark_legs : F → F → DualLegPosition F → DualLegPosition F
  mark_legs p_long p_short p =
      let l = p.long_leg in
      let s = p.short_leg in
      record p {
        long_leg = record l {
          mark_price = if lt nought p_long then p_long else l.mark_price;
          unrealized_pnl =
              if lt nought p_long && lt nought l.entry_price
              then (p_long - l.entry_price) * l.size
              else l.unrealized_pnl;
        };
        short_leg = record s {
          mark_price = if lt nought p_short then p_short else s.mark_price;
          unrealized_pnl =
              if lt nought p_short && lt nought s.entry_price
              then (s.entry_price - p_short) * s.size
              else s.unrealized_pnl;
        };
      }

  unfoldable pub shrink : F → LegPositionState F → LegPositionState F
  shrink qty leg = record leg { size = max nought (leg.size - qty) }

  -- The sizes after a REDUCE: each leg whose order was acknowledged.
  unfoldable pub reduce_legs : F → F → Bool → Bool → DualLegPosition F → DualLegPosition F
  unfolding shrink recalculate
  reduce_legs now qty long_reduced short_reduced p = recalculate now (record p {
    long_leg = if long_reduced then shrink qty p.long_leg else p.long_leg;
    short_leg = if short_reduced then shrink qty p.short_leg else p.short_leg;
  })

  -- The position after an EXIT: each leg that was closed, and the status.
  unfoldable pub exit_legs : F → Bool → Bool → DualLegPosition F → DualLegPosition F
  unfolding recalculate
  exit_legs now long_closed short_closed p =
      let legs : DualLegPosition F = record p {
        status = closing;
        long_leg = if long_closed then record (p.long_leg) { size = nought } else p.long_leg;
        short_leg = if short_closed then record (p.short_leg) { size = nought } else p.short_leg;
      } in
      set_status (if long_closed && short_closed then flat else closing) (recalculate now legs)

abbrev pub is_some : {A : Type 0} → Option A → Bool
is_some none = false
is_some (some a) = true
