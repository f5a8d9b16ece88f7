-- ===== src/Quoter/Pricing/Bounds.antt =====
-- Bounds of the quote prices (app/core/quoter.py): `quantize_price`, `calculate_spread_floor`, `clamp_quote`.
use pmm_simple.Prelude.{
  ◌≡◌, refl, sym, Bool, true, false, Option, none, some, arith, Bool-cases, inl, inr, if◌then◌else◌,
}
use pmm_simple.Float.{Float, FloatLaws, ◌+◌, ◌-◌, ◌*◌, ◌/◌, nought, lit, le, lt, min, max, ◌≼◌, ◌≺◌}
use pmm_simple.Float.Order
use pmm_simple.Quoter.Pricing.{
  PmmQuoter, ticks, quantize_price, calculate_spread_floor, max_allowed_bid, min_allowed_ask,
  clamp_bid, clamp_ask,
}

guard_some {ℓ} :
    {A : Type ℓ} (stop : Bool) (v p : A) → (if stop then none else some v) ≡ some p → v ≡ p
guard_some true v p h = cc
guard_some false v p h = cc

module _ {F : Type 0} ⦃f : Float F⦄ ⦃laws : FloatLaws F⦄ where
  open laws use {
    le_refl, le_trans, add_le, sub_le, mul_le, div_le, floor_le, ceil_le, round_le, lit_le,
  }

  ticks_le : (side : Option Bool) (x y : F) → x ≼ y → ticks side x ≼ ticks side y
  unfolding ticks
  ticks_le (some true) x y h = floor_le _ _ (add_le x y (lit 1 9) (lit 1 9) h (le_refl (lit 1 9)))
  ticks_le (some false) x y h = ceil_le _ _ (sub_le x y (lit 1 9) (lit 1 9) h (le_refl (lit 1 9)))
  ticks_le none x y h = round_le x y 0 h

  pub quantize_price_le :
      (q : PmmQuoter F) (side : Option Bool) (x y : F)
      → x ≼ y
      → quantize_price q side x ≼ quantize_price q side y
  unfolding quantize_price
  quantize_price_le q side x y h = elim (Bool-cases (le q.tick_size nought)) [
    | inl e ↦ rw e (round_le x y q.price_precision h)
    | inr e ↦ rw e (
        round_le _ _ q.price_precision (
          laws.mul_right_le (ticks side (x / q.tick_size)) (ticks side (y / q.tick_size))
            q.tick_size
            (ticks_le side (x / q.tick_size) (y / q.tick_size)
              (div_le x y q.tick_size h (rw e refl)))
            (Order.le_of_not_le q.tick_size nought e)))
  ]

  tick_pct_nonneg :
      (q : PmmQuoter F) (mid : F)
      → nought ≼ q.tick_size
      → nought ≼ (if lt nought mid then q.tick_size / mid else lit 1 4)
  tick_pct_nonneg q mid h = elim (Bool-cases (lt nought mid)) [
    | inl e ↦ rw e (Order.div_nonneg q.tick_size mid h e)
    | inr e ↦ rw e (lit_le 0 0 1 4 (omega arith))
  ]

  -- The spread floor is at least 0.25%, and covers the maker fees of both legs and the pair's minimum spread.
  pub calculate_spread_floor_covers :
      (q : PmmQuoter F) (mid : F)
      → nought ≼ q.tick_size
      → (lit 25 4 ≼ calculate_spread_floor q mid)
        × (lit 20 1 * q.maker_fee_pct + q.config.minimum_spread ≼ calculate_spread_floor q mid)
  unfolding calculate_spread_floor
  calculate_spread_floor_covers q mid h =
      let tick_pct = if lt nought mid then q.tick_size / mid else lit 1 4 in
      let buffer = max (lit 15 4) q.config.minimum_spread in
      let fees = lit 20 1 * q.maker_fee_pct in
      let ticks_nonneg : nought ≼ lit 20 1 * tick_pct =
        Order.mul_nonneg (lit 20 1) tick_pct (lit_le 0 0 20 1 (omega arith))
          (tick_pct_nonneg q mid h) in
      (
        Order.le-max_left {F = F} (lit 25 4) _,
        le_trans (fees + q.config.minimum_spread) (fees + buffer) _
            (add_le fees fees q.config.minimum_spread buffer (le_refl fees)
              (Order.le-max_right (lit 15 4) q.config.minimum_spread))
            (le_trans (fees + buffer) (lit 20 1 * tick_pct + fees + buffer) _
              (add_le fees (lit 20 1 * tick_pct + fees) buffer buffer
                (Order.le-add_left (lit 20 1 * tick_pct) fees ticks_nonneg) (le_refl buffer))
              (Order.le-max_right {F = F} (lit 25 4) _)),
      )

  bid_at_most_top :
      (q : PmmQuoter F) (raw mid floor : F) (bid ask : Option F) (p : F)
      → clamp_bid q raw mid floor bid ask ≡ some p
      → p ≼ quantize_price q (some true) (max_allowed_bid q mid floor bid ask)
  unfolding clamp_bid
  bid_at_most_top q raw mid floor bid ask p e =
      let top = max_allowed_bid q mid floor bid ask in
      let clamped = min (quantize_price q (some true) raw) top in
      let price_floor = q.config.price_floor in
      let floored = if lt nought price_floor then min (max price_floor clamped) top else clamped in
      let below : floored ≼ top = elim (Bool-cases (lt nought price_floor)) [
        | inl h ↦ rw h (Order.min-le_right (max price_floor clamped) top)
        | inr h ↦ rw h (Order.min-le_right (quantize_price q (some true) raw) top)
      ] in
      rw (sym (guard_some _ _ p e)) (quantize_price_le q (some true) floored top below)

  max_allowed_bid_le :
      (q : PmmQuoter F) (mid floor bid ask : F)
      → nought ≺ bid
      → nought ≺ ask
      → let top = max_allowed_bid q mid floor (some bid) (some ask) in
        (top ≼ quantize_price q (some true) (ask - q.tick_size))
        × (top ≼ quantize_price q (some true) bid)
  unfolding max_allowed_bid
  max_allowed_bid_le q mid floor bid ask hb ha =
      rw (hb, ha, max_allowed_bid)
        (
          le_trans _ _ (quantize_price q (some true) (ask - q.tick_size))
              (Order.min-le_left _ (quantize_price q (some true) bid))
              (Order.min-le_right _ (quantize_price q (some true) (ask - q.tick_size))),
          Order.min-le_right _ (quantize_price q (some true) bid),
        )

  -- A bid never crosses the book: it is at most the best ask less one tick, and at most the best bid, both
  -- rounded down to ticks twice, as the code does.
  pub clamp_bid_maker :
      (q : PmmQuoter F) (raw mid floor bid ask p : F)
      → nought ≺ bid
      → nought ≺ ask
      → clamp_bid q raw mid floor (some bid) (some ask) ≡ some p
      → let down = quantize_price q (some true) in
        (p ≼ down (down (ask - q.tick_size))) × (p ≼ down (down bid))
  clamp_bid_maker q raw mid floor bid ask p hb ha e =
      let down = quantize_price q (some true) in
      let top = max_allowed_bid q mid floor (some bid) (some ask) in
      let below = bid_at_most_top q raw mid floor (some bid) (some ask) p e in
      let tops = max_allowed_bid_le q mid floor bid ask hb ha in
      (
        le_trans p (down top) (down (down (ask - q.tick_size))) below
            (quantize_price_le q (some true) top (down (ask - q.tick_size)) tops.0),
        le_trans p (down top) (down (down bid)) below
            (quantize_price_le q (some true) top (down bid) tops.1),
      )

  ask_at_least_bottom :
      (q : PmmQuoter F) (raw mid floor : F) (bid ask : Option F) (p : F)
      → clamp_ask q raw mid floor bid ask ≡ some p
      → quantize_price q (some false) (min_allowed_ask q mid floor bid ask) ≼ p
  unfolding clamp_ask
  ask_at_least_bottom q raw mid floor bid ask p e =
      let bottom = min_allowed_ask q mid floor bid ask in
      let clamped = max (quantize_price q (some false) raw) bottom in
      let ceiling = q.config.price_ceiling in
      let capped = if lt nought ceiling then max (min ceiling clamped) bottom else clamped in
      let above : bottom ≼ capped = elim (Bool-cases (lt nought ceiling)) [
        | inl h ↦ rw h (Order.le-max_right (min ceiling clamped) bottom)
        | inr h ↦ rw h (Order.le-max_right (quantize_price q (some false) raw) bottom)
      ] in
      rw (sym (guard_some _ _ p e)) (quantize_price_le q (some false) bottom capped above)

  le-min_allowed_ask :
      (q : PmmQuoter F) (mid floor bid ask : F)
      → nought ≺ bid
      → nought ≺ ask
      → let bottom = min_allowed_ask q mid floor (some bid) (some ask) in
        (quantize_price q (some false) (bid + q.tick_size) ≼ bottom)
        × (quantize_price q (some false) ask ≼ bottom)
  unfolding min_allowed_ask
  le-min_allowed_ask q mid floor bid ask hb ha =
      rw (ha, hb, min_allowed_ask)
        (
          le_trans (quantize_price q (some false) (bid + q.tick_size)) _ _
              (Order.le-max_right _ (quantize_price q (some false) (bid + q.tick_size)))
              (Order.le-max_left _ (quantize_price q (some false) ask)),
          Order.le-max_right _ (quantize_price q (some false) ask),
        )

  -- An ask never crosses the book: it is at least the best bid plus one tick, and at least the best ask, both
  -- rounded up to ticks twice, as the code does.
  pub clamp_ask_maker :
      (q : PmmQuoter F) (raw mid floor bid ask p : F)
      → nought ≺ bid
      → nought ≺ ask
      → clamp_ask q raw mid floor (some bid) (some ask) ≡ some p
      → let up = quantize_price q (some false) in
        (up (up (bid + q.tick_size)) ≼ p) × (up (up ask) ≼ p)
  clamp_ask_maker q raw mid floor bid ask p hb ha e =
      let up = quantize_price q (some false) in
      let bottom = min_allowed_ask q mid floor (some bid) (some ask) in
      let above = ask_at_least_bottom q raw mid floor (some bid) (some ask) p e in
      let bottoms = le-min_allowed_ask q mid floor bid ask hb ha in
      (
        le_trans (up (up (bid + q.tick_size))) (up bottom) p
            (quantize_price_le q (some false) (up (bid + q.tick_size)) bottom bottoms.0) above,
        le_trans (up (up ask)) (up bottom) p
            (quantize_price_le q (some false) (up ask) bottom bottoms.1) above,
      )
