-- ===== src/Vamm/Spreads.antt =====
-- The order of the spreads and barriers (app/core/vamm_calculator.py).
use pmm_simple.Prelude.{ℕ, ◌≡◌, refl, arith}
use pmm_simple.Float.{Float, FloatLaws, ◌*◌, nought, lit, ◌≼◌}
use pmm_simple.Float.Order
use pmm_simple.Vamm.{ladder, compute_dynamic_vamm, normalized_natr}
use Prim.Native.Nat.{pred}

module _ {F : Type 0} ⦃f : Float F⦄ ⦃laws : FloatLaws F⦄ where
  open laws use {le_refl, le_trans, lit_le, round_le}

  natr_nonneg : (natr : F) → nought ≼ normalized_natr natr
  natr_nonneg natr =
      le_trans nought (lit 1 4) (normalized_natr natr) (lit_le 0 0 1 4 (omega arith))
        (Order.le-max_left {F = F} (lit 1 4) _)

  -- The unrounded ladder: floor, base spread, outermost spread and stop loss stand in that order.
  ladder-ordered :
      (natr hurst maker taker : F)
      → let l = ladder natr hurst maker taker in
        (lit 25 4 ≼ l.s_floor) × (l.s_floor ≼ l.s_base) × (l.s_base ≼ l.s_max) × (l.s_max ≼ l.sl)
  unfolding ladder
  ladder-ordered natr hurst maker taker =
      let n = normalized_natr natr in
      let l = ladder natr hurst maker taker in
      let part : (k j : ℕ) → nought ≼ lit k j * n =
        λ k j. Order.mul_nonneg (lit k j) n (lit_le 0 0 k j (omega arith)) (natr_nonneg natr) in
      (
        Order.le-max_left {F = F} (lit 25 4) _,
        Order.le-max_left l.s_floor _,
        Order.le-add_right l.s_base _ (
            Order.mul_nonneg (lit (pred l.n_levels) 0) l.delta_s_step
              (lit_le 0 0 (pred l.n_levels) 0 (omega arith)) (part 45 2)),
        Order.le-add_right l.s_max _ (part 60 2),
      )

  -- Whatever the volatility, regime, margin and fees: the minimum spread is at least 0.25%, no quote spread
  -- is below it, the outermost level is not inside the first, and the stop loss is not inside the
  -- outermost level; take profit is at least 0.65%, and trailing starts at the take profit.
  pub compute_dynamic_vamm_ordered :
      (natr hurst margin : F) (leverage : ℕ) (maker taker : F)
      → let p = compute_dynamic_vamm natr hurst margin leverage maker taker in
        (f.round (lit 25 4) 6 ≼ p.minimum_spread)
        × (p.minimum_spread ≼ p.bid_spread)
        × (p.bid_spread ≼ p.s_max)
        × (p.s_max ≼ p.stop_loss)
        × (f.round (lit 65 4) 6 ≼ p.take_profit)
        × (p.trailing_tp_activation_pct ≡ p.take_profit)
        × (p.ask_spread ≡ p.bid_spread)
  unfolding compute_dynamic_vamm
  compute_dynamic_vamm_ordered natr hurst margin leverage maker taker =
      let o = ladder-ordered natr hurst maker taker in
      (
        round_le _ _ 6 o.0,
        round_le _ _ 6 o.1,
        round_le _ _ 6 o.2,
        round_le _ _ 6 o.3,
        round_le _ _ 6 (Order.le-max_left {F = F} (lit 65 4) _),
        refl,
        refl,
      )
