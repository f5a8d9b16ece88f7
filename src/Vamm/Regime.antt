-- ===== src/Vamm/Regime.antt =====
-- The number of levels and the sizes that follow from it (app/core/vamm_calculator.py).
use pmm_simple.Prelude.{ℕ, ◌≤◌, ◌≡◌, ◌⊎◌, refl, List, [], ◌∷◌, map, arith, inl, inr, length}
use pmm_simple.Float.{Float, FloatLaws, ◌*◌, nought, lit, ◌≼◌, ◌≺◌}
use pmm_simple.Float.Order
use pmm_simple.Vamm.{
  determine_order_levels, inverted_weights, compute_dynamic_vamm, normalized_natr, lever,
}

module _ {F : Type 0} ⦃f : Float F⦄ where
  -- Each element is at most the one before it.
  abbrev pub IsFalling : List F → Type 0
  IsFalling [] = Unit
  IsFalling (x ∷ l) = elim l [ [] ↦ Unit | y ∷ m ↦ y ≼ x ] × IsFalling l

  pub determine_order_levels_range :
      (hurst natr : F) → let n = determine_order_levels hurst natr in (n ≡ 1) ⊎ (n ≡ 2) ⊎ (n ≡ 3)
  unfolding determine_order_levels
  determine_order_levels_range hurst natr = ground arith

  module _ ⦃laws : FloatLaws F⦄ where
    open laws use {le_refl, le_trans, lit_le, mul_le, round_le}

    -- A trending market is quoted with fewer levels: a higher Hurst exponent never gives more.
    pub determine_order_levels_antitone :
        (h k natr : F) → h ≼ k → determine_order_levels k natr ≤ determine_order_levels h natr
    unfolding determine_order_levels
    determine_order_levels_antitone h k natr le_hk =
        ground (arith, le_trans h k (lit 44 2) le_hk, le_trans h k (lit 35 2) le_hk)

    step :
        (capacity : F) (a b : ℕ)
        → nought ≼ capacity
        → a ≤ b
        → f.round (lit a 2 * capacity) 2 ≼ f.round (lit b 2 * capacity) 2
    step capacity a b c h = round_le (lit a 2 * capacity) (lit b 2 * capacity) 2 (
        mul_le (lit a 2) (lit b 2) capacity capacity (lit_le 0 0 a 2 (omega arith))
          (lit_le a 2 b 2 (omega arith)) c (le_refl capacity))

    notionals_fall :
        (n : ℕ) (capacity : F)
        → nought ≼ capacity
        → (n ≡ 1) ⊎ (n ≡ 2) ⊎ (n ≡ 3)
        → let ws = inverted_weights {F = F} n in
          let ns = map (λ w. f.round (w * capacity) 2) ws in (length ns ≡ n) × IsFalling ns
    unfolding inverted_weights
    notionals_fall n capacity c (inl one_level) = rw one_level (refl, (tt, tt))
    notionals_fall n capacity c (inr (inl two)) =
        rw two (refl, (step capacity 40 60 c (omega arith), (tt, tt)))
    notionals_fall n capacity c (inr (inr three)) = rw three (
      refl,
      (step capacity 30 50 c (omega arith), (step capacity 20 30 c (omega arith), (tt, tt))),
    )

    -- The regime gives one, two or three levels, and with a margin that is not negative there is one
    -- notional for each, no level larger than the one nearer to the mid price.
    pub compute_dynamic_vamm_sizes :
        (natr hurst margin : F) (leverage : ℕ) (maker taker : F)
        → nought ≼ margin
        → let p = compute_dynamic_vamm natr hurst margin leverage maker taker in
          (1 ≤ p.order_levels)
          × (p.order_levels ≤ 3)
          × (length p.level_notionals ≡ p.order_levels)
          × IsFalling p.level_notionals
    unfolding compute_dynamic_vamm
    compute_dynamic_vamm_sizes natr hurst margin leverage maker taker m =
        let n = determine_order_levels hurst (normalized_natr natr) in
        let range = determine_order_levels_range hurst (normalized_natr natr) in
        let fall =
          notionals_fall n (margin * lit (lever leverage) 0)
            (Order.mul_nonneg margin (lit (lever leverage) 0) m
              (lit_le 0 0 (lever leverage) 0 (omega arith)))
            range in
        (ground (arith, range), ground (arith, range), fall.0, fall.1)

    -- The regime test takes the normalized volatility for a percentage once it is above 0.05: a market with
    -- a NATR above 5% (and up to 140%) and a Hurst exponent of at most 0.35 gets three levels, though
    -- the rule for three levels asks for a NATR of at most 1.40%.
    pub compute_dynamic_vamm_volatile :
        (natr hurst margin : F) (leverage : ℕ) (maker taker : F)
        → lit 5 2 ≺ normalized_natr natr
        → normalized_natr natr ≼ lit 140 2
        → hurst ≼ lit 35 2
        → (compute_dynamic_vamm natr hurst margin leverage maker taker).order_levels ≡ 3
    unfolding compute_dynamic_vamm determine_order_levels
    compute_dynamic_vamm_volatile natr hurst margin leverage maker taker high low h =
        ground (arith, le_trans hurst (lit 35 2) (lit 44 2) h (lit_le 35 2 44 2 (omega arith)))
