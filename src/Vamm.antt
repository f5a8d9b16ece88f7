-- ===== src/Vamm.antt =====
-- app/core/vamm_calculator.py: the number of order levels by regime, and the spreads, barriers and
-- notionals that follow from the volatility. `NATR` may come as a percentage or as a fraction.
pub mod Spreads
pub mod Regime
mod Tests
use pmm_simple.Prelude.{ℕ, ◌&&◌, List, [], ◌∷◌, ◌==◌, map, if◌then◌else◌, ltb}
use pmm_simple.Float.{Float, ◌+◌, ◌-◌, ◌*◌, ◌/◌, nought, lit, le, lt, max}
use Prim.Native.Nat.{pred}

-- The entries of the result that the program reads; `round` of a field is applied here.
pub record VammParams (F : Type 0) : Type 0 where
  pub allocated_margin_usdt : F
  pub leverage : ℕ
  pub order_levels : ℕ
  pub bid_spread : F
  pub ask_spread : F
  pub minimum_spread : F
  pub order_level_spread : F
  pub level_weights : List F
  pub level_notionals : List F
  pub take_profit : F
  pub trailing_tp_activation_pct : F
  pub trailing_tp_callback_pct : F
  pub stop_loss : F
  pub max_long_usdt : F
  pub max_short_usdt : F
  pub gross_exposure_cap_usdt : F
  pub natr_15m : F
  pub s_floor : F
  pub s_base : F
  pub s_max : F
  pub tp_base : F

-- The unrounded figures of the ladder.
pub record Ladder (F : Type 0) : Type 0 where
  pub natr : F
  pub n_levels : ℕ
  pub s_floor : F
  pub s_base : F
  pub delta_s_step : F
  pub s_max : F
  pub tp_base : F
  pub sl : F

-- `max(1, int(leverage))`
abbrev pub lever : ℕ → ℕ
lever leverage = if ltb 1 leverage then leverage else 1

module _ {F : Type 0} ⦃f : Float F⦄ where
  pub determine_order_levels : F → F → ℕ
  determine_order_levels hurst natr =
      let natr_pct = if lt (lit 5 2) natr then natr else natr * lit 100 0 in
      if lt (lit 44 2) hurst
      then 1
      else if le hurst (lit 35 2) && le natr_pct (lit 140 2)
      then 3
      else 2

  pub inverted_weights : ℕ → List F
  inverted_weights n =
      if n == 3
      then lit 50 2 ∷ lit 30 2 ∷ lit 20 2 ∷ []
      else if n == 2
      then lit 60 2 ∷ lit 40 2 ∷ []
      else lit 100 2 ∷ []

  pub sum : List F → F → F
  sum [] total = total
  sum (x ∷ xs) total = sum xs (total + x)

  abbrev pub normalized_natr : F → F
  normalized_natr natr = max (lit 1 4) (if lt (lit 5 2) natr then natr / lit 100 0 else natr)

  abbrev pub spread_floor : F → F → F
  spread_floor maker_fee taker_fee = max (lit 25 4) (lit 2 0 * maker_fee + taker_fee + lit 10 4)

  pub ladder : F → F → F → F → Ladder F
  unfolding determine_order_levels
  ladder natr_15m_pct hurst maker_fee taker_fee =
      let natr = normalized_natr natr_15m_pct in
      let n_levels = determine_order_levels hurst natr in
      let s_floor = spread_floor maker_fee taker_fee in
      let s_base = max s_floor (lit 30 2 * natr) in
      let delta_s_step = lit 45 2 * natr in
      let s_max = s_base + lit (pred n_levels) 0 * delta_s_step in
      let m_h = lit 10 1 + max nought (hurst - lit 35 2) * lit 8 1 in
      record {
        natr = natr;
        n_levels = n_levels;
        s_floor = s_floor;
        s_base = s_base;
        delta_s_step = delta_s_step;
        s_max = s_max;
        tp_base = max (lit 65 4) (lit 70 2 * natr * m_h);
        sl = s_max + lit 60 2 * natr;
      }

  pub compute_dynamic_vamm : F → F → F → ℕ → F → F → VammParams F
  unfolding ladder inverted_weights sum
  compute_dynamic_vamm natr_15m_pct hurst margin leverage maker_fee taker_fee =
      let l = ladder natr_15m_pct hurst maker_fee taker_fee in
      let capacity = margin * lit (lever leverage) 0 in
      let weights = inverted_weights l.n_levels in
      let notionals = map (λ w. f.round (w * capacity) 2) weights in
      let max_side = f.round (sum notionals nought * lit 105 2) 2 in
      record {
        allocated_margin_usdt = margin;
        leverage = lever leverage;
        order_levels = l.n_levels;
        bid_spread = f.round l.s_base 6;
        ask_spread = f.round l.s_base 6;
        minimum_spread = f.round l.s_floor 6;
        order_level_spread = f.round l.delta_s_step 6;
        level_weights = weights;
        level_notionals = notionals;
        take_profit = f.round l.tp_base 6;
        trailing_tp_activation_pct = f.round l.tp_base 6;
        trailing_tp_callback_pct = f.round (max (lit 20 4) (lit 20 2 * l.tp_base)) 6;
        stop_loss = f.round l.sl 6;
        max_long_usdt = max_side;
        max_short_usdt = max_side;
        gross_exposure_cap_usdt = f.round capacity 1;
        natr_15m = l.natr;
        s_floor = f.round l.s_floor 6;
        s_base = f.round l.s_base 6;
        s_max = f.round l.s_max 6;
        tp_base = f.round l.tp_base 6;
      }
