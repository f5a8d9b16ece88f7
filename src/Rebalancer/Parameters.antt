-- ===== src/Rebalancer/Parameters.antt =====
-- The configuration of a promoted pair: `compute_vamm_parameters` of app/core/screener.py and its use in
-- app/core/pair_rebalancer.py, over the defaults of app/models/config.py.
use pmm_simple.Prelude.{ℕ, true, false, Option, none, some, [], ◌∷◌, String, ltb, if◌then◌else◌}
use Prim.Native.Nat.{◌-◌ as sub_ℕ}
use pmm_simple.Float.{Float, ◌+◌, ◌-◌, ◌*◌, ◌/◌, nought, lit, lt, max}
use pmm_simple.Models.Config.{PairConfig}

pub record ScreenParams (F : Type 0) : Type 0 where
  pub allocated_margin_usdt : F
  pub spread : F
  pub minimum_spread : F
  pub order_level_spread : F
  pub order_levels : ℕ
  pub take_profit : F
  pub trailing_tp_callback_pct : F
  pub stop_loss : F
  pub order_amount_usdt : F
  pub max_side_usdt : F
  pub gross_exposure_cap_usdt : F
  pub level_cooldown_sec : F

module _ {F : Type 0} ⦃f : Float F⦄ where
  -- The fees are the defaults, 0.0002 and 0.0005.
  unfoldable pub compute_vamm_parameters : F → F → ℕ → ℕ → ScreenParams F
  compute_vamm_parameters natr margin leverage levels =
      let natr_dec = max (lit 1 4) (if lt (lit 5 2) natr then natr / lit 100 0 else natr) in
      let s_floor = max (lit 25 4) ((lit 20 1 * lit 2 4 + lit 5 4) + lit 10 4) in
      let base = max s_floor (lit 30 2 * natr_dec) in
      let step = lit 45 2 * natr_dec in
      let tp = max (lit 5 3) (lit 60 2 * natr_dec) in
      let count = if ltb 1 levels then levels else 1 in
      let s_max = base + lit (sub_ℕ count 1) 0 * step in
      record {
        allocated_margin_usdt = margin;
        spread = f.round base 6;
        minimum_spread = f.round s_floor 6;
        order_level_spread = f.round step 6;
        order_levels = count;
        take_profit = f.round tp 6;
        trailing_tp_callback_pct = f.round (f.round (lit 35 2 * tp) 6) 6;
        stop_loss = f.round (s_max + lit 60 2 * natr_dec) 6;
        order_amount_usdt = lit 300 1;
        max_side_usdt = lit 960 1;
        gross_exposure_cap_usdt = f.round (margin * lit leverage 0) 1;
        level_cooldown_sec = lit 1800 0;
      }

  -- `PairConfig` with its defaults.
  unfoldable pub default_config : String → PairConfig F
  default_config symbol = record {
    symbol = symbol;
    leverage = 5;
    order_amount_usdt = lit 300 1;
    bid_spread = lit 35 4;
    ask_spread = lit 35 4;
    minimum_spread = lit 25 4;
    order_levels = 3;
    order_level_spread = lit 25 4;
    order_level_amount = nought;
    level_cooldown_sec = lit 1800 0;
    price_ceiling = nought - lit 10 1;
    price_floor = nought - lit 10 1;
    trend_bias_enabled = true;
    inverted_sizing_enabled = true;
    inventory_skew_enabled = true;
    max_long_usdt = lit 960 1;
    max_short_usdt = lit 960 1;
    gross_exposure_cap_usdt = lit 1050 1;
    allocated_margin_usdt = some (lit 210 1);
    skew_kappa = lit 10 1;
    skew_gamma_net = lit 1 3;
    take_profit = lit 8 3;
    stop_loss = lit 18 3;
    base_cooldown_sec = lit 600 0;
    cooldown_multiplier = lit 20 1;
    max_cooldown_sec = lit 43200 0;
    daily_loss_limit_usdt = lit 300 1;
    tp_skew_boost = lit 5 1;
    take_profit_order_type = "LIMIT_MAKER";
    tp_levels = (lit 8 3, lit 6 1) ∷ (lit 15 3, lit 4 1) ∷ [];
    trailing_tp_enabled = true;
    trailing_tp_activation_pct = lit 8 3;
    trailing_tp_callback_pct = lit 3 3;
    trailing_stop = some (record { activation_price = lit 12 3; trailing_delta = lit 4 3 });
    time_limit = lit 14400 0;
    min_holding_sec = lit 100 1;
    passive_exit_timeout_sec = lit 1200 1;
    passive_exit_spread_pct = lit 6 4;
    favorable_pyramiding_enabled = true;
    pyramiding_size_pct = lit 50 2;
    pyramiding_trigger_natr_mult = lit 65 2;
    trend_ema_period = 50;
    trend_atr_buffer_mult = lit 5 1;
    circuit_breaker_enabled = true;
    circuit_breaker_lookback_sec = lit 60 0;
    circuit_breaker_natr_multiplier = lit 10 1;
    circuit_breaker_min_threshold_pct = lit 8 3;
    circuit_breaker_pause_sec = lit 60 0;
    vol_pause_pct = lit 25 3;
    vol_lookback_sec = lit 60 0;
    max_book_spread_pct = lit 5 3;
    max_basis_pct = lit 4 3;
    worker_max_loss_usdt = lit 200 1;
    worker_max_drawdown_usdt = lit 150 1;
    enabled = true;
    is_locked = false;
    order_refresh_time = lit 45 0;
    requote_threshold_pct = lit 1 3;
    min_quote_lifespan_sec = lit 50 1;
    hanging_orders_enabled = true;
    hanging_orders_cancel_pct = lit 2 2;
    ping_pong_enabled = false;
    reconcile_interval_sec = lit 60 0;
  }

  -- What a promotion writes, on a new configuration as on an old one.
  unfoldable pub apply_params : ScreenParams F → PairConfig F → PairConfig F
  apply_params p c = record c {
    enabled = true;
    order_amount_usdt = p.order_amount_usdt;
    bid_spread = p.spread;
    ask_spread = p.spread;
    minimum_spread = p.minimum_spread;
    order_levels = p.order_levels;
    order_level_spread = p.order_level_spread;
    order_level_amount = nought;
    level_cooldown_sec = p.level_cooldown_sec;
    order_refresh_time = lit 45 0;
    requote_threshold_pct = lit 1 3;
    min_holding_sec = lit 30 1;
    inventory_skew_enabled = true;
    allocated_margin_usdt = some p.allocated_margin_usdt;
    max_long_usdt = p.max_side_usdt;
    max_short_usdt = p.max_side_usdt;
    gross_exposure_cap_usdt = p.gross_exposure_cap_usdt;
    skew_kappa = lit 10 1;
    skew_gamma_net = lit 1 3;
    tp_skew_boost = lit 5 1;
    take_profit = p.take_profit;
    take_profit_order_type = "LIMIT_MAKER";
    trailing_tp_enabled = true;
    trailing_tp_activation_pct = p.take_profit;
    trailing_tp_callback_pct = p.trailing_tp_callback_pct;
    stop_loss = p.stop_loss;
    time_limit = lit 14400 0;
    passive_exit_timeout_sec = lit 1200 1;
    base_cooldown_sec = lit 600 0;
    cooldown_multiplier = lit 20 1;
    max_cooldown_sec = lit 43200 0;
    worker_max_loss_usdt = lit 200 1;
    worker_max_drawdown_usdt = lit 150 1;
    vol_pause_pct = lit 25 3;
    vol_lookback_sec = lit 60 0;
  }

  -- A pair without a saved configuration starts from the defaults, with leverage 5.
  unfoldable pub promoted_config : String → ScreenParams F → Option (PairConfig F) → PairConfig F
  unfolding apply_params default_config
  promoted_config symbol p none = record (apply_params p (default_config symbol)) { leverage = 5 }
  promoted_config symbol p (some c) = apply_params p c
