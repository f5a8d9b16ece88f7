-- ===== src/Models/Config.antt =====
-- app/models/config.py: the fields of `PairConfig` and `GlobalConfig` that the modelled components read,
-- and the bounds that pydantic checks on them.
use pmm_simple.Prelude.{ℕ, ◌≤◌, Bool, Option, none, some, List, String, ltb, if◌then◌else◌}
use pmm_simple.Float.{Float, ◌≼◌, ◌≺◌, nought, one, lit, lt, ◌/◌}

pub record TrailingStopConfig (F : Type 0) : Type 0 where
  pub activation_price : F
  pub trailing_delta : F

pub record PairConfig (F : Type 0) : Type 0 where
  pub symbol : String
  pub leverage : ℕ
  pub order_amount_usdt : F
  pub bid_spread : F
  pub ask_spread : F
  pub minimum_spread : F
  pub order_levels : ℕ
  pub order_level_spread : F
  pub order_level_amount : F
  pub level_cooldown_sec : F
  pub price_ceiling : F
  pub price_floor : F
  pub trend_bias_enabled : Bool
  pub inverted_sizing_enabled : Bool
  pub inventory_skew_enabled : Bool
  pub max_long_usdt : F
  pub max_short_usdt : F
  pub gross_exposure_cap_usdt : F
  pub allocated_margin_usdt : Option F
  pub skew_kappa : F
  pub skew_gamma_net : F
  pub take_profit : F
  pub stop_loss : F
  pub base_cooldown_sec : F
  pub cooldown_multiplier : F
  pub max_cooldown_sec : F
  pub daily_loss_limit_usdt : F
  pub tp_skew_boost : F
  pub take_profit_order_type : String
  -- `[tp_pct, fraction]`
  pub tp_levels : List (F × F)
  pub trailing_tp_enabled : Bool
  pub trailing_tp_activation_pct : F
  pub trailing_tp_callback_pct : F
  pub trailing_stop : Option (TrailingStopConfig F)
  pub time_limit : F
  pub min_holding_sec : F
  pub passive_exit_timeout_sec : F
  pub passive_exit_spread_pct : F
  pub favorable_pyramiding_enabled : Bool
  pub pyramiding_size_pct : F
  pub pyramiding_trigger_natr_mult : F
  pub trend_ema_period : ℕ
  pub trend_atr_buffer_mult : F
  pub circuit_breaker_enabled : Bool
  pub circuit_breaker_lookback_sec : F
  pub circuit_breaker_natr_multiplier : F
  pub circuit_breaker_min_threshold_pct : F
  pub circuit_breaker_pause_sec : F
  pub vol_pause_pct : F
  pub vol_lookback_sec : F
  pub max_book_spread_pct : F
  pub max_basis_pct : F
  pub worker_max_loss_usdt : F
  pub worker_max_drawdown_usdt : F
  pub enabled : Bool
  pub is_locked : Bool
  pub order_refresh_time : F
  pub requote_threshold_pct : F
  pub min_quote_lifespan_sec : F
  pub hanging_orders_enabled : Bool
  pub hanging_orders_cancel_pct : F
  pub ping_pong_enabled : Bool
  pub reconcile_interval_sec : F

pub record GlobalConfig (F : Type 0) : Type 0 where
  pub account_daily_loss_limit_usdt : F
  pub min_margin_ratio : F
  pub kill_margin_ratio : F

module _ {F : Type 0} ⦃f : Float F⦄ where
  -- The `ge` and `gt` bounds of the fields.
  pub record IsChecked (c : PairConfig F) : Type 0 where
    pub leverage_ge : 1 ≤ c.leverage
    pub order_levels_ge : 1 ≤ c.order_levels
    pub order_level_spread_ge : nought ≼ c.order_level_spread
    pub level_cooldown_ge : nought ≼ c.level_cooldown_sec
    pub base_cooldown_ge : nought ≼ c.base_cooldown_sec
    pub multiplier_ge : one ≼ c.cooldown_multiplier
    pub max_cooldown_ge : nought ≼ c.max_cooldown_sec
    pub bid_spread_gt : nought ≺ c.bid_spread
    pub ask_spread_gt : nought ≺ c.ask_spread
    pub minimum_spread_ge : nought ≼ c.minimum_spread

  -- `max(1, leverage)`
  abbrev pub leverage_or_one : PairConfig F → ℕ
  leverage_or_one c = if ltb 1 c.leverage then c.leverage else 1

  -- `PairConfig.effective_margin_cap`
  unfoldable pub effective_margin_cap : PairConfig F → F
  effective_margin_cap c = elim c.allocated_margin_usdt [
    | none ↦ derived
    | some m ↦ if lt nought m then m else derived
  ]
    where
      derived : F
      derived = c.gross_exposure_cap_usdt / lit (leverage_or_one c) 0
