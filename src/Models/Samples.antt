-- ===== src/Models/Samples.antt =====
-- Sample values for the tests: a pair's configuration and fills, with nine-decimal numbers.
use pmm_simple.Prelude.{ℕ, ◌*◌, true, false, none, some, [], ◌∷◌, String}
use pmm_simple.Prelude.Int.{pos}
use pmm_simple.Float.Fixed.{Fixed}
use pmm_simple.Models.Config.{PairConfig, GlobalConfig}
use pmm_simple.Models.State.{PositionSide, OrderSide, FillRecord}

-- n / 1000
abbrev pub mills : ℕ → Fixed
mills n = pos (n * 1_000_000)

abbrev pub units : ℕ → Fixed
units n = pos (n * 1_000_000_000)

abbrev pub sample_config : PairConfig Fixed
sample_config = record {
  symbol = "SOL/USDT:USDT";
  leverage = 5;
  order_amount_usdt = units 30;
  bid_spread = pos 3_500_000;
  ask_spread = pos 3_500_000;
  minimum_spread = pos 2_500_000;
  order_levels = 3;
  order_level_spread = pos 2_500_000;
  order_level_amount = units 0;
  level_cooldown_sec = units 1800;
  price_ceiling = units 0;
  price_floor = units 0;
  trend_bias_enabled = true;
  inverted_sizing_enabled = true;
  inventory_skew_enabled = true;
  max_long_usdt = units 96;
  max_short_usdt = units 96;
  gross_exposure_cap_usdt = units 105;
  allocated_margin_usdt = some (units 21);
  skew_kappa = units 1;
  skew_gamma_net = mills 1;
  take_profit = mills 8;
  stop_loss = mills 18;
  base_cooldown_sec = units 600;
  cooldown_multiplier = units 2;
  max_cooldown_sec = units 43200;
  daily_loss_limit_usdt = units 30;
  tp_skew_boost = mills 500;
  take_profit_order_type = "LIMIT_MAKER";
  tp_levels = (mills 8, mills 600) ∷ (mills 15, mills 400) ∷ [];
  trailing_tp_enabled = true;
  trailing_tp_activation_pct = mills 8;
  trailing_tp_callback_pct = mills 3;
  trailing_stop = some (record { activation_price = mills 12; trailing_delta = mills 4 });
  time_limit = units 14400;
  min_holding_sec = units 10;
  passive_exit_timeout_sec = units 120;
  passive_exit_spread_pct = pos 600_000;
  favorable_pyramiding_enabled = true;
  pyramiding_size_pct = mills 500;
  pyramiding_trigger_natr_mult = mills 650;
  trend_ema_period = 50;
  trend_atr_buffer_mult = mills 500;
  circuit_breaker_enabled = true;
  circuit_breaker_lookback_sec = units 60;
  circuit_breaker_natr_multiplier = units 1;
  circuit_breaker_min_threshold_pct = mills 8;
  circuit_breaker_pause_sec = units 60;
  vol_pause_pct = mills 25;
  vol_lookback_sec = units 60;
  max_book_spread_pct = mills 5;
  max_basis_pct = mills 4;
  worker_max_loss_usdt = units 20;
  worker_max_drawdown_usdt = units 15;
  enabled = true;
  is_locked = false;
  order_refresh_time = units 45;
  requote_threshold_pct = mills 1;
  min_quote_lifespan_sec = units 5;
  hanging_orders_enabled = true;
  hanging_orders_cancel_pct = mills 20;
  ping_pong_enabled = false;
  reconcile_interval_sec = units 60;
}

abbrev pub sample_global : GlobalConfig Fixed
sample_global = record {
  account_daily_loss_limit_usdt = units 100;
  min_margin_ratio = mills 1500;
  kill_margin_ratio = mills 1200;
}

abbrev pub sample_fill : String → OrderSide → PositionSide → Fixed → FillRecord Fixed
sample_fill id side position_side amount = record {
  id = id;
  order_id = "7";
  client_order_id = none;
  symbol = "SOL/USDT:USDT";
  side = side;
  position_side = position_side;
  price = units 100;
  amount = amount;
  quote_amount = units 0;
  fee = mills 20;
  is_maker = true;
  timestamp = units 5000;
  realized_pnl = units 0;
}
