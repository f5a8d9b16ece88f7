-- ===== src/Backtest/Tests.antt =====
-- A backtest of three candles, and the books of it.
use pmm_simple.Prelude.{ℕ, true, none, some, [], ◌∷◌, List}
use pmm_simple.Float.Fixed.{Fixed, fixed_float}
use pmm_simple.Models.Samples.{units, mills}
use pmm_simple.Backtest.Types.{Bar, Settings, at_open}
use pmm_simple.Backtest.{run}
use pmm_simple.Backtest.Books.{IsBalanced}
use pmm_simple.Backtest.Ledger.{run-IsBalanced}

abbrev settings : Settings Fixed
settings = record {
  symbol = "SOLUSDT";
  initial_balance = units 1000;
  order_amount_usdt = units 30;
  base_spread_pct = mills 4;
  take_profit_pct = mills 6;
  stop_loss_pct = mills 12;
  trailing_callback_pct = mills 3;
  trailing_activation_pct = none;
  maker_fee = mills 1;
  taker_fee = mills 2;
  slippage_pct = mills 1;
  tick_size = mills 10;
  qty_step = mills 1;
  entry_ref = at_open;
  close_positions_at_end = true;
  k_spread = mills 350;
  k_tp = mills 650;
  k_sl_mult = mills 1800;
  cb_threshold_pct = mills 10;
  vol_spike_threshold = units 3;
  time_decay_mins = units 30;
  use_vamm = true;
  use_circuit_breaker = true;
  use_trend_bias = true;
  use_toxic_exit = true;
  use_time_decay_sl = true;
  max_holding_mins = some (units 244);
}

abbrev bar : ℕ → ℕ → ℕ → ℕ → ℕ → Bar Fixed
bar time first high low close = record {
  time = units time;
  first = units first;
  high = units high;
  low = units low;
  close = units close;
  natr = none;
  trend_bias = "NEUTRAL";
  delta_60s = mills 1;
  vol_ratio = units 1;
}

-- The first candle fills the bid, the second hits the stop, the third fills the ask.
abbrev bars : List (Bar Fixed)
bars = bar 0 100 100 99 100 ∷ bar 60 100 100 97 98 ∷ bar 120 98 100 98 98 ∷ []

run-IsBalanced_example : IsBalanced (units 1000) (run settings bars)
run-IsBalanced_example = run-IsBalanced settings bars
