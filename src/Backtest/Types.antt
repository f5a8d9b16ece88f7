-- ===== src/Backtest/Types.antt =====
-- The settings, the candles and the state of a backtest (backtest/pmm_simulator.py). Times are in seconds.
use pmm_simple.Prelude.{ℕ, Bool, true, false, Option, none, some, List, String, if◌then◌else◌}
use pmm_simple.Models.State.{PositionSide, is_long}

-- A candle with its indicators; a `natr` that is not a number is `none`.
pub record Bar (F : Type 0) : Type 0 where
  pub time : F
  pub first : F
  pub high : F
  pub low : F
  pub close : F
  pub natr : Option F
  pub trend_bias : String
  pub delta_60s : F
  pub vol_ratio : F

pub data EntryRef : Type 0 where
  at_open at_prev_close at_close : EntryRef

pub record Settings (F : Type 0) : Type 0 where
  pub symbol : String
  pub initial_balance : F
  pub order_amount_usdt : F
  pub base_spread_pct : F
  pub take_profit_pct : F
  pub stop_loss_pct : F
  pub trailing_callback_pct : F
  pub trailing_activation_pct : Option F
  pub maker_fee : F
  pub taker_fee : F
  pub slippage_pct : F
  pub tick_size : F
  pub qty_step : F
  pub entry_ref : EntryRef
  pub close_positions_at_end : Bool
  pub k_spread : F
  pub k_tp : F
  pub k_sl_mult : F
  pub cb_threshold_pct : F
  pub vol_spike_threshold : F
  pub time_decay_mins : F
  pub use_vamm : Bool
  pub use_circuit_breaker : Bool
  pub use_trend_bias : Bool
  pub use_toxic_exit : Bool
  pub use_time_decay_sl : Bool
  pub max_holding_mins : Option F

-- `extreme` is the peak of a LONG slot and the trough of a SHORT slot. The index of its candle is left out.
pub record PositionSlot (F : Type 0) : Type 0 where
  pub side : PositionSide
  pub entry_price : F
  pub qty : F
  pub opened_at : F
  pub entry_fee : F
  pub extreme : F
  pub trailing_active : Bool
  pub initial_sl_pct : F
  pub initial_tp_pct : F

pub data ExitReason : Type 0 where
  toxic_volume time_limit time_decay_sl stop_loss take_profit trailing_tp end_of_data : ExitReason

-- How a slot is closed. `saved` is counted for a fast exit.
pub record Exit (F : Type 0) : Type 0 where
  pub price : F
  pub time : F
  pub reason : ExitReason
  pub is_taker : Bool
  pub slippage_cost : F
  pub saved : Option F

-- A row of `trades`; `exit` has its price, time, reason, liquidity and slippage.
pub record Trade (F : Type 0) : Type 0 where
  pub symbol : String
  pub side : PositionSide
  pub entry_price : F
  pub entry_time : F
  pub qty : F
  pub notional_entry : F
  pub notional_exit : F
  pub entry_fee : F
  pub exit : Exit F
  pub exit_fee : F
  pub total_fee : F
  pub gross_pnl : F
  pub net_pnl : F

pub record Equity (F : Type 0) : Type 0 where
  pub timestamp : F
  pub equity : F
  pub balance : F
  pub upnl : F
  pub long_open : Bool
  pub short_open : Bool

pub record Simulation (F : Type 0) : Type 0 where
  pub balance : F
  pub long_pos : Option (PositionSlot F)
  pub short_pos : Option (PositionSlot F)
  pub trades : List (Trade F)
  pub equity_records : List (Equity F)
  pub cb_trigger_count : ℕ
  pub blocked_trend_trades : ℕ
  pub fast_exit_count : ℕ
  pub fast_exit_saved_usdt : F
  pub cb_pause_until : Option F

-- The spread, the take profit and the stop loss of a candle.
pub record Grid (F : Type 0) : Type 0 where
  pub s_base : F
  pub tp_base : F
  pub sl_base : F

module _ {F : Type 0} where
  abbrev pub slot_of : PositionSide → Simulation F → Option (PositionSlot F)
  slot_of side s = if is_long side then s.long_pos else s.short_pos

  abbrev pub put_slot : PositionSide → Option (PositionSlot F) → Simulation F → Simulation F
  put_slot side p s = if is_long side then record s { long_pos = p } else record s { short_pos = p }

  abbrev pub or_default : F → Option F → F
  or_default d none = d
  or_default d (some a) = a

  abbrev pub is_none : Option (PositionSlot F) → Bool
  is_none none = true
  is_none (some p) = false
