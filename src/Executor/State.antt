-- ===== src/Executor/State.antt =====
-- What one executor keeps (app/models/state.py, `ExecutorBarrierState`; app/core/executor.py, `__init__`), and what
-- it asks of the exchange, the database and the clock: an interface.
use pmm_simple.Prelude.{ℕ, Bool, false, Option, none, List, [], String, if◌then◌else◌}
use pmm_simple.Float.{Float, nought}
use pmm_simple.Models.Config.{PairConfig}
use pmm_simple.Models.State.{PositionSide, OrderSide, buy, sell, SidePositionState, is_long}
use pmm_simple.Tracker.{PositionTracker}
use pmm_simple.Quoter.Pricing.{PmmQuoter}
use pmm_simple.Executor.Ids.{Text}

pub data OrderType : Type 0 where
  limit limit_maker market stop_market take_profit_market : OrderType

pub data OrderPurpose : Type 0 where
  entry_quote take_profit trailing_take_profit stop_loss trailing_stop time_limit_exit
        passive_time_limit_exit kill_all_exit circuit_breaker_exit manual_exit :
      OrderPurpose

pub data TpStatus : Type 0 where
  tp_open tp_filled : TpStatus

-- An entry of `tp_orders`.
pub record TpOrder (F : Type 0) : Type 0 where
  pub order_id : Text
  pub client_order_id : Text
  pub price : F
  pub qty : F
  pub level : ℕ
  pub status : TpStatus

pub record BarrierState (F : Type 0) : Type 0 where
  pub symbol : String
  pub position_side : PositionSide
  pub active : Bool
  pub entry_price : F
  pub initial_entry_price : F
  pub total_qty : F
  pub initial_qty : F
  pub remaining_qty : F
  pub tp_orders : List (TpOrder F)
  pub sl_order_id : Option Text
  pub sl_price : F
  pub sl_qty : F
  pub trailing_active : Bool
  pub trailing_high_watermark : F
  pub trailing_tp_active : Bool
  pub peak_price : F
  -- `none` is infinity.
  pub trough_price : Option F
  pub passive_exit_active : Bool
  pub passive_exit_order_id : Option Text
  pub passive_exit_start_time : F
  pub passive_exit_refresh_count : ℕ
  pub entry_timestamp : F
  pub last_update_time : F
  pub pyramid_filled_count : ℕ
  pub pending_pyramid_client_id : Option Text
  pub pending_pyramid_started_at : F
  pub is_guaranteed_sl_locked : Bool

-- A row of the table `barrier_state`.
pub record SavedBarrier (F : Type 0) : Type 0 where
  pub sl_price : F
  pub is_guaranteed_sl_locked : Bool
  pub pyramid_filled_count : ℕ
  pub peak_price : F
  pub trough_price : F
  pub trailing_tp_active : Bool

-- The arguments of `create_exit_order`.
pub record ExitOrder (F : Type 0) : Type 0 where
  pub symbol : String
  pub side : OrderSide
  pub position_side : PositionSide
  pub order_type : OrderType
  pub amount : F
  pub price : Option F
  pub client_order_id : Text
  pub purpose : OrderPurpose

-- The arguments of `create_entry_market_order`.
pub record EntryOrder (F : Type 0) : Type 0 where
  pub symbol : String
  pub side : OrderSide
  pub position_side : PositionSide
  pub amount : F
  pub client_order_id : Text

-- The keys "id" and "amount" of the dict that an accepted exit order returns.
pub record OrderAnswer (F : Type 0) : Type 0 where
  pub id : Option Text
  pub amount : Option F

pub record PnlRecord (F : Type 0) : Type 0 where
  pub symbol : String
  pub position_side : PositionSide
  pub realized_pnl : F
  pub fee : F
  pub net_pnl : F
  pub timestamp : F

-- `W` is the state of everything outside, the clock included. An order that failed answers `none` or false;
-- an error of the database is swallowed, as the callers do.
pub record Outside (W F : Type 0) : Type 0 where
  -- `time.time()`, and the same in whole milliseconds, in decimal.
  pub time : W → F
  pub millis : W → Text
  pub create_exit_order : ExitOrder F → W → W × Option (OrderAnswer F)
  -- `_last_exit_error`
  pub last_exit_error : W → Text
  pub create_entry_market_order : EntryOrder F → W → W × Bool
  pub cancel_order : String → Text → W → W × Bool
  pub fetch_positions_hedge :
      String → W → W × (Option (SidePositionState F) × Option (SidePositionState F))
  pub save_barrier_state : BarrierState F → W → W
  pub load_barrier_state : String → PositionSide → W → W × Option (SavedBarrier F)
  pub delete_barrier_state : String → PositionSide → W → W
  pub record_pnl : PnlRecord F → W → W

-- What an executor does not change.
pub record Executor (W F : Type 0) : Type 0 where
  pub config : PairConfig F
  pub position_side : PositionSide
  pub quoter : PmmQuoter F
  pub outside : Outside W F

-- What it changes: the world, its barrier, the pair's tracker, and its own two attributes.
pub record ExecutorState (W F : Type 0) : Type 0 where
  pub world : W
  pub barrier : BarrierState F
  pub tracker : PositionTracker F
  pub is_exiting : Bool
  pub trailing_cb_override : Option F

-- `exit_side`
abbrev pub exit_side : PositionSide → OrderSide
exit_side side = if is_long side then sell else buy

module _ {F : Type 0} ⦃f : Float F⦄ where
  abbrev pub new_barrier : String → PositionSide → BarrierState F
  new_barrier symbol side = record {
    symbol = symbol;
    position_side = side;
    active = false;
    entry_price = nought;
    initial_entry_price = nought;
    total_qty = nought;
    initial_qty = nought;
    remaining_qty = nought;
    tp_orders = [];
    sl_order_id = none;
    sl_price = nought;
    sl_qty = nought;
    trailing_active = false;
    trailing_high_watermark = nought;
    trailing_tp_active = false;
    peak_price = nought;
    trough_price = none;
    passive_exit_active = false;
    passive_exit_order_id = none;
    passive_exit_start_time = nought;
    passive_exit_refresh_count = 0;
    entry_timestamp = nought;
    last_update_time = nought;
    pyramid_filled_count = 0;
    pending_pyramid_client_id = none;
    pending_pyramid_started_at = nought;
    is_guaranteed_sl_locked = false;
  }

module _ {W F : Type 0} where
  -- `self.state` with a change.
  abbrev pub on_barrier : (BarrierState F → BarrierState F) → ExecutorState W F → ExecutorState W F
  on_barrier change s = record s { barrier = change s.barrier }

  abbrev pub on_world : (W → W) → ExecutorState W F → ExecutorState W F
  on_world change s = record s { world = change s.world }
