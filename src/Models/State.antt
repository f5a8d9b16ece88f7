-- ===== src/Models/State.antt =====
-- app/models/state.py: the enums, fills and the state of one slot (LONG or SHORT) of a pair.
use pmm_simple.Prelude.{ℕ, Bool, true, false, Option, String}

pub data PositionSide : Type 0 where
  long short both : PositionSide

pub data OrderSide : Type 0 where
  buy sell : OrderSide

pub record FillRecord (F : Type 0) : Type 0 where
  pub id : String
  pub order_id : String
  pub client_order_id : Option String
  pub symbol : String
  pub side : OrderSide
  pub position_side : PositionSide
  pub price : F
  pub amount : F
  pub quote_amount : F
  pub fee : F
  pub is_maker : Bool
  pub timestamp : F
  pub realized_pnl : F

pub record SidePositionState (F : Type 0) : Type 0 where
  pub symbol : String
  pub position_side : PositionSide
  pub amount : F
  pub entry_price : F
  pub current_price : F
  pub notional : F
  pub unrealized_pnl : F
  pub leverage : ℕ
  pub initial_margin : F
  pub last_fill_time : F
  pub last_sl_time : F
  pub in_cooldown : Bool
  pub consecutive_sl_count : ℕ
  pub cooldown_until : F
  pub filled_levels_count : ℕ
  pub last_level_fill_time : F
  pub next_allowed_level_time : F
  pub is_trend_blocked : Bool
  pub pyramid_filled_count : ℕ
  pub is_guaranteed_sl_locked : Bool
  pub trend_bias_regime : String

-- `==` on the enums.
abbrev pub is_long : PositionSide → Bool
is_long PositionSide.long = true
is_long _ = false

abbrev pub is_buy : OrderSide → Bool
is_buy OrderSide.buy = true
is_buy OrderSide.sell = false

abbrev pub is_short : PositionSide → Bool
is_short PositionSide.short = true
is_short _ = false
