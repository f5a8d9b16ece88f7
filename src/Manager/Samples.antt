-- ===== src/Manager/Samples.antt =====
-- A manager of one pair, with an exchange that fills market orders: the sample of the tests.
use pmm_simple.Prelude.{Bool, ◌&&◌, String, if◌then◌else◌, true, false, some, none, [], ◌∷◌, codes}
use pmm_simple.Float.Fixed.{Fixed, fixed_float}
use pmm_simple.Models.State.{PositionSide, long, short, SidePositionState}
use pmm_simple.Models.Samples.{sample_config, sample_global, units, mills}
use pmm_simple.CircuitBreaker.{CircuitBreaker, no_reason, daily_loss}
use pmm_simple.Tracker.{new_slot}
use pmm_simple.Quoter.Pricing.{new_quoter}
use pmm_simple.Executor.State.{Outside, ExitOrder, OrderType}
use pmm_simple.Prelude.Int.{leb_ℤ, ◌-ℤ◌}
use pmm_simple.Worker.Quoting.{same_order_side, same_position_side}
use pmm_simple.Manager.KillAll.Closing.{closing_side}
use text.Mathlib.Text.{◌==◌ as str_eq}
use pmm_simple.Worker.State.{Worker}
use pmm_simple.Worker.Lifecycle.{Startup}
use pmm_simple.Manager.{Venue, Manager, new_pair}
use pmm_simple.Manager.KillAll.{KillGateway}
use pmm_simple.Manager.KillAll.Holdings.{Holdings}
use pmm_simple.Manager.Health.{HealthFeed}
use pmm_simple.Manager.Commands.{with_breaker}

abbrev pub World : Type 0
World = Fixed × Fixed

-- The exchange holds one symbol.
abbrev pub is_sol : String → Bool
is_sol symbol = str_eq symbol "SOL/USDT:USDT"

abbrev pub amount : World → Holdings Fixed
amount w symbol PositionSide.long = if is_sol symbol then w.0 else units 0
amount w symbol PositionSide.short = if is_sol symbol then w.1 else units 0
amount w symbol PositionSide.both = units 0

-- An order at market against a side of that symbol takes its amount off the side, and else changes nothing.
abbrev pub is_market : OrderType → Bool
is_market OrderType.market = true
is_market _ = false

abbrev pub is_hit : PositionSide → ExitOrder Fixed → Bool
is_hit side o =
    (is_sol o.symbol && same_position_side o.position_side side)
    && (is_market o.order_type && same_order_side o.side (closing_side side))

abbrev pub rest_of : Bool → Fixed → Fixed → Fixed
rest_of hit held x =
    if hit
    then (if leb_ℤ held x then units 0 else (if leb_ℤ x (units 0) then held else held -ℤ x))
    else held

abbrev pub fill : ExitOrder Fixed → World → World
fill o w = (
  rest_of (is_hit PositionSide.long o) (w.0) o.amount,
  rest_of (is_hit PositionSide.short o) (w.1) o.amount,
)

abbrev pub slot : PositionSide → Fixed → SidePositionState Fixed
slot side x = record (new_slot "SOL/USDT:USDT" 5 side) { amount = x }

abbrev pub gateway : KillGateway World Fixed
gateway = record {
  cancel_all_symbol_orders = λ symbol w. w;
  fetch_positions_hedge = λ symbol w. (
    w,
    (
      some (slot long (amount w symbol PositionSide.long)),
      some (slot short (amount w symbol PositionSide.short)),
    ),
  );
  create_exit_order = λ order w. (fill order w, some (record { id = none; amount = none }));
  sleep_half = λ w. w;
  millis = λ w. codes "1700000000000";
}

abbrev pub blind_gateway : KillGateway World Fixed
blind_gateway = record gateway { fetch_positions_hedge = λ symbol w. (w, (none, none)) }

abbrev pub outside : Outside World Fixed
outside = record {
  time = λ w. units 1000;
  millis = λ w. codes "1700000000000";
  create_exit_order = λ order w. (fill order w, some (record { id = none; amount = none }));
  last_exit_error = λ w. codes "";
  create_entry_market_order = λ order w. (w, true);
  cancel_order = λ symbol id w. (w, true);
  fetch_positions_hedge = λ symbol w. (w, (none, none));
  save_barrier_state = λ b w. w;
  load_barrier_state = λ symbol side w. (w, none);
  delete_barrier_state = λ symbol side w. w;
  record_pnl = λ r w. w;
}

abbrev pub worker : Worker World Fixed
worker = record {
  symbol = "SOL/USDT:USDT";
  quoter = new_quoter sample_config 2 2 (mills 10) (mills 10) (mills 1) (mills 10) (units 5);
  outside = outside;
  save_fill = λ fill w. w;
  save_pair_config = λ c w. w;
  request_requote = λ w. w;
  is_auth_healthy = λ w. true;
  quotes = record {
    millis = λ w. codes "1700000000000";
    cancel_order = λ id w. (w, true);
    create_quote_order = λ t id w. (w, some none);
    request_reconcile = λ w. w;
  };
  fetch_free_balance = λ w. (w, units 100);
  sqrt = λ v. v;
}

abbrev pub startup : Startup World Fixed
startup = record {
  setup_symbol = λ c w. w;
  fetch_ohlcv = λ symbol w. (w, none);
  fetch_ohlcv_15m = λ symbol w. (w, none);
  fetch_ticker_and_mark = λ symbol w. (w, none);
  day_pnl = λ symbol since w. none;
  sleep_half = λ w. w;
  start_tasks = λ w. w;
  cancel_tasks = λ w. w;
  request_cancel_quotes = λ w. w;
}

abbrev pub venue : Venue World Fixed
venue = record {
  is_connected = λ w. true;
  time = λ w. units 9000;
  parts = λ c. worker;
  startup = startup;
  get_market_precision = λ symbol. (2, 2, mills 10, mills 10);
  get_market_limits = λ symbol. none;
  save_pair_config = λ c w. w;
  load_pair_config = λ symbol w. none;
  delete_pair_config = λ symbol w. (w, true);
}

abbrev pub tripped_breaker : CircuitBreaker Fixed
tripped_breaker = record {
  global_config = sample_global;
  tripped = true;
  trip_reason = daily_loss (units 0) (units 1);
  trip_time = units 0;
  reset_timestamp = units 0;
  last_day_boundary = units 0;
}

-- One pair, with 2 long and 1 short on the exchange.
abbrev pub holding : Manager World Fixed
holding = record {
  world = (units 2, units 1);
  workers = new_pair venue "SOL/USDT:USDT" sample_config (units 2, units 1) ∷ [];
  breaker = record tripped_breaker { tripped = false; trip_reason = no_reason };
}

abbrev pub tripped : Manager World Fixed
tripped = with_breaker tripped_breaker holding

abbrev pub feed : HealthFeed World Fixed
feed = record {
  fetch_balance = λ w. (w, none);
  database = λ w. record { connected = true; fills = [] };
  sleep_ten = λ w. w;
}
