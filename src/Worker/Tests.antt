-- ===== src/Worker/Tests.antt =====
-- Runs of the worker, and its theorems at sample inputs. The world counts the calls that change it.
use pmm_simple.Prelude.{
  ℕ, suc, ◌≡◌, ◌≢◌, refl, true, false, some, none, [], All, [], ◌∷◌, lower, codes, arith,
}
use pmm_simple.Prelude.Int.{◌+ℤ◌, ◌-ℤ◌, pos, negsuc}
use pmm_simple.Float.Fixed.{Fixed, fixed_float, lit, mul, div, floor, round}
use pmm_simple.Models.State.{FillRecord, PositionSide, long, short, both, buy, sell}
use pmm_simple.Models.Samples.{sample_config, sample_fill, units, mills}
use pmm_simple.Tracker.{PositionTracker, cid_of, normalized_side, new_slot}
use pmm_simple.Quoter.Pricing.{PmmQuoter}
use pmm_simple.MarketState.{MarketState}
use pmm_simple.Executor.Ids.{safe_client_order_id}
use pmm_simple.Executor.State.{Outside, Executor, ExecutorState, new_barrier}
use pmm_simple.Executor.Exits.{market_exit_order, exit_prefix}
use pmm_simple.Worker.{check_should_requote}
use pmm_simple.Worker.Risk.{check_isolated_risk_breach, current_pnl}
use pmm_simple.Worker.State.{Worker, WorkerState, ExecutorOwn, resume}
use pmm_simple.Quoter.{QuoteLevel}
use pmm_simple.Worker.Quoting.{ActiveQuote, QuoteGateway, refresh}
use pmm_simple.Worker.Coverage.{StandsForOne, refresh-StandsForOne}
use pmm_simple.Worker.Kill.{IsKilled, check_isolated_risk_breach-IsKilled}
use pmm_simple.Worker.Routing.{route}
use pmm_simple.Worker.OwnIds.{IsDigit, own_stop, own_id, route_own}

abbrev quoter : PmmQuoter Fixed
quoter = record {
  config = sample_config;
  price_precision = 2;
  amount_precision = 2;
  tick_size = mills 10;
  step_size = mills 10;
  maker_fee_pct = pos 200_000;
  min_amount = mills 10;
  min_notional = units 5;
}

abbrev outside : Outside ℕ Fixed
outside = record {
  time = λ w. units 1000;
  millis = λ w. codes "1700000000000";
  create_exit_order = λ order w. (suc w, some (record { id = none; amount = none }));
  last_exit_error = λ w. codes "";
  create_entry_market_order = λ order w. (suc w, true);
  cancel_order = λ symbol id w. (suc w, true);
  fetch_positions_hedge = λ symbol w. (w, (none, none));
  save_barrier_state = λ b w. w;
  load_barrier_state = λ symbol side w. (w, none);
  delete_barrier_state = λ symbol side w. w;
  record_pnl = λ r w. w;
}

abbrev quotes : QuoteGateway ℕ Fixed
quotes = record {
  millis = λ w. codes "1700000000000";
  cancel_order = λ id w. (suc w, true);
  create_quote_order = λ t id w. (suc w, some none);
  request_reconcile = λ w. w;
}

abbrev worker : Worker ℕ Fixed
worker = record {
  symbol = "SOL/USDT:USDT";
  quoter = quoter;
  outside = outside;
  save_fill = λ fill w. w;
  save_pair_config = λ c w. w;
  request_requote = λ w. w;
  is_auth_healthy = λ w. true;
  quotes = quotes;
  fetch_free_balance = λ w. (w, units 100);
  sqrt = λ v. v;
}

abbrev market : MarketState Fixed
market = record {
  config = sample_config;
  best_bid = pos 99_990_000_000;
  best_ask = pos 100_010_000_000;
  raw_mid = units 100;
  mark_price = units 100;
  smoothed_mid = units 100;
  ema_alpha = mills 300;
  last_update_time = units 1000;
  price_history = [];
  baseline_vol = mills 5;
  price_history_60s = [];
  circuit_breaker_paused_until = units 0;
  current_natr_15m = mills 12;
  trend_bias_regime = "NEUTRAL";
  last_ema50 = units 0;
  last_atr_1h = units 0;
}

abbrev tracker : PositionTracker Fixed
tracker = record {
  config = sample_config;
  long_pos = record (new_slot "SOL/USDT:USDT" 5 long) { amount = units 2; entry_price = units 100 };
  short_pos = new_slot "SOL/USDT:USDT" 5 short;
  last_reconcile_time = units 0;
  processed_fill_ids = [];
  processed_fill_order = [];
}

abbrev own : PositionSide → ExecutorOwn Fixed
own side = record {
  barrier = record (new_barrier "SOL/USDT:USDT" side) {
    active = true;
    remaining_qty = units 2;
    entry_price = units 100;
  };
  is_exiting = false;
  trailing_cb_override = none;
}

-- A session that has lost 25 USDT, with a limit of 20.
abbrev losing : WorkerState ℕ Fixed
losing = record {
  config = sample_config;
  executor_config = sample_config;
  world = 0;
  market = market;
  tracker = tracker;
  executor_long = own long;
  executor_short = own short;
  session_realized_pnl = negsuc 24_999_999_999;
  peak_pnl = units 0;
  is_locked_killed = false;
  running = true;
  paused = false;
  is_draining = false;
  active_quotes = [];
  last_quote_time = units 0;
  last_quote_mid = units 100;
}

-- The kill sends one market order, for the LONG slot.
kill_run : (check_isolated_risk_breach worker losing).world ≡ 1
unfolding check_isolated_risk_breach lit mul div floor round ◌+ℤ◌ ◌-ℤ◌
kill_run = refl

check_isolated_risk_breach-IsKilled_example :
    let s' = check_isolated_risk_breach worker losing in
    IsKilled s'
    × (check_should_requote worker s' ≡ false)
    × (resume s' ≡ s')
    × (check_isolated_risk_breach worker s' ≡ s')
unfolding current_pnl lit ◌+ℤ◌ ◌-ℤ◌
check_isolated_risk_breach-IsKilled_example =
    check_isolated_risk_breach-IsKilled worker losing refl refl

long_only : long ≢ both
long_only e = cc

digits_only : All IsDigit (codes "1700000000000")
digits_only = (
  omega arith,
  (
    omega arith,
    (
      omega arith,
      (
        omega arith,
        (
          omega arith,
          (
            omega arith,
            (
              omega arith,
              (
                omega arith,
                (omega arith, (omega arith, (omega arith, (omega arith, (omega arith, tt))))),
              ),
            ),
          ),
        ),
      ),
    ),
  ),
)

abbrev long_executor : Executor ℕ Fixed
long_executor = record {
  config = sample_config;
  position_side = long;
  quoter = quoter;
  outside = outside;
}

abbrev stop_state : ExecutorState ℕ Fixed
stop_state = record {
  world = 0;
  barrier = new_barrier "SOL/USDT:USDT" long;
  tracker = tracker;
  is_exiting = false;
  trailing_cb_override = none;
}

abbrev stop_fill : FillRecord Fixed
stop_fill = record (sample_fill "x" sell both (units 1)) {
  client_order_id = some "sl_long_1700000000000";
}

route_own_example :
    (route (cid_of stop_fill) stop_fill ≡ (long, false)) × (normalized_side stop_fill ≡ long)
unfolding lower safe_client_order_id own_id market_exit_order exit_prefix
route_own_example =
    route_own long_executor stop_state (units 1) (units 100)
      (record { price = units 100; best_bid = units 0; best_ask = units 0; market_state = none })
      own_stop stop_fill long_only refl digits_only refl

abbrev target : ℕ → QuoteLevel Fixed
target price = record {
  side = buy;
  position_side = long;
  level = 0;
  price = units price;
  amount = units 1;
  notional = units price;
}

abbrev active : ActiveQuote Fixed
active = record {
  id = codes "7";
  side = buy;
  position_side = long;
  price = units 99;
  amount = units 1;
}

-- The order at 99 is kept, and one is placed at 98.
refresh_run : (refresh quotes quoter (target 99 ∷ target 98 ∷ []) (active ∷ []) 0).0 ≡ 1
unfolding refresh lit mul div ◌+ℤ◌ ◌-ℤ◌
refresh_run = refl

refresh-StandsForOne_example :
    All
      (StandsForOne quoter (target 99 ∷ target 98 ∷ []))
      (refresh quotes quoter (target 99 ∷ target 98 ∷ []) (active ∷ []) 0).1
refresh-StandsForOne_example =
    refresh-StandsForOne quotes quoter (target 99 ∷ target 98 ∷ []) (active ∷ []) 0 (λ id v. refl)
