-- ===== src/Executor/Tests.antt =====
-- Runs of the executor, and its theorems at sample inputs. The world counts the calls that change it.
use pmm_simple.Prelude.{
  ℕ, suc, ◌≡◌, ◌↔◌, refl, true, false, Option, some, none, [], ◌∷◌, codes, lower,
}
use pmm_simple.Prelude.Int.{◌+ℤ◌, ◌-ℤ◌, pos}
use pmm_simple.Float.{nought, ◌≺◌}
use pmm_simple.Float.Fixed.{Fixed, fixed_float, lit, mul, div, floor, ceil, round}
use pmm_simple.Float.FixedLaws.{fixed_laws}
use pmm_simple.Models.State.{long, short, buy, sell, FillRecord}
use pmm_simple.Models.Samples.{sample_config, sample_fill, units, mills}
use pmm_simple.Tracker.{PositionTracker, new_slot}
use pmm_simple.Quoter.Pricing.{PmmQuoter, quantize_amount}
use pmm_simple.Executor.State.{
  stop_loss, SavedBarrier, Outside, Executor, ExecutorState, new_barrier,
}
use pmm_simple.Executor.TakeProfit.{place_take_profit_orders}
use pmm_simple.Executor.Fills.{on_entry_fill, on_exit_fill, is_pyramid_leg, initial_price}
use pmm_simple.Executor.Reconcile.{saved_row, restored_barrier, is_valid_sl}
use pmm_simple.Executor.Runtime.{
  check_favorable_momentum_pyramid, watchdog, check_runtime_barriers, is_idle,
}
use pmm_simple.Executor.Triggers.{Tick, Momentum, next_trough, is_sl_hit, callback_pct}
use pmm_simple.Executor.ExitLaws.{MarketExitOutcome}
use pmm_simple.Executor.Ticks.{IsSentStop, run_ticks, check_runtime_barriers_stops}
use pmm_simple.Executor.Trailing.{HasPullback, follow_run, follow_run_pullback}
use pmm_simple.Executor.Ladder.{AreAboveCosts, place_take_profit_orders-AreProfitable}
use pmm_simple.Executor.Cycle.{IsReset, IsProfitStop, on_exit_fill-IsReset, on_entry_fill_locks}
use pmm_simple.Executor.Restore.{restored_barrier-saved_row}

abbrev quoter : PmmQuoter Fixed
quoter = record {
  config = sample_config;
  price_precision = 2;
  amount_precision = 2;
  tick_size = mills 10;
  step_size = mills 10;
  maker_fee_pct = pos 200_000;
  min_amount = mills 10;
  min_notional = units 5;
}

abbrev row : SavedBarrier Fixed
row = record {
  sl_price = units 101;
  is_guaranteed_sl_locked = true;
  pyramid_filled_count = 1;
  peak_price = units 105;
  trough_price = units 0;
  trailing_tp_active = true;
}

-- An exchange that accepts every order, and a database with one row.
abbrev outside : Outside ℕ Fixed
outside = record {
  time = λ w. units 1000;
  millis = λ w. codes "1000000";
  create_exit_order = λ order w. (suc w, some (record { id = none; amount = none }));
  last_exit_error = λ w. codes "";
  create_entry_market_order = λ order w. (suc w, true);
  cancel_order = λ symbol id w. (suc w, true);
  fetch_positions_hedge = λ symbol w. (w, (none, none));
  save_barrier_state = λ b w. w;
  load_barrier_state = λ symbol side w. (w, some row);
  delete_barrier_state = λ symbol side w. w;
  record_pnl = λ r w. w;
}

abbrev executor : Executor ℕ Fixed
executor = record {
  config = sample_config;
  position_side = long;
  quoter = quoter;
  outside = outside;
}

abbrev tracker : PositionTracker Fixed
tracker = record {
  config = sample_config;
  long_pos = record (new_slot "SOL/USDT:USDT" 5 long) { amount = units 2; entry_price = units 100 };
  short_pos = new_slot "SOL/USDT:USDT" 5 short;
  last_reconcile_time = units 0;
  processed_fill_ids = [];
  processed_fill_order = [];
}

abbrev armed : ExecutorState ℕ Fixed
armed = record {
  world = 0;
  barrier = record (new_barrier "SOL/USDT:USDT" long) {
    active = true;
    entry_price = units 100;
    total_qty = units 2;
    remaining_qty = units 2;
    sl_price = units 98;
    trailing_tp_active = true;
    peak_price = units 110;
  };
  tracker = tracker;
  is_exiting = false;
  trailing_cb_override = none;
}

abbrev tick : ℕ → Tick Fixed
tick price = record {
  price = units price;
  best_bid = units 0;
  best_ask = units 0;
  market_state = none;
}

-- The stop is hit: one market order, and the later ticks send none.
stop_run : (run_ticks executor (tick 97 ∷ tick 96 ∷ []) armed).world ≡ 1
unfolding check_runtime_barriers lit mul div floor ceil round ◌+ℤ◌ ◌-ℤ◌
stop_run = refl

check_runtime_barriers_stops_example :
    let s' = check_runtime_barriers executor (tick 97) armed in
    let w = watchdog executor (units 1000) armed in
    let qty = quantize_amount executor.quoter w.barrier.remaining_qty in
    (nought ≺ qty → IsSentStop executor qty w s')
    × MarketExitOutcome executor stop_loss w s'
    × (s'.is_exiting ≡ true → run_ticks executor (tick 96 ∷ tick 120 ∷ []) s' ≡ s')
unfolding is_idle is_sl_hit lit
check_runtime_barriers_stops_example =
    check_runtime_barriers_stops executor (tick 97) (tick 96 ∷ tick 120 ∷ []) armed refl refl refl

follow_run_pullback_example :
    ((follow_run executor (units 111 ∷ units 110 ∷ []) armed).1 ≡ true)
    ↔ HasPullback (mills 3) (units 110) (units 111 ∷ units 110 ∷ [])
unfolding callback_pct
follow_run_pullback_example =
    follow_run_pullback executor (units 111 ∷ units 110 ∷ []) armed refl refl

-- It exits at 110, below 111 less 0.3%.
pullback_run : (follow_run executor (units 111 ∷ units 110 ∷ []) armed).1 ≡ true
unfolding check_runtime_barriers lit mul div floor ceil round ◌+ℤ◌ ◌-ℤ◌
pullback_run = refl

place_take_profit_orders-AreProfitable_example :
    AreAboveCosts executor (units 100) (place_take_profit_orders executor armed)
place_take_profit_orders-AreProfitable_example =
    place_take_profit_orders-AreProfitable executor armed

on_exit_fill-IsReset_example :
    IsReset executor (on_exit_fill executor (sample_fill "x" sell long (units 2)) armed)
unfolding lit ◌-ℤ◌
on_exit_fill-IsReset_example =
    on_exit_fill-IsReset executor (sample_fill "x" sell long (units 2)) armed refl

abbrev pyramid_fill : FillRecord Fixed
pyramid_fill = record (sample_fill "p" buy long (units 1)) { client_order_id = some "q_pyr_long_1" }

-- A second order is not sent, and the stop is above the entry price.
on_entry_fill_locks_example :
    let s' = on_entry_fill executor pyramid_fill armed in
    (s'.barrier.is_guaranteed_sl_locked ≡ true)
    × IsProfitStop quoter long (units 100) (units 100) s'.barrier.sl_price
    × ((price : Fixed) (m : Option (Momentum Fixed))
        → check_favorable_momentum_pyramid executor price m s' ≡ (s', false))
unfolding is_pyramid_leg initial_price lit lower
on_entry_fill_locks_example = on_entry_fill_locks executor pyramid_fill armed refl refl

restored_barrier-saved_row_example :
    let saved = record (armed.barrier) { is_guaranteed_sl_locked = true } in
    let b' =
      restored_barrier long (units 104) (saved_row saved) (new_barrier "SOL/USDT:USDT" long) in
    (b'.sl_price ≡ saved.sl_price)
    × (b'.is_guaranteed_sl_locked ≡ true)
    × (b'.pyramid_filled_count ≡ saved.pyramid_filled_count)
    × (b'.peak_price ≡ saved.peak_price)
    × (b'.trailing_tp_active ≡ saved.trailing_tp_active)
    × ((price : Fixed) → next_trough b'.trough_price price ≡ next_trough none price)
unfolding is_valid_sl lit
restored_barrier-saved_row_example =
    restored_barrier-saved_row long (units 104)
      (record (armed.barrier) { is_guaranteed_sl_locked = true }) (new_barrier "SOL/USDT:USDT" long)
      refl refl
