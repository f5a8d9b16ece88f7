-- ===== src/Executor/Runtime.antt =====
-- The barriers at every price tick (app/core/executor.py): `check_favorable_momentum_pyramid`,
-- `check_runtime_barriers` and `_handle_passive_time_limit_exit`. A stage of the tick answers the state and
-- whether it returned after a market exit.
use pmm_simple.Prelude.{
  suc, leb, ◌++◌, ◌&&◌, ◌||◌, Bool, true, false, not, Option, none, some, codes, if◌then◌else◌,
}
use pmm_simple.Float.{Float, ◌-◌, nought, lit, le, lt}
use pmm_simple.Models.Config.{TrailingStopConfig}
use pmm_simple.Models.State.{buy, sell, is_long}
use pmm_simple.Quoter.Pricing.{quantize_amount}
use pmm_simple.Executor.Ids.{safe_client_order_id, side_text}
use pmm_simple.Executor.State.{
  limit_maker, stop_loss, trailing_take_profit, trailing_stop, time_limit_exit,
  passive_time_limit_exit, ExitOrder, EntryOrder, OrderAnswer, Executor, ExecutorState, exit_side,
}
use pmm_simple.Executor.Exits.{
  is_held, clear_tps, cancel_id, reconcile_tracker, safe_create_exit_order, execute_market_exit,
}
use pmm_simple.Executor.TakeProfit.{id_or}
use pmm_simple.Executor.Triggers.{
  Momentum, Tick, callback_pct, follow_price, is_pyramid_due, is_reached, is_sl_hit,
  is_trailing_stop_hit, is_trailing_tp_hit, passive_price, profit_price, pyramid_quantity,
  start_trailing_tp, trailing_stop_barrier,
}

-- What the pyramid check reads of the market state.
module _ {W F : Type 0} ⦃f : Float F⦄ where
  unfoldable pub pyramid_order : Executor W F → ExecutorState W F → EntryOrder F
  unfolding safe_client_order_id pyramid_quantity
  pyramid_order x s = record {
    symbol = x.config.symbol;
    side = if is_long x.position_side then buy else sell;
    position_side = x.position_side;
    amount = pyramid_quantity x.config x.quoter s.barrier;
    client_order_id =
        safe_client_order_id (x.outside.millis s.world)
          (codes "q_pyr_" ++ side_text x.position_side) 36;
  }

  -- An accepted pyramid order is pending until its fill.
  unfoldable pub settle_pyramid :
      Executor W F → EntryOrder F → W × Bool → ExecutorState W F → ExecutorState W F × Bool
  settle_pyramid x order (w, false) s = (record s { world = w }, false)
  settle_pyramid x order (w, true) s = (
    record s {
      world = w;
      barrier = record (s.barrier) {
        pending_pyramid_client_id = some order.client_order_id;
        pending_pyramid_started_at = x.outside.time w;
      };
    },
    true,
  )

  unfoldable pub check_favorable_momentum_pyramid :
      Executor W F → F → Option (Momentum F) → ExecutorState W F → ExecutorState W F × Bool
  unfolding is_pyramid_due pyramid_quantity pyramid_order settle_pyramid
  check_favorable_momentum_pyramid x price m s =
      let order = pyramid_order x s in
      if is_pyramid_due x.config x.position_side s.is_exiting price m s.barrier
        && not (le (pyramid_quantity x.config x.quoter s.barrier) nought)
      then settle_pyramid x order (x.outside.create_entry_market_order order s.world) s
      else (s, false)

  -- A pyramid order that is pending for more than ten seconds is given up.
  unfoldable pub watchdog : Executor W F → F → ExecutorState W F → ExecutorState W F
  unfolding reconcile_tracker
  watchdog x now s =
      let b = s.barrier in
      if is_held b.pending_pyramid_client_id
        && (lt nought b.pending_pyramid_started_at
            && lt (lit 100 1) (now - b.pending_pyramid_started_at))
      then reconcile_tracker x (record s {
        barrier = record b {
          pending_pyramid_client_id = none;
          pending_pyramid_started_at = nought;
        };
      })
      else s

  -- The trailing take profit starts, and the barrier is saved.
  unfoldable pub activate_trailing_tp : Executor W F → F → ExecutorState W F → ExecutorState W F
  unfolding profit_price is_reached start_trailing_tp
  activate_trailing_tp x price s =
      let side = x.position_side in
      let b = start_trailing_tp side price s.barrier in
      let act_price = profit_price side s.barrier.entry_price x.config.trailing_tp_activation_pct in
      if not s.barrier.trailing_tp_active && is_reached side act_price price
      then record s { barrier = b; world = x.outside.save_barrier_state b s.world }
      else s

  unfoldable pub follow_trailing_tp :
      Executor W F → F → ExecutorState W F → ExecutorState W F × Bool
  unfolding callback_pct follow_price is_trailing_tp_hit execute_market_exit
  follow_trailing_tp x price s =
      let side = x.position_side in
      let cb = callback_pct x.config s.trailing_cb_override in
      let b = follow_price side price s.barrier in
      let s' = record s { barrier = b } in
      if s.barrier.trailing_tp_active
      then if is_trailing_tp_hit side cb price b
        then (execute_market_exit x trailing_take_profit s', true)
        else (s', false)
      else (s, false)

  unfoldable pub trailing_tp : Executor W F → F → ExecutorState W F → ExecutorState W F × Bool
  unfolding activate_trailing_tp follow_trailing_tp
  trailing_tp x price s =
      if x.config.trailing_tp_enabled && lt nought s.barrier.entry_price
      then follow_trailing_tp x price (activate_trailing_tp x price s)
      else (s, false)

  unfoldable pub legacy_trailing_with :
      Executor W F → TrailingStopConfig F → F → ExecutorState W F → ExecutorState W F × Bool
  unfolding trailing_stop_barrier is_trailing_stop_hit execute_market_exit
  legacy_trailing_with x c price s =
      let b = trailing_stop_barrier c x.position_side price s.barrier in
      let s' = record s { barrier = b } in
      if lt nought s.barrier.entry_price
      then if is_trailing_stop_hit c x.position_side price b
        then (execute_market_exit x trailing_stop s', true)
        else (s', false)
      else (s, false)

  unfoldable pub legacy_trailing : Executor W F → F → ExecutorState W F → ExecutorState W F × Bool
  unfolding legacy_trailing_with
  legacy_trailing x price s = elim x.config.trailing_stop [
    | none ↦ (s, false)
    | some c ↦ legacy_trailing_with x c price s
  ]

  -- The post-only order of an aged position.
  unfoldable pub passive_order : Executor W F → F → Tick F → ExecutorState W F → ExitOrder F
  unfolding passive_price safe_client_order_id
  passive_order x qty tick s = record {
    symbol = x.config.symbol;
    side = exit_side x.position_side;
    position_side = x.position_side;
    order_type = limit_maker;
    amount = qty;
    price = some (passive_price x.config x.quoter x.position_side s.barrier.entry_price tick);
    client_order_id =
        safe_client_order_id (x.outside.millis s.world) (codes "pe_" ++ side_text x.position_side)
          36;
    purpose = passive_time_limit_exit;
  }

  unfoldable pub settle_passive :
      F → ExitOrder F → ExecutorState W F × Option (OrderAnswer F) → ExecutorState W F
  settle_passive now order (s, none) = s
  settle_passive now order (s, some r) = record s {
    barrier = record (s.barrier) {
      passive_exit_active = true;
      passive_exit_order_id = some (id_or order.client_order_id r.id);
      passive_exit_start_time = now;
    };
  }

  unfoldable pub place_passive :
      Executor W F → F → F → Tick F → ExecutorState W F → ExecutorState W F
  unfolding clear_tps passive_order safe_create_exit_order settle_passive
  place_passive x now qty tick s =
      let s' = clear_tps x s in
      let order = passive_order x qty tick s' in
      settle_passive now order (safe_create_exit_order x order s')

  -- The passive order has timed out: it is cancelled and counted.
  unfoldable pub refresh_passive : Executor W F → ExecutorState W F → ExecutorState W F
  unfolding cancel_id
  refresh_passive x s =
      let b = s.barrier in
      record s {
        world = cancel_id x.outside x.config.symbol b.passive_exit_order_id s.world;
        barrier = record b {
          passive_exit_refresh_count = suc b.passive_exit_refresh_count;
          passive_exit_order_id =
              if is_held b.passive_exit_order_id then none else b.passive_exit_order_id;
          passive_exit_active = false;
        };
      }

  -- After two timeouts the exit is at market, and else the order is placed anew.
  unfoldable pub escalate : Executor W F → F → F → Tick F → ExecutorState W F → ExecutorState W F
  unfolding execute_market_exit place_passive
  escalate x now qty tick s =
      if leb 2 s.barrier.passive_exit_refresh_count
      then execute_market_exit x time_limit_exit
          (record s { barrier = record (s.barrier) { passive_exit_refresh_count = 0 } })
      else place_passive x now qty tick s

  -- `_handle_passive_time_limit_exit`
  unfoldable pub handle_passive_time_limit_exit :
      Executor W F → Tick F → ExecutorState W F → ExecutorState W F
  unfolding quantize_amount refresh_passive escalate place_passive
  handle_passive_time_limit_exit x tick s =
      let now = x.outside.time s.world in
      let qty = quantize_amount x.quoter s.barrier.remaining_qty in
      if le qty nought || le s.barrier.entry_price nought
      then s
      else if s.barrier.passive_exit_active
      then if le x.config.passive_exit_timeout_sec (now - s.barrier.passive_exit_start_time)
        then escalate x now qty tick (refresh_passive x s)
        else s
      else place_passive x now qty tick s

  unfoldable pub check_time_limit :
      Executor W F → F → Tick F → ExecutorState W F → ExecutorState W F
  unfolding handle_passive_time_limit_exit
  check_time_limit x elapsed tick s =
      if lt nought x.config.time_limit && le x.config.time_limit elapsed
      then handle_passive_time_limit_exit x tick s
      else s

  -- A stage runs where the one before did not return.
  unfoldable pub and_then :
      ExecutorState W F × Bool
      → (ExecutorState W F → ExecutorState W F × Bool)
      → ExecutorState W F × Bool
  and_then (s, true) next = (s, true)
  and_then (s, false) next = next s

  -- The stages after the holding lock.
  unfoldable pub check_profit_barriers :
      Executor W F → F → Tick F → ExecutorState W F → ExecutorState W F
  unfolding check_favorable_momentum_pyramid trailing_tp legacy_trailing check_time_limit and_then
  check_profit_barriers x elapsed tick s =
      let s' = (check_favorable_momentum_pyramid x tick.price tick.market_state s).0 in
      let last : ExecutorState W F → ExecutorState W F × Bool =
        λ z. (check_time_limit x elapsed tick z, false) in
      (and_then (and_then (trailing_tp x tick.price s') (legacy_trailing x tick.price)) last).0

  -- The tick past its guard: the stop loss, the holding lock, the other barriers.
  unfoldable pub check_barriers : Executor W F → Tick F → ExecutorState W F → ExecutorState W F
  unfolding watchdog is_sl_hit execute_market_exit check_profit_barriers
  check_barriers x tick s =
      let now = x.outside.time s.world in
      let elapsed = now - s.barrier.entry_timestamp in
      let s' = watchdog x now s in
      if is_sl_hit x.config x.position_side tick.price s'.barrier
      then execute_market_exit x stop_loss s'
      else if lt elapsed x.config.min_holding_sec
      then s'
      else check_profit_barriers x elapsed tick s'

  -- The guard, which the source tests again under its lock.
  unfoldable pub is_idle : ExecutorState W F → Bool
  is_idle s = not s.barrier.active || (le s.barrier.remaining_qty (lit 1 7) || s.is_exiting)

  unfoldable pub check_runtime_barriers :
      Executor W F → Tick F → ExecutorState W F → ExecutorState W F
  unfolding is_idle check_barriers
  check_runtime_barriers x tick s =
      if is_idle s || le tick.price nought then s else check_barriers x tick s
