-- ===== src/Worker/Risk.antt =====
-- The unlocking, the isolated kill and the dynamic circuit breaker of a worker (app/core/worker.py).
use pmm_simple.Prelude.{◌&&◌, ◌||◌, ◌++◌, Bool, true, false, not, none, codes, if◌then◌else◌}
use pmm_simple.Float.{Float, ◌+◌, ◌-◌, nought, le, lt, max, abs}
use pmm_simple.Models.State.{PositionSide, long, short}
use pmm_simple.Tracker.{reset_sl_cooldown}
use pmm_simple.Quoter.Pricing.{quantize_amount}
use pmm_simple.Executor.Ids.{Text}
use pmm_simple.Executor.State.{
  market, circuit_breaker_exit, ExitOrder, Executor, ExecutorState, exit_side,
}
use pmm_simple.Executor.Exits.{cleanup_all_barrier_orders}
use pmm_simple.MarketState.{check_circuit_breaker, is_circuit_breaker_active}
use pmm_simple.Worker.State.{
  Worker, WorkerState, cancel_active_quotes, executor_of, is_locked, with_long, with_short,
}

module _ {W F : Type 0} ⦃f : Float F⦄ where
  unfoldable pub unlock : Worker W F → WorkerState W F → WorkerState W F
  unlock x s =
      let c = record (s.config) { is_locked = false } in
      record s {
        config = c;
        is_locked_killed = false;
        session_realized_pnl = nought;
        peak_pnl = nought;
        tracker = reset_sl_cooldown none s.tracker;
        world = x.save_pair_config c s.world;
        paused = false;
      }

  -- Realized and unrealized.
  unfoldable pub current_pnl : WorkerState W F → F
  current_pnl s =
      s.session_realized_pnl
      + (s.tracker.long_pos.unrealized_pnl + s.tracker.short_pos.unrealized_pnl)

  -- The barrier orders of one side are cancelled, and its barrier is off.
  unfoldable pub stand_down : Executor W F → ExecutorState W F → ExecutorState W F
  unfolding cleanup_all_barrier_orders
  stand_down x t =
      let t' = cleanup_all_barrier_orders x t in
      record t' { barrier = record (t'.barrier) { active = false } }

  -- A market order for the whole of a side, where there is one; its answer is not looked at.
  unfoldable pub close_side : Worker W F → PositionSide → F → Text → W → W
  unfolding quantize_amount
  close_side x side amount client_id w =
      let qty = quantize_amount x.quoter amount in
      let order : ExitOrder F = record {
        symbol = x.symbol;
        side = exit_side side;
        position_side = side;
        order_type = market;
        amount = qty;
        price = none;
        client_order_id = client_id;
        purpose = circuit_breaker_exit;
      } in
      if lt nought amount && lt nought qty then (x.outside.create_exit_order order w).0 else w

  -- The worker is locked and the configuration saved.
  unfoldable pub lock : Worker W F → WorkerState W F → WorkerState W F
  lock x s =
      let c = record (s.config) { is_locked = true; enabled = false } in
      record s { config = c; is_locked_killed = true; world = x.save_pair_config c s.world }

  unfoldable pub close_positions : Worker W F → WorkerState W F → WorkerState W F
  unfolding close_side
  close_positions x s =
      let kill = λ (side : Text) (w : W). side ++ x.outside.millis w in
      let w =
        close_side x long s.tracker.long_pos.amount (kill (codes "kill_long_") s.world) s.world in
      let w' = close_side x short s.tracker.short_pos.amount (kill (codes "kill_short_") w) w in
      record s { world = w'; running = false; paused = true }

  -- `_trigger_isolated_kill`
  unfoldable pub trigger_isolated_kill : Worker W F → WorkerState W F → WorkerState W F
  unfolding lock cancel_active_quotes with_long with_short stand_down close_positions executor_of
  trigger_isolated_kill x s = close_positions x (
      with_short (stand_down (executor_of x s.executor_config short)) (
        with_long (stand_down (executor_of x s.executor_config long))
          (cancel_active_quotes x (lock x s))))

  abbrev pub is_loss_breached : WorkerState W F → Bool
  is_loss_breached s = le (current_pnl s) (nought - abs s.config.worker_max_loss_usdt)

  abbrev pub is_drawdown_breached : WorkerState W F → Bool
  is_drawdown_breached s = le (abs s.config.worker_max_drawdown_usdt) (s.peak_pnl - current_pnl s)

  -- `_check_isolated_risk_breach`
  unfoldable pub check_isolated_risk_breach : Worker W F → WorkerState W F → WorkerState W F
  unfolding current_pnl trigger_isolated_kill
  check_isolated_risk_breach x s =
      let s' = record s { peak_pnl = max s.peak_pnl (current_pnl s) } in
      if is_locked s
      then s
      else if is_loss_breached s' || is_drawdown_breached s'
      then trigger_isolated_kill x s'
      else s'

  -- `_check_dynamic_circuit_breaker`: the pause starts, or ends with a request to requote.
  unfoldable pub check_dynamic_circuit_breaker : Worker W F → WorkerState W F → WorkerState W F
  unfolding cancel_active_quotes
  check_dynamic_circuit_breaker x s =
      let now = x.outside.time s.world in
      let (m, tripped) = check_circuit_breaker now s.market in
      let until = m.circuit_breaker_paused_until in
      let s' = record s { market = m } in
      if not s.config.circuit_breaker_enabled
      then s
      else if tripped
      then if is_circuit_breaker_active now m
        then s'
        else cancel_active_quotes x (record s {
          market = record m {
            circuit_breaker_paused_until = now + s.config.circuit_breaker_pause_sec;
          };
        })
      else if lt nought until && le until now
      then record s {
        market = record m { circuit_breaker_paused_until = nought };
        world = x.request_requote s.world;
      }
      else s'
