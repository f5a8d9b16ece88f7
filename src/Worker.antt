-- ===== src/Worker.antt =====
-- app/core/worker.py: one pair's worker, which joins the market state, the tracker and the two executors: ticks,
-- fills, and the decision to requote.
pub mod Risk
pub mod State
pub mod Routing
pub mod Quoting
pub mod Coverage
pub mod Requote
pub mod Kill
pub mod OwnIds
pub mod Orders
pub mod Lifecycle
pub mod Start
pub mod Loop
mod Tests
use pmm_simple.Prelude.{◌&&◌, ◌||◌, Bool, not, some, if◌then◌else◌}
use text.Mathlib.Text.{◌==◌ as str_eq}
use pmm_simple.Float.{Float, ◌+◌, ◌-◌, ◌*◌, ◌/◌, nought, lit, le, lt, abs}
use pmm_simple.Models.State.{long, short, FillRecord, is_long}
use pmm_simple.Tracker.{on_fill, update_mark_price, cid_of}
use pmm_simple.Executor.State.{market, Executor, ExecutorState}
use pmm_simple.Executor.Fills.{on_entry_fill, on_exit_fill}
use pmm_simple.Executor.Runtime.{check_runtime_barriers}
use pmm_simple.Executor.Triggers.{Tick}
use pmm_simple.MarketState.{update_ticker, is_valid_book}
use pmm_simple.MarketState.Trend.{get_favorable_momentum_60s}
use pmm_simple.Worker.Routing.{route}
use pmm_simple.Worker.State.{
  Worker, WorkerState, executor_of, has_quotes, is_crossing, is_hanging, is_locked, with_long,
  with_short,
}
use pmm_simple.Worker.Risk.{check_dynamic_circuit_breaker, check_isolated_risk_breach}

module _ {W F : Type 0} ⦃f : Float F⦄ where
  -- The two executors look at the tick. The momentum is read from the window as the tick left it.
  unfoldable pub tick_executors : Worker W F → F → F → F → WorkerState W F → WorkerState W F
  unfolding with_long with_short executor_of
  tick_executors x bid ask mark s =
      let now = x.outside.time s.world in
      let tick : Tick F = record {
        price = mark;
        best_bid = bid;
        best_ask = ask;
        market_state = some ((get_favorable_momentum_60s now s.market).1);
      } in
      with_short (check_runtime_barriers (executor_of x s.executor_config short) tick)
        (with_long (check_runtime_barriers (executor_of x s.executor_config long) tick) s)

  -- `on_ticker_update`
  unfoldable pub on_ticker_update : Worker W F → F → F → F → WorkerState W F → WorkerState W F
  unfolding check_dynamic_circuit_breaker check_isolated_risk_breach tick_executors
  on_ticker_update x bid ask mark s =
      let priced = record s {
        market = update_ticker (x.outside.time s.world) bid ask mark s.market;
        tracker = update_mark_price mark s.tracker;
      } in
      tick_executors x bid ask mark
        (check_isolated_risk_breach x (check_dynamic_circuit_breaker x priced))

  -- The executor of the fill's side takes it.
  unfoldable pub deliver : Worker W F → Bool → FillRecord F → WorkerState W F → WorkerState W F
  unfolding with_long with_short executor_of
  deliver x entering fill s =
      let step : Executor W F → ExecutorState W F → ExecutorState W F =
        λ e. if entering then on_entry_fill e fill else on_exit_fill e fill in
      if is_long fill.position_side
      then with_long (step (executor_of x s.executor_config long)) s
      else with_short (step (executor_of x s.executor_config short)) s

  -- An exit fill counts in the session's result, and the risk limits are checked.
  unfoldable pub book_exit : Worker W F → FillRecord F → WorkerState W F → WorkerState W F
  unfolding check_isolated_risk_breach
  book_exit x fill s =
      check_isolated_risk_breach x (record s {
        session_realized_pnl = s.session_realized_pnl + (fill.realized_pnl - fill.fee);
      })

  unfoldable pub settle_fill : Worker W F → Bool → FillRecord F → WorkerState W F → WorkerState W F
  unfolding deliver book_exit
  settle_fill x entering fill s =
      let t = deliver x entering fill (record s { world = x.save_fill fill s.world }) in
      let t' = if entering then t else book_exit x fill t in
      if is_locked t' || t'.is_draining
      then t'
      else record t' { world = x.request_requote t'.world }

  -- `on_fill`
  unfoldable pub handle_fill : Worker W F → FillRecord F → WorkerState W F → WorkerState W F
  unfolding settle_fill route
  handle_fill x fill s =
      let (side, entering) = route (cid_of fill) fill in
      let (t, fill', processed) = on_fill (record fill { position_side = side }) s.tracker in
      let s' = record s { tracker = t } in
      if not (str_eq fill.symbol x.symbol)
      then s
      else if processed
      then settle_fill x entering fill' s'
      else s'

  -- The middle price has moved enough, and the quotes have lived long enough for the move.
  unfoldable pub is_mid_moved : F → WorkerState W F → Bool
  is_mid_moved since s =
      let c = s.config in
      let delta = abs (s.market.smoothed_mid - s.last_quote_mid) / s.last_quote_mid in
      lt nought s.last_quote_mid
      && (le c.requote_threshold_pct delta
          && (le c.min_quote_lifespan_sec since || le (c.requote_threshold_pct * lit 25 1) delta))

  -- The worker may quote at all.
  unfoldable pub may_quote : Worker W F → WorkerState W F → Bool
  may_quote x s =
      x.is_auth_healthy s.world
      && (not (not s.running || (s.paused || (not s.config.enabled || is_locked s)))
          && (not s.is_draining
              && (is_valid_book s.market.best_bid s.market.best_ask
                  && lt nought s.market.smoothed_mid)))

  -- `_check_should_requote`, without the reason.
  unfoldable pub check_should_requote : Worker W F → WorkerState W F → Bool
  unfolding may_quote is_crossing is_hanging is_mid_moved
  check_should_requote x s =
      let c = s.config in
      let since = x.outside.time s.world - s.last_quote_time in
      let quotes = s.active_quotes in
      may_quote x s
      && (not (has_quotes quotes)
          || (is_crossing s.market.best_bid s.market.best_ask quotes
              || (le c.order_refresh_time since
                  || ((c.hanging_orders_enabled
                        && is_hanging c.hanging_orders_cancel_pct s.market.smoothed_mid quotes)
                      || is_mid_moved since s))))
