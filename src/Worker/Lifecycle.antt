-- ===== src/Worker/Lifecycle.antt =====
-- The life of a worker (app/core/worker.py, `__init__`, `set_drain_mode`, `_init_market_state`, `start`, `stop`,
-- `reconcile_barriers` and `get_risk_stats`).
use pmm_simple.Prelude.{
  ℕ, zero, suc, ◌&&◌, Bool, true, false, Option, none, some, List, [], ◌∷◌, String, if◌then◌else◌,
}
use text.Mathlib.Text.{◌==◌ as str_eq}
use pmm_simple.Float.{Float, ◌-◌, nought, lit, lt, eq, max, abs}
use pmm_simple.Models.Config.{PairConfig}
use pmm_simple.Models.State.{PositionSide, long, short}
use pmm_simple.Tracker.{PositionTracker, new_tracker}
use pmm_simple.Tracker.Sync.{reconcile_with_exchange}
use pmm_simple.CircuitBreaker.{utc_day_start}
use pmm_simple.Executor.State.{new_barrier}
use pmm_simple.Executor.Reconcile.{reconcile_barrier}
use pmm_simple.MarketState.{new_market_state}
use pmm_simple.MarketState.Trend.{update_trend_bias}
use pmm_simple.MarketState.Series.{Candle}
use pmm_simple.Worker.{on_ticker_update}
use pmm_simple.Executor.Ids.{Text}
use pmm_simple.Worker.Risk.{current_pnl, trigger_isolated_kill}
use pmm_simple.Worker.State.{
  Worker, WorkerState, ExecutorOwn, executor_of, long_part, short_part, with_long, with_short,
  cancel_active_quotes, is_locked,
}

pub record Ticker (F : Type 0) : Type 0 where
  pub bid : F
  pub ask : F
  pub mark : F

-- What starting and stopping asks for besides. A call that raises answers `none`; a task that is started or
-- cancelled is a request.
pub record Startup (W F : Type 0) : Type 0 where
  pub setup_symbol : PairConfig F → W → W
  pub fetch_ohlcv : String → W → W × Option (List (Candle F))
  pub fetch_ohlcv_15m : String → W → W × Option (List (Candle F))
  pub fetch_ticker_and_mark : String → W → W × Option (Ticker F)
  -- The total of `get_pnl_summary` for the symbol since a time.
  pub day_pnl : String → F → W → Option F
  -- `asyncio.sleep(0.5)`
  pub sleep_half : W → W
  pub start_tasks : W → W
  pub cancel_tasks : W → W
  pub request_cancel_quotes : W → W

module _ {F : Type 0} where
  abbrev pub with_regime : String → PositionTracker F → PositionTracker F
  with_regime regime t = record t {
    long_pos = record (t.long_pos) {
      trend_bias_regime = regime;
      is_trend_blocked = str_eq regime "BEARISH";
    };
    short_pos = record (t.short_pos) {
      trend_bias_regime = regime;
      is_trend_blocked = str_eq regime "BULLISH";
    };
  }

module _ {F : Type 0} ⦃f : Float F⦄ where
  abbrev pub new_own : PairConfig F → PositionSide → ExecutorOwn F
  new_own c side = record {
    barrier = new_barrier c.symbol side;
    is_exiting = false;
    trailing_cb_override = none;
  }

  abbrev pub is_usable : Ticker F → Bool
  is_usable t = lt nought t.bid && (lt nought t.ask && lt t.bid t.ask)

module _ {W F : Type 0} ⦃f : Float F⦄ where
  -- `__init__`
  unfoldable pub new_worker_state : PairConfig F → W → WorkerState W F
  new_worker_state c w = record {
    config = c;
    executor_config = c;
    world = w;
    market = new_market_state c;
    tracker = new_tracker c;
    executor_long = new_own c long;
    executor_short = new_own c short;
    session_realized_pnl = nought;
    peak_pnl = nought;
    is_locked_killed = c.is_locked;
    running = false;
    paused = false;
    is_draining = false;
    active_quotes = [];
    last_quote_time = nought;
    last_quote_mid = nought;
  }

  unfoldable pub is_flat : WorkerState W F → Bool
  is_flat s =
      lt (abs s.tracker.long_pos.amount) (lit 1 6) && lt (abs s.tracker.short_pos.amount) (lit 1 6)

  unfoldable pub set_drain_mode : Startup W F → Bool → WorkerState W F → WorkerState W F
  set_drain_mode y draining s =
      let s' = record s { is_draining = draining } in
      if draining then record s' { world = y.request_cancel_quotes s.world } else s'

  -- The trend from the candles, where some came.
  unfoldable pub settle_trend : Option (List (Candle F)) → WorkerState W F → WorkerState W F
  settle_trend none s = s
  settle_trend (some []) s = s
  settle_trend (some (c ∷ cs)) s =
      let m = update_trend_bias (c ∷ cs) s.market in
      record s { market = m; tracker = with_regime m.trend_bias_regime s.tracker }

  unfoldable pub load_trend : Worker W F → Startup W F → WorkerState W F → WorkerState W F
  unfolding settle_trend
  load_trend x y s =
      let (w, candles) = y.fetch_ohlcv x.symbol s.world in
      if s.config.trend_bias_enabled then settle_trend candles (record s { world = w }) else s

  -- The attempts left to prime the market with a ticker.
  unfoldable pub prime : Worker W F → Startup W F → ℕ → WorkerState W F → WorkerState W F
  unfolding on_ticker_update
  prime x y zero s = s
  prime x y (suc n) s =
      let (w, ticker) = y.fetch_ticker_and_mark x.symbol s.world in
      let again = prime x y n (record s { world = y.sleep_half w }) in
      let primed : WorkerState W F = elim ticker [
        | none ↦ again
        | some t ↦
            if is_usable t
            then on_ticker_update x t.bid t.ask t.mark (record s { world = w })
            else again
      ] in
      primed

  unfoldable pub init_market_state : Worker W F → Startup W F → WorkerState W F → WorkerState W F
  unfolding load_trend prime
  init_market_state x y s = prime x y 3 (load_trend x y s)

  unfoldable pub sync_tracker : Worker W F → WorkerState W F → WorkerState W F
  sync_tracker x s =
      let (w, fetched) = x.outside.fetch_positions_hedge x.symbol s.world in
      record s {
        world = w;
        tracker = (reconcile_with_exchange (x.outside.time w) fetched s.tracker).0;
      }

  -- `mark_price or current_price or 0.0`
  unfoldable pub barrier_mark : WorkerState W F → F
  barrier_mark s =
      if eq s.market.mark_price nought
      then s.tracker.long_pos.current_price
      else s.market.mark_price

  -- `_on_isolated_kill`: the executors are made with the worker's own kill.
  unfoldable pub on_isolated_kill : Worker W F → Option Text → WorkerState W F → WorkerState W F
  unfolding trigger_isolated_kill
  on_isolated_kill x none s = s
  on_isolated_kill x (some reason) s = trigger_isolated_kill x s

  unfoldable pub reconcile_long : Worker W F → F → WorkerState W F → WorkerState W F
  unfolding with_long executor_of reconcile_barrier on_isolated_kill
  reconcile_long x mark s =
      let c = executor_of x s.executor_config long in
      on_isolated_kill x (reconcile_barrier c mark (long_part s)).1
        (with_long (λ t. (reconcile_barrier c mark t).0) s)

  unfoldable pub reconcile_short : Worker W F → F → WorkerState W F → WorkerState W F
  unfolding with_short executor_of reconcile_barrier on_isolated_kill
  reconcile_short x mark s =
      let c = executor_of x s.executor_config short in
      on_isolated_kill x (reconcile_barrier c mark (short_part s)).1
        (with_short (λ t. (reconcile_barrier c mark t).0) s)

  unfoldable pub reconcile_barriers : Worker W F → WorkerState W F → WorkerState W F
  unfolding barrier_mark reconcile_long reconcile_short
  reconcile_barriers x s =
      let mark = barrier_mark s in reconcile_short x mark (reconcile_long x mark s)

  -- The result of the day so far, where the database has one.
  unfoldable pub restore_pnl : Worker W F → Startup W F → WorkerState W F → WorkerState W F
  restore_pnl x y s = elim (y.day_pnl x.symbol (utc_day_start (x.outside.time s.world)) s.world) [
    | none ↦ s
    | some pnl ↦ record s { session_realized_pnl = pnl; peak_pnl = max nought pnl }
  ]

  unfoldable pub begin_running : Startup W F → WorkerState W F → WorkerState W F
  begin_running y s = record s {
    running = true;
    paused = false;
    market = record (s.market) { price_history_60s = [] };
    world = y.start_tasks s.world;
  }

  -- What `start` does before the worker runs.
  unfoldable pub prepare : Worker W F → Startup W F → WorkerState W F → WorkerState W F
  unfolding sync_tracker init_market_state reconcile_barriers restore_pnl
  prepare x y s =
      let set_up = record s { world = y.setup_symbol s.config s.world } in
      restore_pnl x y (reconcile_barriers x (init_market_state x y (sync_tracker x set_up)))

  -- `start`
  unfoldable pub start : Worker W F → Startup W F → WorkerState W F → WorkerState W F
  unfolding prepare begin_running
  start x y s = if is_locked s then s else if s.running then s else begin_running y (prepare x y s)

  -- `stop`
  unfoldable pub stop : Worker W F → Startup W F → WorkerState W F → WorkerState W F
  unfolding cancel_active_quotes
  stop x y s = cancel_active_quotes x (record s { running = false; world = y.cancel_tasks s.world })

-- The dict that `get_risk_stats` returns.
pub record RiskStats (F : Type 0) : Type 0 where
  pub current : F
  pub session_realized : F
  pub peak : F
  pub drawdown : F
  pub max_loss_usdt : F
  pub max_drawdown_usdt : F
  pub locked : Bool

module _ {W F : Type 0} ⦃f : Float F⦄ where
  unfoldable pub get_risk_stats : WorkerState W F → RiskStats F
  unfolding current_pnl
  get_risk_stats s =
      let now = current_pnl s in
      let peak = max s.peak_pnl now in
      record {
        current = f.round now 2;
        session_realized = f.round s.session_realized_pnl 2;
        peak = f.round peak 2;
        drawdown = f.round (peak - now) 2;
        max_loss_usdt = s.config.worker_max_loss_usdt;
        max_drawdown_usdt = s.config.worker_max_drawdown_usdt;
        locked = is_locked s;
      }
