-- ===== src/Worker/Loop.antt =====
-- The main loop of a worker (app/core/worker.py, `_main_worker_loop`): the ticker where the stream is stale, the
-- heartbeat of reconciliations, the two refreshes from candles, and the requote.
use pmm_simple.Prelude.{
  ℕ, zero, suc, ◌&&◌, Bool, true, false, Option, none, some, List, [], ◌∷◌, leb, length,
  if◌then◌else◌,
}
use pmm_simple.Float.{Float, ◌-◌, ◌/◌, nought, lit, lt, le}
use pmm_simple.MarketState.{is_valid_book, update_natr_15m}
use pmm_simple.MarketState.Series.{Candle, calculate_atr_from_candles}
use pmm_simple.Worker.{on_ticker_update, check_should_requote}
use pmm_simple.Worker.State.{Worker, WorkerState}
use pmm_simple.Worker.Requote.{requote}
use pmm_simple.Worker.Orders.{OrderBook, reconcile_open_orders}
use pmm_simple.Worker.Lifecycle.{Startup, Ticker, settle_trend, sync_tracker, reconcile_barriers}

-- The local variables of the loop that last from round to round.
pub record LoopTimes (F : Type 0) : Type 0 where
  pub last_reconcile : F
  pub last_trend_check : F
  pub last_natr_check : F

-- The worker and the times.
abbrev pub Loop : Type 0 → Type 0 → Type 0
Loop W F = WorkerState W F × LoopTimes F

module _ {F : Type 0} ⦃f : Float F⦄ where
  abbrev pub last_close : Candle F → List (Candle F) → F
  last_close c [] = c.close
  last_close c (d ∷ ds) = last_close d ds

  -- The 15 minute volatility, where there are two candles and it is positive.
  unfoldable pub natr_of : List (Candle F) → Option F
  natr_of [] = none
  natr_of (c ∷ cs) =
      let atr = calculate_atr_from_candles (c ∷ cs) 14 in
      let close = last_close c cs in
      if leb 2 (length (c ∷ cs)) && (lt nought close && lt nought atr)
      then some (atr / close)
      else none

  abbrev pub candles_or_none : Option (List (Candle F)) → List (Candle F)
  candles_or_none none = []
  candles_or_none (some cs) = cs

  abbrev pub has_candles : Option (List (Candle F)) → Bool
  has_candles none = false
  has_candles (some []) = false
  has_candles (some (c ∷ cs)) = true

module _ {W F : Type 0} ⦃f : Float F⦄ where
  abbrev pub settle_ticker : Worker W F → Option (Ticker F) → WorkerState W F → WorkerState W F
  settle_ticker x none s = s
  settle_ticker x (some t) s =
      if lt nought t.bid && lt nought t.ask then on_ticker_update x t.bid t.ask t.mark s else s

  -- Step 1: the stream is stale after five seconds.
  unfoldable pub refresh_ticker : Worker W F → Startup W F → WorkerState W F → WorkerState W F
  unfolding on_ticker_update
  refresh_ticker x y s =
      let (w, ticker) = y.fetch_ticker_and_mark x.symbol s.world in
      if le (lit 5 0) (x.outside.time s.world - s.market.last_update_time)
      then settle_ticker x ticker (record s { world = w })
      else s

  -- Step 2, the heartbeat.
  unfoldable pub heartbeat : Worker W F → OrderBook W F → F → Loop W F → Loop W F
  unfolding sync_tracker reconcile_barriers reconcile_open_orders
  heartbeat x b now (s, times) =
      if le s.config.reconcile_interval_sec (now - times.last_reconcile)
      then (
        reconcile_open_orders x b (reconcile_barriers x (sync_tracker x s)),
        record times { last_reconcile = now },
      )
      else (s, times)

  unfoldable pub refresh_trend : Worker W F → Startup W F → F → Loop W F → Loop W F
  unfolding settle_trend
  refresh_trend x y now (s, times) =
      let (w, candles) = y.fetch_ohlcv x.symbol s.world in
      if s.config.trend_bias_enabled && le (lit 300 0) (now - times.last_trend_check)
      then (
        settle_trend candles (record s { world = w }),
        if has_candles candles then record times { last_trend_check = now } else times,
      )
      else (s, times)

  abbrev pub settle_natr : F → Option F → Loop W F → Loop W F
  settle_natr now none l = l
  settle_natr now (some natr) (s, times) =
      (record s { market = update_natr_15m natr s.market }, record times { last_natr_check = now })

  unfoldable pub refresh_natr : Worker W F → Startup W F → F → Loop W F → Loop W F
  unfolding natr_of
  refresh_natr x y now (s, times) =
      let (w, candles) = y.fetch_ohlcv_15m x.symbol s.world in
      if le (lit 300 0) (now - times.last_natr_check)
      then settle_natr now (natr_of (candles_or_none candles)) (record s { world = w }, times)
      else (s, times)

  -- Step 3.
  unfoldable pub requote_if_due : Worker W F → WorkerState W F → WorkerState W F
  unfolding check_should_requote requote
  requote_if_due x s = if check_should_requote x s then requote x s else s

  -- One round. Without a valid book it ends after the ticker.
  unfoldable pub main_round : Worker W F → Startup W F → OrderBook W F → Loop W F → Loop W F
  main_round x y b (s, times) =
      let fresh = refresh_ticker x y s in
      let now = x.outside.time fresh.world in
      let refreshed =
        refresh_natr x y now (refresh_trend x y now (heartbeat x b now (fresh, times))) in
      if is_valid_book fresh.market.best_bid fresh.market.best_ask
      then (requote_if_due x (refreshed.0), refreshed.1)
      else (fresh, times)

  -- `while self._running`, with the pause after each round.
  unfoldable pub main_loop :
      ℕ → (W → W) → Worker W F → Startup W F → OrderBook W F → Loop W F → Loop W F
  main_loop zero sleep x y b l = l
  main_loop (suc n) sleep x y b l =
      let (s, times) = main_round x y b l in
      let rest = main_loop n sleep x y b (record s { world = sleep s.world }, times) in
      if (l.0).running then rest else l
