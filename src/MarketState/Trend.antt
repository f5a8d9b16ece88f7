-- ===== src/MarketState/Trend.antt =====
-- The trend and the momentum of a pair (app/core/market_state.py).
use pmm_simple.Prelude.{ltb, not, List, [], ◌∷◌, length, String, if◌then◌else◌}
use pmm_simple.Float.{Float, ◌+◌, ◌-◌, ◌*◌, ◌/◌, nought, lt}
use pmm_simple.Executor.Triggers.{Momentum}
use pmm_simple.MarketState.Series.{
  Candle, calculate_ema, calculate_atr_from_candles, lowest, highest, last_or,
}
use pmm_simple.MarketState.{MarketState, Sample, evict}

module _ {F : Type 0} ⦃f : Float F⦄ where
  -- The regime of a close against the average and its buffer.
  pub trend_regime : F → F → F → String
  trend_regime close ema buffer =
      if lt (ema + buffer) close
      then "BULLISH"
      else if lt close (ema - buffer)
      then "BEARISH"
      else "NEUTRAL"

  -- The positive closes.
  pub positive_closes : List (Candle F) → List F
  positive_closes [] = []
  positive_closes (c ∷ cs) =
      let rest = positive_closes cs in if lt nought c.close then c.close ∷ rest else rest

  abbrev pub with_trend : List (Candle F) → List F → MarketState F → MarketState F
  with_trend candles [] m = m
  with_trend candles (p ∷ ps) m =
      let ema = calculate_ema (p ∷ ps) m.config.trend_ema_period in
      let atr = calculate_atr_from_candles candles 14 in
      record m {
        trend_bias_regime = trend_regime (last_or p ps) ema (m.config.trend_atr_buffer_mult * atr);
        last_ema50 = ema;
        last_atr_1h = atr;
      }

  -- The market after the call; the regime that the call returns is its `trend_bias_regime`.
  pub update_trend_bias : List (Candle F) → MarketState F → MarketState F
  unfolding trend_regime positive_closes
  update_trend_bias candles m =
      if not m.config.trend_bias_enabled
      then record m { trend_bias_regime = "NEUTRAL" }
      else if ltb (length candles) 10
      then m
      else with_trend candles (positive_closes candles) m

  -- The moves up from the lowest and down from the highest price of a window to its last price.
  pub momentum_of : List F → F × F
  momentum_of [] = (nought, nought)
  momentum_of (p ∷ ps) =
      let last = last_or p ps in
      let low = lowest p ps in
      let high = highest p ps in
      (
        if lt nought low then (last - low) / low else nought,
        if lt nought high then (high - last) / high else nought,
      )

  pub positive_prices : List (Sample F) → List F
  positive_prices [] = []
  positive_prices (p ∷ h) =
      let rest = positive_prices h in if lt nought p.price then p.price ∷ rest else rest

  -- The market with its window cut, and what the pyramid check reads.
  pub get_favorable_momentum_60s : F → MarketState F → MarketState F × Momentum F
  unfolding evict positive_prices momentum_of
  get_favorable_momentum_60s now m =
      let h = evict now m.config.circuit_breaker_lookback_sec m.price_history_60s in
      let (up, down) =
        if ltb (length h) 2 then (nought, nought) else momentum_of (positive_prices h) in
      (
        record m { price_history_60s = h },
        record { natr_15m = m.current_natr_15m; surge_up = up; plunge_down = down },
      )
