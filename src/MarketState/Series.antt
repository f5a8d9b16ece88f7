-- ===== src/MarketState/Series.antt =====
-- Series of prices and candles (app/core/market_state.py, `calculate_ema` and `calculate_atr_from_candles`).
use pmm_simple.Prelude.{ℕ, zero, suc, List, [], ◌∷◌, length}
use Prim.Native.Nat.{◌-◌ as sub_ℕ}
use pmm_simple.Float.{Float, ◌+◌, ◌-◌, ◌*◌, ◌/◌, nought, one, lit, min, max, abs}

-- The columns 2, 3 and 4 of a row of candles.
pub record Candle (F : Type 0) : Type 0 where
  pub high : F
  pub low : F
  pub close : F

module _ {F : Type 0} where
  -- `ps[:n]` and `ps[n:]`
  abbrev pub first : ℕ → List F → List F
  first zero ps = []
  first (suc n) [] = []
  first (suc n) (p ∷ ps) = p ∷ first n ps

  abbrev pub beyond : ℕ → List F → List F
  beyond zero ps = ps
  beyond (suc n) [] = []
  beyond (suc n) (p ∷ ps) = beyond n ps

  -- The last of a price and the prices after it.
  abbrev pub last_or : F → List F → F
  last_or p [] = p
  last_or p (q ∷ qs) = last_or q qs

module _ {F : Type 0} ⦃f : Float F⦄ where
  abbrev pub lowest : F → List F → F
  lowest m [] = m
  lowest m (p ∷ ps) = lowest (min m p) ps

  abbrev pub highest : F → List F → F
  highest m [] = m
  highest m (p ∷ ps) = highest (max m p) ps

  -- `sum`, from the left.
  abbrev sum_from : F → List F → F
  sum_from t [] = t
  sum_from t (p ∷ ps) = sum_from (t + p) ps

  abbrev pub sum_prices : List F → F
  sum_prices ps = sum_from nought ps

  abbrev average : List F → F
  average ps = sum_prices ps / lit (length ps) 0

  abbrev ema_loop : F → F → List F → F
  ema_loop alpha ema [] = ema
  ema_loop alpha ema (p ∷ ps) = ema_loop alpha (alpha * p + (one - alpha) * ema) ps

  -- The average of the first prices, then the exponential average; a single price is its own.
  pub calculate_ema : List F → ℕ → F
  calculate_ema [] period = nought
  calculate_ema (p ∷ []) period = p
  calculate_ema (p ∷ q ∷ ps) period =
      let alpha = lit 20 1 / (lit period 0 + one) in
      ema_loop alpha (average (first period (p ∷ q ∷ ps))) (beyond period (p ∷ q ∷ ps))

  abbrev true_range : F → Candle F → F
  true_range prev_close c =
      max (max (c.high - c.low) (abs (c.high - prev_close))) (abs (c.low - prev_close))

  abbrev true_ranges : F → List (Candle F) → List F
  true_ranges prev_close [] = []
  true_ranges prev_close (c ∷ cs) = true_range prev_close c ∷ true_ranges c.close cs

  -- The average of the last `period` true ranges.
  pub calculate_atr_from_candles : List (Candle F) → ℕ → F
  calculate_atr_from_candles [] period = nought
  calculate_atr_from_candles (c ∷ []) period = nought
  calculate_atr_from_candles (c ∷ d ∷ cs) period =
      let ranges = true_ranges c.close (d ∷ cs) in
      average (beyond (sub_ℕ (length ranges) period) ranges)
