-- ===== src/MarketState.antt =====
-- app/core/market_state.py: the top of the book, the price windows, the volatility breaker of a pair,
-- and the test whether the market is fit for quotes. The clock is an argument `now`.
pub mod Trend
pub mod Series
pub mod Windows
pub mod Sanity
mod Tests
use pmm_simple.Prelude.{
  ℕ, ltb, ◌&&◌, ◌||◌, ◌++◌, Bool, false, not, Option, none, some, List, [], ◌∷◌, map, length,
  String, if◌then◌else◌,
}
use pmm_simple.Float.{Float, ◌+◌, ◌-◌, ◌*◌, ◌/◌, nought, one, lit, le, lt, min, max, abs}
use pmm_simple.Models.Config.{PairConfig}
use pmm_simple.MarketState.Series.{sum_prices, lowest, highest}

-- A time and a price.
pub record Sample (F : Type 0) : Type 0 where
  pub at : F
  pub price : F

pub record MarketState (F : Type 0) : Type 0 where
  pub config : PairConfig F
  pub best_bid : F
  pub best_ask : F
  pub raw_mid : F
  pub mark_price : F
  pub smoothed_mid : F
  pub ema_alpha : F
  pub last_update_time : F
  pub price_history : List (Sample F)
  pub baseline_vol : F
  pub price_history_60s : List (Sample F)
  pub circuit_breaker_paused_until : F
  pub current_natr_15m : F
  pub trend_bias_regime : String
  pub last_ema50 : F
  pub last_atr_1h : F

-- Why the market is not fit for quotes.
pub data Insane : Type 0 where
  breaker_active invalid_book spread_too_wide basis_too_high volatility_surge : Insane

-- `deque(maxlen=n).append`
pub push_bounded : {F : Type 0} → ℕ → Sample F → List (Sample F) → List (Sample F)
push_bounded n p [] = p ∷ []
push_bounded n p (q ∷ h) = if ltb (length (q ∷ h)) n then (q ∷ h) ++ (p ∷ []) else h ++ (p ∷ [])

module _ {F : Type 0} ⦃f : Float F⦄ where
  -- `__init__`
  pub new_market_state : PairConfig F → MarketState F
  new_market_state c = record {
    config = c;
    best_bid = nought;
    best_ask = nought;
    raw_mid = nought;
    mark_price = nought;
    smoothed_mid = nought;
    ema_alpha = lit 3 1;
    last_update_time = nought;
    price_history = [];
    baseline_vol = lit 5 3;
    price_history_60s = [];
    circuit_breaker_paused_until = nought;
    current_natr_15m = lit 12 3;
    trend_bias_regime = "NEUTRAL";
    last_ema50 = nought;
    last_atr_1h = nought;
  }

  pub update_natr_15m : F → MarketState F → MarketState F
  update_natr_15m natr m =
      if le (lit 1 4) natr && le natr (lit 20 2) then record m { current_natr_15m = natr } else m

  pub get_circuit_breaker_threshold : MarketState F → F
  get_circuit_breaker_threshold m =
      max m.config.circuit_breaker_min_threshold_pct
        (m.config.circuit_breaker_natr_multiplier * m.current_natr_15m)

  -- The loop that drops the samples from the front while they are older than `lookback`.
  pub evict : F → F → List (Sample F) → List (Sample F)
  evict now lookback [] = []
  evict now lookback (p ∷ h) =
      let rest = evict now lookback h in if lt lookback (now - p.at) then rest else p ∷ h

  abbrev pub prices : List (Sample F) → List F
  prices h = map (λ (p : Sample F). p.price) h

  -- `(max - min) / min` of the window, or none for fewer than two prices or a price that is not positive.
  pub swing : List F → Option F
  swing [] = none
  swing (p ∷ []) = none
  swing (p ∷ q ∷ ps) =
      let low = lowest p (q ∷ ps) in
      if le low nought then none else some ((highest p (q ∷ ps) - low) / low)

  -- Whether the window's swing reaches the threshold, and the market with the window cut.
  pub check_circuit_breaker : F → MarketState F → MarketState F × Bool
  unfolding evict swing get_circuit_breaker_threshold
  check_circuit_breaker now m =
      let h = evict now m.config.circuit_breaker_lookback_sec m.price_history_60s in
      let tripped : Bool = elim (swing (prices h)) [
        | none ↦ false
        | some delta ↦ le (get_circuit_breaker_threshold m) delta
      ] in
      if m.config.circuit_breaker_enabled
      then (record m { price_history_60s = h }, tripped)
      else (m, false)

  pub is_circuit_breaker_active : F → MarketState F → Bool
  is_circuit_breaker_active now m =
      m.config.circuit_breaker_enabled && lt now m.circuit_breaker_paused_until

  -- `mark is not None and mark > 0`
  abbrev pub positive_mark : Option F → Option F
  positive_mark none = none
  positive_mark (some p) = if lt nought p then some p else none

  -- The price that the breaker's window takes, 0 for none.
  pub tracked_price : F → F → Option F → F
  tracked_price bid ask mark = elim (positive_mark mark) [
    | some p ↦ p
    | none ↦ if lt nought bid && lt nought ask then (bid + ask) / lit 20 1 else nought
  ]

  abbrev pub is_valid_book : F → F → Bool
  is_valid_book bid ask = lt nought bid && (lt nought ask && lt bid ask)

  -- The middle prices from the best bid and ask, or from the mark price before any of them.
  pub update_mid : F → MarketState F → MarketState F
  unfolding push_bounded
  update_mid now m =
      let raw = (m.best_bid + m.best_ask) / lit 20 1 in
      if is_valid_book m.best_bid m.best_ask
      then record m {
        raw_mid = raw;
        smoothed_mid =
            if le m.smoothed_mid nought
            then raw
            else m.ema_alpha * raw + (one - m.ema_alpha) * m.smoothed_mid;
        price_history = push_bounded 600 (record { at = now; price = raw }) m.price_history;
      }
      else if lt nought m.mark_price && le m.raw_mid nought
      then record m {
        raw_mid = m.mark_price;
        smoothed_mid = if le m.smoothed_mid nought then m.mark_price else m.smoothed_mid;
      }
      else m

  -- The window of the breaker takes a positive price, and is cut.
  pub track : F → F → MarketState F → MarketState F
  unfolding evict
  track now price m =
      if lt nought price
      then record m {
        price_history_60s =
            evict now m.config.circuit_breaker_lookback_sec
              (m.price_history_60s ++ (record { at = now; price = price } ∷ []));
      }
      else m

  pub update_top_of_book : F → F → F → Option F → MarketState F → MarketState F
  unfolding tracked_price track update_mid
  update_top_of_book now bid ask mark m =
      let quoted = record m {
        best_bid = if lt nought bid then bid else m.best_bid;
        best_ask = if lt nought ask then ask else m.best_ask;
        mark_price = elim (positive_mark mark) [ some p ↦ p | none ↦ m.mark_price ];
      } in
      record (update_mid now (track now (tracked_price bid ask mark) quoted)) {
        last_update_time = now;
      }

  pub update_ticker : F → F → F → F → MarketState F → MarketState F
  unfolding update_top_of_book
  update_ticker now bid ask mark m = update_top_of_book now bid ask (some mark) m

  -- The prices of the last `lookback` seconds.
  pub recent_prices : F → F → List (Sample F) → List F
  recent_prices now lookback [] = []
  recent_prices now lookback (p ∷ h) =
      let rest = recent_prices now lookback h in
      if le (now - p.at) lookback then p.price ∷ rest else rest

  pub cap_multiplier : F → F
  cap_multiplier ratio = max one (min ratio (lit 40 1))

  -- `math.sqrt` is an argument.
  pub get_volatility_multiplier : (F → F) → F → MarketState F → F
  unfolding recent_prices cap_multiplier
  get_volatility_multiplier sqrt now m =
      let recent = recent_prices now m.config.vol_lookback_sec m.price_history in
      let count = lit (length recent) 0 in
      let mean = sum_prices recent / count in
      let squares = map (λ p. (p - mean) * (p - mean)) recent in
      let rel_std_dev = sqrt (sum_prices squares / count) / mean in
      if ltb (length recent) 5 || (le mean nought || le m.baseline_vol nought)
      then one
      else cap_multiplier (rel_std_dev / m.baseline_vol)

  pub is_too_wide : MarketState F → Bool
  is_too_wide m = lt m.config.max_book_spread_pct ((m.best_ask - m.best_bid) / m.smoothed_mid)

  pub is_basis_high : MarketState F → Bool
  is_basis_high m =
      lt nought m.mark_price
      && lt m.config.max_basis_pct (abs (m.smoothed_mid - m.mark_price) / m.mark_price)

  -- There is a swing, and it is larger than the limit.
  pub exceeds : F → Option F → Bool
  exceeds limit none = false
  exceeds limit (some pct) = lt limit pct

  pub is_wild : F → MarketState F → Bool
  unfolding recent_prices swing exceeds
  is_wild now m =
      exceeds m.config.vol_pause_pct
        (swing (recent_prices now m.config.vol_lookback_sec m.price_history))

  -- The first test that fails, or none.
  pub check_market_sanity : F → MarketState F → Option Insane
  unfolding is_circuit_breaker_active is_too_wide is_basis_high is_wild
  check_market_sanity now m =
      if is_circuit_breaker_active now m
      then some breaker_active
      else if not (is_valid_book m.best_bid m.best_ask)
      then some invalid_book
      else if is_too_wide m
      then some spread_too_wide
      else if is_basis_high m
      then some basis_too_high
      else if is_wild now m
      then some volatility_surge
      else none
