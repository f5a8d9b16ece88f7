-- ===== src/MarketState/Sanity.antt =====
-- What a sane market promises to the quoter (app/core/market_state.py, `check_market_sanity`), and the trend.
use pmm_simple.Prelude.{
  ◌≡◌, ◌∙◌, sym, ap, refl, ◌&&◌, Bool, true, false, not, Option, some, none, arith, if◌then◌else◌,
}
use pmm_simple.Float.{Float, ◌-◌, ◌/◌, nought, lt, abs, ◌≼◌, ◌≺◌}
use pmm_simple.MarketState.{
  MarketState, breaker_active, invalid_book, spread_too_wide, basis_too_high, volatility_surge,
  is_too_wide, is_basis_high, exceeds, is_wild, is_valid_book, is_circuit_breaker_active,
  check_market_sanity, recent_prices, swing,
}

guard_none :
    {A : Type 0} (b : Bool) (x : A) (rest : Option A)
    → (if b then some x else rest) ≡ none
    → (b ≡ false) × (rest ≡ none)
guard_none true x rest h = absurd (cc)
guard_none false x rest h = (refl, h)

valid_parts : (a b c : Bool) → not (a && (b && c)) ≡ false → (a ≡ true) × (b ≡ true) × (c ≡ true)
valid_parts true true true h = (refl, refl, refl)
valid_parts true true false h = absurd (ground arith)
valid_parts true false c h = absurd (ground arith)
valid_parts false b c h = absurd (ground arith)

module _ {F : Type 0} ⦃f : Float F⦄ where
  not_lt : (x y : F) (b : Bool) → b ≡ true → (b && lt x y) ≡ false → y ≼ x
  not_lt x y b e h = ground arith

  -- What the quoter may take for granted.
  pub record IsSane (now : F) (m : MarketState F) : Type 0 where
    pub breaker_off : is_circuit_breaker_active now m ≡ false
    pub bid_positive : nought ≺ m.best_bid
    pub ask_positive : nought ≺ m.best_ask
    pub not_crossed : m.best_bid ≺ m.best_ask
    pub narrow : (m.best_ask - m.best_bid) / m.smoothed_mid ≼ m.config.max_book_spread_pct
    pub near_mark :
        nought ≺ m.mark_price
        → abs (m.smoothed_mid - m.mark_price) / m.mark_price ≼ m.config.max_basis_pct
    pub calm :
        (pct : F)
        → swing (recent_prices now m.config.vol_lookback_sec m.price_history) ≡ some pct
        → pct ≼ m.config.vol_pause_pct

  narrow_lem :
      (m : MarketState F)
      → is_too_wide m ≡ false
      → (m.best_ask - m.best_bid) / m.smoothed_mid ≼ m.config.max_book_spread_pct
  unfolding is_too_wide
  narrow_lem m h = ground arith

  near_lem :
      (m : MarketState F)
      → is_basis_high m ≡ false
      → nought ≺ m.mark_price
      → abs (m.smoothed_mid - m.mark_price) / m.mark_price ≼ m.config.max_basis_pct
  unfolding is_basis_high
  near_lem m h p =
      not_lt m.config.max_basis_pct (abs (m.smoothed_mid - m.mark_price) / m.mark_price)
        (lt nought m.mark_price) p h

  calm_lem :
      (now : F) (m : MarketState F)
      → is_wild now m ≡ false
      → (pct : F) → swing (recent_prices now m.config.vol_lookback_sec m.price_history) ≡ some pct
      → pct ≼ m.config.vol_pause_pct
  unfolding is_wild exceeds
  calm_lem now m h pct e =
      let h' : lt m.config.vol_pause_pct pct ≡ false =
        sym (ap (exceeds m.config.vol_pause_pct) e) ∙ h in
      ground arith

  -- A market that passes the test has no active volatility pause, a positive and uncrossed book that is not
  -- wider than the limit, a middle price near the mark price where there is one, and no larger swing of
  -- recent prices than the limit.
  pub check_market_sanity-IsSane :
      (now : F) (m : MarketState F) → check_market_sanity now m ≡ none → IsSane now m
  unfolding check_market_sanity
  check_market_sanity-IsSane now m h =
      let (off, h1) = guard_none (is_circuit_breaker_active now m) breaker_active _ h in
      let (valid, h2) = guard_none (not (is_valid_book m.best_bid m.best_ask)) invalid_book _ h1 in
      let (tight, h3) = guard_none (is_too_wide m) spread_too_wide _ h2 in
      let (close, h4) = guard_none (is_basis_high m) basis_too_high _ h3 in
      let (still, _) = guard_none (is_wild now m) volatility_surge none h4 in
      let (bid, ask, order) =
        valid_parts (lt nought m.best_bid) (lt nought m.best_ask) (lt m.best_bid m.best_ask)
          valid in
      record {
        breaker_off = off;
        bid_positive = bid;
        ask_positive = ask;
        not_crossed = order;
        narrow = narrow_lem m tight;
        near_mark = near_lem m close;
        calm = λ pct e. calm_lem now m still pct e;
      }
