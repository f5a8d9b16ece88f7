-- ===== src/Worker/Requote.antt =====
-- The requote of a pair (app/core/worker.py, `_requote`): its guards and the inputs of the quoter.
use pmm_simple.Prelude.{◌&&◌, ◌||◌, ◌++◌, Bool, true, false, not, Option, none, some, if◌then◌else◌}
use pmm_simple.Float.{Float, ◌+◌, ◌-◌, ◌*◌, ◌/◌, nought, one, lit, lt, eq, min, max, abs}
use pmm_simple.Models.Config.{PairConfig, leverage_or_one, effective_margin_cap}
use pmm_simple.Models.State.{PositionSide, long, short}
use pmm_simple.Tracker.{PositionTracker, get_state, is_in_cooldown}
use pmm_simple.Quoter.{QuoteInputs, calculate_quotes, estimate_minimum_margin_required}
use pmm_simple.MarketState.{MarketState, Insane, check_market_sanity, get_volatility_multiplier}
use pmm_simple.Worker.Quoting.{refresh}
use pmm_simple.Worker.State.{Worker, WorkerState, cancel_active_quotes}

abbrev pub is_sane : Option Insane → Bool
is_sane none = true
is_sane (some why) = false

module _ {F : Type 0} ⦃f : Float F⦄ where
  -- Whether a side takes no entries, and the tracker: its flag is written where its cooldown is asked for.
  unfoldable pub side_paused :
      F → PairConfig F → PositionSide → PositionTracker F → Bool × PositionTracker F
  side_paused now c side t =
      if c.ping_pong_enabled && lt nought (get_state t side).amount
      then (true, t)
      else is_in_cooldown now side t

  -- The smaller of the account's free margin, less 5%, and what the pair's quota leaves.
  unfoldable pub available_margin : PairConfig F → F → F → PositionTracker F → F
  available_margin c free mark t =
      let notional = (abs t.long_pos.amount + abs t.short_pos.amount) * mark in
      let used = notional / lit (leverage_or_one c) 0 in
      min (free * lit 95 2) (max nought (effective_margin_cap c - used))

  -- `smoothed_mid`, or else `best_bid or 1.0`.
  unfoldable pub quoting_mark : MarketState F → F
  quoting_mark m =
      if lt nought m.smoothed_mid
      then m.smoothed_mid
      else if eq m.best_bid nought
      then one
      else m.best_bid

module _ {W F : Type 0} ⦃f : Float F⦄ where
  unfoldable pub quote_inputs : Worker W F → F → Bool → Bool → F → WorkerState W F → QuoteInputs F
  unfolding quoting_mark
  quote_inputs x now pause_long pause_short margin s = record {
    smoothed_mid = s.market.smoothed_mid;
    long_value_usdt = s.tracker.long_pos.notional;
    short_value_usdt = s.tracker.short_pos.notional;
    vol_mult = get_volatility_multiplier x.sqrt now s.market;
    pause_long_entry = pause_long;
    pause_short_entry = pause_short;
    best_bid = some s.market.best_bid;
    best_ask = some s.market.best_ask;
    available_margin = some margin;
    long_state = some s.tracker.long_pos;
    short_state = some s.tracker.short_pos;
    now = now;
    mark_price =
        some (if lt nought s.market.mark_price then s.market.mark_price else quoting_mark s.market);
    trend_bias_regime = s.market.trend_bias_regime;
    level_notionals = none;
  }

  -- The new quotes, where the margin is enough for the least of them.
  unfoldable pub quote_with : Worker W F → F → Bool → Bool → WorkerState W F → WorkerState W F
  unfolding available_margin quoting_mark quote_inputs refresh
  quote_with x now pause_long pause_short s =
      let (w, free) = x.fetch_free_balance s.world in
      let margin = available_margin s.config free (quoting_mark s.market) s.tracker in
      let min_req = estimate_minimum_margin_required x.quoter (not pause_long) (not pause_short) in
      let (bids, asks) =
        calculate_quotes x.quoter (quote_inputs x now pause_long pause_short margin s) in
      let (w', active) = refresh x.quotes x.quoter (bids ++ asks) s.active_quotes w in
      if lt nought min_req && lt margin min_req then record s { world = w } else record s {
        world = w';
        active_quotes = active;
        last_quote_mid = s.market.smoothed_mid;
        last_quote_time = x.outside.time w';
      }

  -- `_requote`
  unfoldable pub requote : Worker W F → WorkerState W F → WorkerState W F
  unfolding cancel_active_quotes side_paused quote_with
  requote x s =
      let now = x.outside.time s.world in
      let (pause_long, t1) = side_paused now s.config long s.tracker in
      let (pause_short, t2) = side_paused now s.config short t1 in
      if s.is_draining || not (is_sane (check_market_sanity now s.market))
      then cancel_active_quotes x s
      else quote_with x now pause_long pause_short (record s { tracker = t2 })
