-- ===== src/Backtest.antt =====
-- backtest/pmm_simulator.py: the backtest of the strategy over candles: entries, the breaker, and the run.
pub mod Types
pub mod Exits
pub mod Books
pub mod Ledger
mod Tests
use pmm_simple.Prelude.{
  ◌+◌ as plus, ◌&&◌, ◌||◌, ◌++◌, Bool, true, false, not, Option, none, some, List, [], ◌∷◌,
  if◌then◌else◌,
}
use text.Mathlib.Text.{◌==◌ as str_eq}
use pmm_simple.Float.{Float, ◌+◌, ◌-◌, ◌*◌, ◌/◌, nought, one, lit, le, lt, max}
use pmm_simple.Models.State.{PositionSide, long, short, is_long}
use pmm_simple.Backtest.Types.{
  Bar, EntryRef, Settings, PositionSlot, Exit, Equity, Simulation, slot_of, put_slot, is_none,
  at_open, at_prev_close, at_close, end_of_data,
}
use pmm_simple.Backtest.Exits.{
  tick_price, quantize_qty, worse, gain, grid_of, close_position, manage,
}

module _ {F : Type 0} ⦃f : Float F⦄ where
  unfoldable pub new_simulation : Settings F → Simulation F
  new_simulation x = record {
    balance = x.initial_balance;
    long_pos = none;
    short_pos = none;
    trades = [];
    equity_records = [];
    cb_trigger_count = 0;
    blocked_trend_trades = 0;
    fast_exit_count = 0;
    fast_exit_saved_usdt = nought;
    cb_pause_until = none;
  }

  abbrev pub is_frozen : Settings F → Bar F → Option F → Bool
  is_frozen x b none = false
  is_frozen x b (some until) = x.use_circuit_breaker && le b.time until

  abbrev pub reference : EntryRef → Option (Bar F) → Bar F → F
  reference at_close prev b = b.close
  reference at_prev_close (some p) b = p.close
  reference at_prev_close none b = b.first
  reference at_open prev b = b.first

  abbrev pub quoted_price : Settings F → F → PositionSide → F → F
  quoted_price x spread side ref = tick_price x (is_long side) (worse side ref spread)

  -- The slot of a maker entry, and whether the candle fills it.
  unfoldable pub opened_slot : Settings F → Bar F → F → PositionSide → F → PositionSlot F
  unfolding tick_price quantize_qty grid_of
  opened_slot x b spread side ref =
      let price = quoted_price x spread side ref in
      let qty = quantize_qty x (x.order_amount_usdt / price) in
      record {
        side = side;
        entry_price = price;
        qty = qty;
        opened_at = b.time;
        entry_fee = (price * qty) * x.maker_fee;
        extreme = price;
        trailing_active = false;
        initial_sl_pct = (grid_of x b.natr).sl_base;
        initial_tp_pct = (grid_of x b.natr).tp_base;
      }

  unfoldable pub is_filled : Settings F → Bar F → F → PositionSlot F → Bool
  is_filled x b ref p =
      let half = lit 5 1 * x.tick_size in
      lt nought ref
      && ((if is_long p.side
            then le b.low (p.entry_price - half)
            else le (p.entry_price + half) b.high)
          && lt nought p.qty)

  unfoldable pub entry_of : Settings F → Bar F → F → PositionSide → F → Option (PositionSlot F)
  unfolding opened_slot is_filled
  entry_of x b spread side ref =
      let p = opened_slot x b spread side ref in if is_filled x b ref p then some p else none

  abbrev pub settle_entry : PositionSide → Option (PositionSlot F) → Simulation F → Simulation F
  settle_entry side none s = s
  settle_entry side (some p) s =
      put_slot side (some p) (record s { balance = s.balance - p.entry_fee })

  -- The trend is against the side.
  abbrev pub is_blocked : Settings F → Bar F → PositionSide → Bool
  is_blocked x b side =
      x.use_trend_bias && str_eq b.trend_bias (if is_long side then "BEARISH" else "BULLISH")

  unfoldable pub enter : Settings F → Bar F → F → PositionSide → Simulation F → Simulation F
  unfolding entry_of
  enter x b ref side s =
      let opened = settle_entry side (entry_of x b (grid_of x b.natr).s_base side ref) s in
      if is_blocked x b side then s else if is_none (slot_of side s) then opened else s

  -- An entry that the trend blocks is counted where its side is free.
  unfoldable pub count_blocked : Settings F → Bar F → Simulation F → Simulation F
  count_blocked x b s =
      let bullish = str_eq b.trend_bias "BULLISH" && is_none s.short_pos in
      let bearish = str_eq b.trend_bias "BEARISH" && is_none s.long_pos in
      record s {
        blocked_trend_trades =
            if x.use_trend_bias && (bullish || bearish)
            then plus s.blocked_trend_trades 1
            else s.blocked_trend_trades;
      }

  unfoldable pub enter_both : Settings F → Bar F → Option (Bar F) → Simulation F → Simulation F
  unfolding enter count_blocked
  enter_both x b prev s =
      let ref = reference x.entry_ref prev b in
      if is_frozen x b s.cb_pause_until
      then s
      else enter x b ref short (enter x b ref long (count_blocked x b s))

  -- A volatility above the threshold takes its place.
  abbrev pub cb_limit : F → Option F → F
  cb_limit threshold none = threshold
  cb_limit threshold (some n) = if lt nought n then max threshold n else threshold

  abbrev pub is_surge : Settings F → Bar F → Bool
  is_surge x b = x.use_circuit_breaker && le (cb_limit x.cb_threshold_pct b.natr) b.delta_60s

  abbrev pub armed_breaker : Bar F → Simulation F → Simulation F
  armed_breaker b s = record s {
    cb_pause_until = some (b.time + lit 60 0);
    cb_trigger_count = plus s.cb_trigger_count 1;
  }

  -- The breaker, for the candles after this one.
  unfoldable pub arm_breaker : Settings F → Bar F → Simulation F → Simulation F
  arm_breaker x b s = if is_surge x b then armed_breaker b s else s

  abbrev pub upnl_of : F → Option (PositionSlot F) → F
  upnl_of price none = nought
  upnl_of price (some p) = gain p.side p.entry_price price * p.qty

  unfoldable pub record_equity : Bar F → Simulation F → Simulation F
  record_equity b s =
      let upnl = upnl_of b.close s.long_pos + upnl_of b.close s.short_pos in
      let row : Equity F = record {
        timestamp = b.time;
        equity = s.balance + upnl;
        balance = s.balance;
        upnl = upnl;
        long_open = not (is_none s.long_pos);
        short_open = not (is_none s.short_pos);
      } in
      record s { equity_records = s.equity_records ++ (row ∷ []) }

  -- One candle: LONG exits, SHORT exits, entries, the breaker, the record.
  unfoldable pub step_bar : Settings F → Option (Bar F) → Bar F → Simulation F → Simulation F
  step_bar x prev b s =
      let longs = manage x b s.long_pos s in
      let shorts = manage x b longs.short_pos longs in
      record_equity b (arm_breaker x b (enter_both x b prev shorts))

  abbrev pub end_exit : Bar F → Exit F
  end_exit b = record {
    price = b.close;
    time = b.time;
    reason = end_of_data;
    is_taker = true;
    slippage_cost = nought;
    saved = none;
  }

  abbrev pub close_last : Settings F → Bar F → Option (PositionSlot F) → Simulation F → Simulation F
  close_last x b none s = s
  close_last x b (some p) s = close_position x p (end_exit b) s

  -- The end of the data, at the last candle.
  unfoldable pub finish : Settings F → Option (Bar F) → Simulation F → Simulation F
  finish x none s = s
  finish x (some b) s =
      let longs = close_last x b s.long_pos s in
      let both = close_last x b longs.short_pos longs in
      if x.close_positions_at_end then both else s

  unfoldable pub run_bars : Settings F → Option (Bar F) → List (Bar F) → Simulation F → Simulation F
  run_bars x prev [] s = finish x prev s
  run_bars x prev (b ∷ bs) s = run_bars x (some b) bs (step_bar x prev b s)

  unfoldable pub run : Settings F → List (Bar F) → Simulation F
  unfolding new_simulation run_bars
  run x bs = run_bars x none bs (new_simulation x)
