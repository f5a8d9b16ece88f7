-- ===== src/Executor/Triggers.antt =====
-- The prices and conditions that the price tick of the executor tests (app/core/executor.py).
use pmm_simple.Prelude.{ltb, ◌&&◌, ◌||◌, Bool, true, false, not, Option, none, some, if◌then◌else◌}
use pmm_simple.Float.{Float, ◌+◌, ◌-◌, ◌*◌, ◌/◌, nought, one, lit, le, lt, eq, min, max}
use pmm_simple.Models.Config.{PairConfig, TrailingStopConfig}
use pmm_simple.Models.State.{PositionSide, is_long}
use pmm_simple.Quoter.Pricing.{PmmQuoter, quantize_price, quantize_amount}
use pmm_simple.Executor.State.{BarrierState}
use pmm_simple.Executor.Fills.{virtual_stop}

pub record Momentum (F : Type 0) : Type 0 where
  pub natr_15m : F
  pub surge_up : F
  pub plunge_down : F

-- A price tick: the price, the best bid and ask, and the market state.
pub record Tick (F : Type 0) : Type 0 where
  pub price : F
  pub best_bid : F
  pub best_ask : F
  pub market_state : Option (Momentum F)

-- `is not None`
abbrev pub is_present : {A : Type 0} → Option A → Bool
is_present none = false
is_present (some a) = true

module _ {F : Type 0} ⦃f : Float F⦄ where
  -- `natr_15m`, and the momentum in the direction of the position.
  unfoldable pub favorable : PositionSide → Option (Momentum F) → F × F
  favorable side none = (lit 12 3, nought)
  favorable side (some m) = (m.natr_15m, if is_long side then m.surge_up else m.plunge_down)

  unfoldable pub upnl_pct : PositionSide → F → F → F
  upnl_pct side price entry =
      if is_long side then (price - entry) / entry else (entry - price) / entry

  -- The conditions of a pyramid entry, in the order of the early returns.
  unfoldable pub is_pyramid_due :
      PairConfig F → PositionSide → Bool → F → Option (Momentum F) → BarrierState F → Bool
  unfolding favorable upnl_pct
  is_pyramid_due c side exiting price m b =
      let (natr, momentum) = favorable side m in
      c.favorable_pyramiding_enabled
      && (not (
            not b.active
            || (le b.remaining_qty (lit 1 7) || (exiting || ltb 0 b.pyramid_filled_count)))
          && (not (is_present b.pending_pyramid_client_id)
              && (not (le b.entry_price nought || le price nought)
                  && (le c.trailing_tp_activation_pct (upnl_pct side price b.entry_price)
                      && le (c.pyramiding_trigger_natr_mult * natr) momentum))))

  unfoldable pub initial_quantity : BarrierState F → F
  initial_quantity b =
      let init_qty = if lt nought b.initial_qty then b.initial_qty else b.total_qty in
      if le init_qty nought then b.remaining_qty else init_qty

  unfoldable pub pyramid_quantity : PairConfig F → PmmQuoter F → BarrierState F → F
  unfolding initial_quantity quantize_amount
  pyramid_quantity c q b = quantize_amount q (initial_quantity b * c.pyramiding_size_pct)

  -- The stop that is watched.
  unfoldable pub sl_trigger : PairConfig F → PositionSide → BarrierState F → F
  unfolding virtual_stop
  sl_trigger c side b =
      if lt nought b.sl_price then b.sl_price else virtual_stop c side b.entry_price

  unfoldable pub is_sl_hit : PairConfig F → PositionSide → F → BarrierState F → Bool
  unfolding sl_trigger
  is_sl_hit c side price b =
      if is_long side then le price (sl_trigger c side b) else le (sl_trigger c side b) price

  -- `override or config`: an override of 0 does not count.
  unfoldable pub callback_pct : PairConfig F → Option F → F
  callback_pct c none = c.trailing_tp_callback_pct
  callback_pct c (some o) = if eq o nought then c.trailing_tp_callback_pct else o

  -- The price at a distance in the direction of the profit.
  unfoldable pub profit_price : PositionSide → F → F → F
  profit_price side entry pct = if is_long side then entry * (one + pct) else entry * (one - pct)

  -- The price has come that far.
  unfoldable pub is_reached : PositionSide → F → F → Bool
  is_reached side level price = if is_long side then le level price else le price level

  -- The trailing take profit is switched on; its first extreme is the price.
  unfoldable pub start_trailing_tp : PositionSide → F → BarrierState F → BarrierState F
  start_trailing_tp side price b =
      if is_long side
      then record b { trailing_tp_active = true; peak_price = price }
      else record b { trailing_tp_active = true; trough_price = some price }

  -- The lowest price so far: infinity and anything that is not positive give way.
  unfoldable pub next_trough : Option F → F → F
  next_trough none price = price
  next_trough (some t) price = if le t nought || lt price t then price else t

  unfoldable pub follow_price : PositionSide → F → BarrierState F → BarrierState F
  unfolding next_trough
  follow_price side price b =
      if is_long side
      then record b { peak_price = max b.peak_price price }
      else record b { trough_price = some (next_trough b.trough_price price) }

  -- The trough after `follow_price`; infinity does not occur there.
  abbrev pub trough_or : F → Option F → F
  trough_or price none = price
  trough_or price (some t) = t

  unfoldable pub is_trailing_tp_hit : PositionSide → F → F → BarrierState F → Bool
  is_trailing_tp_hit side cb price b =
      if is_long side
      then le price (b.peak_price * (one - cb))
      else le (trough_or price b.trough_price * (one + cb)) price

  -- The trailing stop's extreme price.
  unfoldable pub next_watermark : PositionSide → F → F → F
  next_watermark side mark price =
      if is_long side
      then if lt mark price then price else mark
      else if le mark nought || lt price mark
      then price
      else mark

  -- The barrier after the trailing stop has looked at the price.
  unfoldable pub trailing_stop_barrier :
      TrailingStopConfig F → PositionSide → F → BarrierState F → BarrierState F
  unfolding profit_price is_reached next_watermark
  trailing_stop_barrier c side price b =
      let starts =
        not b.trailing_active
        && is_reached side (profit_price side b.entry_price c.activation_price) price in
      let mark = if starts then price else b.trailing_high_watermark in
      if b.trailing_active || starts
      then record b {
        trailing_active = true;
        trailing_high_watermark = next_watermark side mark price;
      }
      else b

  unfoldable pub is_trailing_stop_hit :
      TrailingStopConfig F → PositionSide → F → BarrierState F → Bool
  is_trailing_stop_hit c side price b =
      b.trailing_active
      && (if is_long side
          then le price (b.trailing_high_watermark * (one - c.trailing_delta))
          else le (b.trailing_high_watermark * (one + c.trailing_delta)) price)

  -- `best_ask if best_ask > 0 else current_price`
  abbrev pub positive_or : F → F → F
  positive_or x other = if lt nought x then x else other

  unfoldable pub passive_price : PairConfig F → PmmQuoter F → PositionSide → F → Tick F → F
  unfolding quantize_price
  passive_price c q side entry tick =
      if is_long side
      then quantize_price q (some false)
          (max (entry * (one + c.passive_exit_spread_pct)) (positive_or tick.best_ask tick.price))
      else quantize_price q (some true)
          (min (entry * (one - c.passive_exit_spread_pct)) (positive_or tick.best_bid tick.price))
