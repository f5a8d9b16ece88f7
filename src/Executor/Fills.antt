-- ===== src/Executor/Fills.antt =====
-- Fills at an executor (app/core/executor.py, `on_entry_fill` and `on_exit_fill`).
use pmm_simple.Prelude.{
  ◌==◌, ◌&&◌, ◌||◌, Bool, true, false, not, Option, none, some, String, codes, lower, contains,
  starts_with, map, if◌then◌else◌,
}
use pmm_simple.Float.{Float, ◌+◌, ◌-◌, ◌*◌, nought, one, lit, le, lt, min, max}
use pmm_simple.Models.Config.{PairConfig}
use pmm_simple.Models.State.{PositionSide, FillRecord, SidePositionState, is_long}
use pmm_simple.Tracker.{
  PositionTracker, get_state, put_state, set_sl_cooldown, reset_sl_cooldown, cid_of,
}
use pmm_simple.Quoter.Pricing.{PmmQuoter, quantize_price, quantize_amount, calculate_spread_floor}
use pmm_simple.Funding.Names.{name_eq, lower_name}
use pmm_simple.Executor.Ids.{Text}
use pmm_simple.Executor.State.{tp_filled, TpOrder, BarrierState, PnlRecord, Executor, ExecutorState}
use pmm_simple.Executor.Exits.{is_held, cleanup_all_barrier_orders, cancel_id}
use pmm_simple.Executor.TakeProfit.{place_take_profit_orders}

-- The pending id, or an id that starts with "q_pyr_".
unfoldable pub is_pyramid_leg : Option Text → Text → Bool
unfolding name_eq lower_name starts_with
is_pyramid_leg pending cid =
    let named : Bool = elim pending [ none ↦ false | some p ↦ name_eq cid (lower_name p) ] in
    (is_held pending && named) || starts_with (codes "q_pyr_") cid

-- `tp_info["client_order_id"] == fill.client_order_id`, where the fill's may be None.
unfoldable pub same_cid : Text → Option String → Bool
unfolding name_eq
same_cid cid none = false
same_cid cid (some c) = name_eq cid (codes c)

module _ {F : Type 0} ⦃f : Float F⦄ where
  -- The stop price, in percent of the entry price.
  unfoldable pub virtual_stop : PairConfig F → PositionSide → F → F
  virtual_stop c side entry =
      if is_long side then entry * (one - c.stop_loss) else entry * (one + c.stop_loss)

  -- `0.0020` or a fifth of the take profit.
  unfoldable pub tightened_callback : PairConfig F → F
  tightened_callback c = max (lit 20 4) (lit 20 2 * c.take_profit)

  unfoldable pub initial_price : BarrierState F → F → F
  initial_price b entry = if lt nought b.initial_entry_price then b.initial_entry_price else entry

  -- `raw_sl`: past the costs of the average entry price, and past the first entry price.
  unfoldable pub guaranteed_stop : PmmQuoter F → PositionSide → F → F → F
  unfolding calculate_spread_floor
  guaranteed_stop q side entry init_p =
      let s_floor = calculate_spread_floor q entry in
      if is_long side
      then max (entry * (one + s_floor)) (init_p * lit 10035 4)
      else min (entry * (one - s_floor)) (init_p * lit 9965 4)

  -- The barrier after the fill of the pyramid order.
  unfoldable pub pyramid_barrier :
      PmmQuoter F → PositionSide → F → SidePositionState F → BarrierState F → BarrierState F
  unfolding quantize_price quantize_amount guaranteed_stop initial_price
  pyramid_barrier q side now pos b = record b {
    active = true;
    entry_price = pos.entry_price;
    total_qty = pos.amount;
    remaining_qty = pos.amount;
    sl_qty = quantize_amount q pos.amount;
    pyramid_filled_count = 1;
    pending_pyramid_client_id = none;
    pending_pyramid_started_at = nought;
    last_update_time = now;
    sl_price =
        quantize_price q none
          (guaranteed_stop q side pos.entry_price (initial_price b pos.entry_price));
    is_guaranteed_sl_locked = true;
  }

  -- The barrier after any other entry fill.
  unfoldable pub entry_barrier :
      PairConfig F
      → PmmQuoter F
      → PositionSide
      → F
      → SidePositionState F
      → BarrierState F
      → BarrierState F
  unfolding quantize_price quantize_amount virtual_stop
  entry_barrier c q side now pos b =
      let first = b.pyramid_filled_count == 0 || le b.initial_entry_price nought in
      record b {
        active = true;
        entry_price = pos.entry_price;
        total_qty = pos.amount;
        remaining_qty = pos.amount;
        initial_entry_price = if first then pos.entry_price else b.initial_entry_price;
        initial_qty = if first then pos.amount else b.initial_qty;
        entry_timestamp = now;
        last_update_time = now;
        trailing_active = false;
        trailing_high_watermark = nought;
        trailing_tp_active = false;
        peak_price = nought;
        trough_price = none;
        passive_exit_active = false;
        passive_exit_order_id = none;
        passive_exit_start_time = nought;
        sl_price =
            if b.is_guaranteed_sl_locked
            then b.sl_price
            else quantize_price q none (virtual_stop c side pos.entry_price);
        sl_qty = quantize_amount q pos.amount;
      }

  -- The barrier after an exit fill, before what its size decides.
  unfoldable pub reduced_barrier : PmmQuoter F → F → F → BarrierState F → BarrierState F
  unfolding quantize_amount
  reduced_barrier q now amount b =
      let left = max nought (b.remaining_qty - amount) in
      record b { remaining_qty = left; last_update_time = now; sl_qty = quantize_amount q left }

  -- The barrier of a closed position.
  unfoldable pub closed_barrier : BarrierState F → BarrierState F
  closed_barrier b = record b {
    active = false;
    trailing_tp_active = false;
    peak_price = nought;
    trough_price = none;
    passive_exit_active = false;
    passive_exit_order_id = none;
    passive_exit_start_time = nought;
    passive_exit_refresh_count = 0;
    pyramid_filled_count = 0;
    is_guaranteed_sl_locked = false;
    initial_entry_price = nought;
    initial_qty = nought;
    pending_pyramid_client_id = none;
    pending_pyramid_started_at = nought;
  }

  unfoldable pub is_sl_fill : BarrierState F → FillRecord F → Bool
  unfolding name_eq contains lower
  is_sl_fill b fill =
      let by_id : Bool = elim b.sl_order_id [
        | none ↦ false
        | some id ↦ name_eq (codes fill.order_id) id
      ] in
      by_id
      || (contains (codes "sl_") (cid_of fill) || contains (codes "exit_stop_loss") (cid_of fill))

  -- A stop loss lengthens the cooldown, a profit ends it.
  unfoldable pub note_cooldown :
      PositionSide → F → BarrierState F → FillRecord F → PositionTracker F → PositionTracker F
  unfolding is_sl_fill contains lower
  note_cooldown side now b fill t =
      if is_sl_fill b fill
      then set_sl_cooldown now side t
      else if lt nought fill.realized_pnl
          || (contains (codes "tp_") (cid_of fill) || contains (codes "trailing") (cid_of fill))
      then reset_sl_cooldown (some side) t
      else t

  unfoldable pub mark_filled : FillRecord F → TpOrder F → TpOrder F
  unfolding name_eq same_cid
  mark_filled fill o =
      if name_eq o.order_id (codes fill.order_id) || same_cid o.client_order_id fill.client_order_id
      then record o { status = tp_filled }
      else o

  unfoldable pub pnl_record : String → PositionSide → FillRecord F → PnlRecord F
  pnl_record symbol side fill = record {
    symbol = symbol;
    position_side = side;
    realized_pnl = fill.realized_pnl;
    fee = fill.fee;
    net_pnl = fill.realized_pnl - fill.fee;
    timestamp = fill.timestamp;
  }

module _ {W F : Type 0} ⦃f : Float F⦄ where
  -- The state as a pyramid fill leaves it, before the take-profit orders are placed again.
  unfoldable pub pyramid_armed : Executor W F → ExecutorState W F → ExecutorState W F
  unfolding pyramid_barrier tightened_callback
  pyramid_armed x s =
      let pos = get_state s.tracker x.position_side in
      let b = pyramid_barrier x.quoter x.position_side (x.outside.time s.world) pos s.barrier in
      record s {
        is_exiting = false;
        barrier = b;
        tracker =
            put_state s.tracker x.position_side (record pos { is_guaranteed_sl_locked = true });
        trailing_cb_override = some (tightened_callback x.config);
        world = x.outside.save_barrier_state b s.world;
      }

  unfoldable pub on_entry_fill : Executor W F → FillRecord F → ExecutorState W F → ExecutorState W F
  unfolding is_pyramid_leg lower pyramid_armed entry_barrier place_take_profit_orders
  on_entry_fill x fill s =
      let pos = get_state s.tracker x.position_side in
      let now = x.outside.time s.world in
      if le pos.amount (lit 1 7)
      then s
      else if is_pyramid_leg s.barrier.pending_pyramid_client_id (cid_of fill)
      then place_take_profit_orders x (pyramid_armed x s)
      else place_take_profit_orders x (record s {
        is_exiting = false;
        barrier = entry_barrier x.config x.quoter x.position_side now pos s.barrier;
      })

  -- The position is closed.
  unfoldable pub close_out : Executor W F → ExecutorState W F → ExecutorState W F
  unfolding cleanup_all_barrier_orders closed_barrier
  close_out x s =
      let s' = cleanup_all_barrier_orders x s in
      let pos = get_state s'.tracker x.position_side in
      record s' {
        is_exiting = false;
        barrier = closed_barrier s'.barrier;
        trailing_cb_override = none;
        tracker =
            put_state s'.tracker x.position_side
              (record pos { pyramid_filled_count = 0; is_guaranteed_sl_locked = false });
        world = x.outside.delete_barrier_state x.config.symbol x.position_side s'.world;
      }

  -- A passive exit order is cancelled before the take-profit orders are placed again.
  unfoldable pub cancel_passive : Executor W F → ExecutorState W F → ExecutorState W F
  unfolding cancel_id
  cancel_passive x s =
      if s.barrier.passive_exit_active && is_held s.barrier.passive_exit_order_id
      then record s {
        world = cancel_id x.outside x.config.symbol s.barrier.passive_exit_order_id s.world;
        barrier = record (s.barrier) { passive_exit_order_id = none; passive_exit_active = false };
      }
      else s

  -- A part of the position is left.
  unfoldable pub replenish : Executor W F → ExecutorState W F → ExecutorState W F
  unfolding cancel_passive place_take_profit_orders
  replenish x s =
      let s' = cancel_passive x s in
      if s'.barrier.active && not s'.is_exiting then place_take_profit_orders x s' else s'

  -- The bookkeeping of an exit fill: the size, the PnL record, the cooldown and the filled take profit.
  unfoldable pub note_exit : Executor W F → FillRecord F → ExecutorState W F → ExecutorState W F
  unfolding reduced_barrier note_cooldown mark_filled pnl_record
  note_exit x fill s =
      let now = x.outside.time s.world in
      let b = reduced_barrier x.quoter now fill.amount s.barrier in
      let w = x.outside.record_pnl (pnl_record x.config.symbol x.position_side fill) s.world in
      record s {
        barrier = record b { tp_orders = map (mark_filled fill) b.tp_orders };
        tracker = note_cooldown x.position_side (x.outside.time w) b fill s.tracker;
        world = w;
      }

  unfoldable pub on_exit_fill : Executor W F → FillRecord F → ExecutorState W F → ExecutorState W F
  unfolding note_exit close_out replenish
  on_exit_fill x fill s =
      let s' = note_exit x fill s in
      if le s'.barrier.remaining_qty (lit 1 7) then close_out x s' else replenish x s'
