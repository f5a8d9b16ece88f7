-- ===== src/Executor/Reconcile.antt =====
-- The barrier at start-up and at each periodic reconciliation (app/core/executor.py, `reconcile_barrier`), with
-- the row that the database keeps (app/persistence/db.py, `save_barrier_state`).
use pmm_simple.Prelude.{
  ◌&&◌, ◌||◌, Bool, true, false, not, Option, none, some, List, [], ◌∷◌, codes, if◌then◌else◌,
}
use pmm_simple.Float.{Float, ◌+◌, ◌-◌, ◌*◌, nought, one, lit, le, lt, eq}
use pmm_simple.Models.Config.{PairConfig}
use pmm_simple.Models.State.{PositionSide, SidePositionState, is_long}
use pmm_simple.Tracker.{get_state}
use pmm_simple.Quoter.Pricing.{PmmQuoter, quantize_price, quantize_amount}
use pmm_simple.Executor.State.{
  stop_loss, take_profit, tp_open, tp_filled, TpOrder, BarrierState, SavedBarrier, Executor,
  ExecutorState,
}
use pmm_simple.Executor.Ids.{Text}
use pmm_simple.Executor.Exits.{is_held, cleanup_all_barrier_orders, execute_market_exit}
use pmm_simple.Executor.TakeProfit.{place_take_profit_orders}
use pmm_simple.Executor.Fills.{virtual_stop, tightened_callback}

module _ {F : Type 0} where
  abbrev pub is_tp_open : TpOrder F → Bool
  is_tp_open o = elim o.status [ tp_open ↦ true | tp_filled ↦ false ]

  -- `any(tp["status"] == "OPEN" for tp in tp_orders)`
  unfoldable pub has_active_tp : List (TpOrder F) → Bool
  has_active_tp [] = false
  has_active_tp (o ∷ os) = is_tp_open o || has_active_tp os

  abbrev pub has_orders : List (TpOrder F) → Bool
  has_orders [] = false
  has_orders (o ∷ os) = true

module _ {F : Type 0} ⦃f : Float F⦄ where
  -- The row that `save_barrier_state` writes: an infinite trough is stored as 0.
  unfoldable pub saved_row : BarrierState F → SavedBarrier F
  saved_row b = record {
    sl_price = b.sl_price;
    is_guaranteed_sl_locked = b.is_guaranteed_sl_locked;
    pyramid_filled_count = b.pyramid_filled_count;
    peak_price = b.peak_price;
    trough_price = elim b.trough_price [ none ↦ nought | some p ↦ p ];
    trailing_tp_active = b.trailing_tp_active;
  }

  -- A saved stop that the mark price has not reached.
  unfoldable pub is_valid_sl : PositionSide → F → F → Bool
  is_valid_sl side mark saved_sl =
      (le mark nought || (if is_long side then lt saved_sl mark else lt mark saved_sl))
      && lt nought saved_sl

  -- `active` to `last_update_time`
  unfoldable pub armed_barrier : F → SidePositionState F → BarrierState F → BarrierState F
  armed_barrier now pos b = record b {
    active = true;
    entry_price = pos.entry_price;
    total_qty = pos.amount;
    remaining_qty = pos.amount;
    entry_timestamp = if eq b.entry_timestamp nought then now else b.entry_timestamp;
    last_update_time = now;
  }

  -- A saved and locked stop comes back, with the rest of the row where the mark price has not reached it.
  unfoldable pub restored_barrier :
      PositionSide → F → SavedBarrier F → BarrierState F → BarrierState F
  unfolding is_valid_sl
  restored_barrier side mark saved b =
      if is_valid_sl side mark saved.sl_price
      then record b {
        sl_price = saved.sl_price;
        is_guaranteed_sl_locked = true;
        pyramid_filled_count = saved.pyramid_filled_count;
        peak_price = saved.peak_price;
        trough_price = some saved.trough_price;
        trailing_tp_active = saved.trailing_tp_active;
      }
      else record b { sl_price = saved.sl_price; is_guaranteed_sl_locked = true }

  -- The row, if it has a locked stop.
  abbrev pub locked_row : Option (SavedBarrier F) → Option (SavedBarrier F)
  locked_row none = none
  locked_row (some r) = if r.is_guaranteed_sl_locked then some r else none

  -- The price part of the barrier, by the row that was loaded.
  unfoldable pub stop_barrier :
      PairConfig F
      → PmmQuoter F
      → PositionSide
      → F
      → Option (SavedBarrier F)
      → BarrierState F
      → BarrierState F
  unfolding restored_barrier virtual_stop quantize_price
  stop_barrier c q side mark saved b = elim (locked_row saved) [
    | some r ↦ restored_barrier side mark r b
    | none ↦ record b { sl_price = quantize_price q none (virtual_stop c side b.entry_price) }
  ]

  unfoldable pub restored_callback :
      PairConfig F → PositionSide → F → Option (SavedBarrier F) → Option F → Option F
  unfolding is_valid_sl tightened_callback
  restored_callback c side mark saved old = elim (locked_row saved) [
    | some r ↦ if is_valid_sl side mark r.sl_price then some (tightened_callback c) else old
    | none ↦ old
  ]

  -- `tp_levels[0][0]`
  unfoldable pub first_tp : PairConfig F → F
  first_tp c = elim c.tp_levels [ [] ↦ c.take_profit | l ∷ ls ↦ l.0 ]

  unfoldable pub is_sl_breached : PositionSide → F → BarrierState F → Bool
  is_sl_breached side mark b = if is_long side then le mark b.sl_price else le b.sl_price mark

  unfoldable pub is_tp_breached : PairConfig F → PositionSide → F → BarrierState F → Bool
  unfolding first_tp has_active_tp
  is_tp_breached c side mark b =
      not (has_active_tp b.tp_orders)
      && (if is_long side
          then le (b.entry_price * (one + first_tp c)) mark
          else le mark (b.entry_price * (one - first_tp c)))

module _ {W F : Type 0} ⦃f : Float F⦄ where
  -- The position is closed at the exchange.
  unfoldable pub reconcile_flat : Executor W F → ExecutorState W F → ExecutorState W F
  unfolding cleanup_all_barrier_orders
  reconcile_flat x s =
      let b = s.barrier in
      let cleaned = cleanup_all_barrier_orders x s in
      let s' : ExecutorState W F =
        if b.active || (has_orders b.tp_orders || (is_held b.sl_order_id || b.passive_exit_active))
        then record cleaned {
          is_exiting = false;
          trailing_cb_override = none;
          barrier = record (cleaned.barrier) {
            active = false;
            pyramid_filled_count = 0;
            is_guaranteed_sl_locked = false;
          };
        }
        else s in
      record s' { world = x.outside.delete_barrier_state x.config.symbol x.position_side s'.world }

  -- The armed barrier, before the mark price is looked at.
  unfoldable pub arm : Executor W F → F → ExecutorState W F → ExecutorState W F
  unfolding armed_barrier stop_barrier restored_callback quantize_amount
  arm x mark s =
      let side = x.position_side in
      let pos = get_state s.tracker side in
      let armed = armed_barrier (x.outside.time s.world) pos s.barrier in
      let (w, saved) = x.outside.load_barrier_state x.config.symbol side s.world in
      let b = stop_barrier x.config x.quoter side mark saved armed in
      record s {
        world = w;
        is_exiting = false;
        trailing_cb_override = restored_callback x.config side mark saved s.trailing_cb_override;
        barrier = record b { sl_qty = quantize_amount x.quoter b.remaining_qty };
      }

  -- A breach is an exit at market, and else the take-profit orders are placed.
  unfoldable pub act_on_mark : Executor W F → F → ExecutorState W F → ExecutorState W F
  unfolding is_sl_breached is_tp_breached execute_market_exit place_take_profit_orders
  act_on_mark x mark s =
      let priced = lt nought mark && lt nought s.barrier.entry_price in
      if priced && is_sl_breached x.position_side mark s.barrier
      then execute_market_exit x stop_loss s
      else if priced && is_tp_breached x.config x.position_side mark s.barrier
      then execute_market_exit x take_profit s
      else place_take_profit_orders x s

  -- A text besides is the reason of an isolated kill, the last thing that the call then asks for.
  unfoldable pub reconcile_barrier :
      Executor W F → F → ExecutorState W F → ExecutorState W F × Option Text
  unfolding reconcile_flat arm act_on_mark
  reconcile_barrier x mark s =
      let pos = get_state s.tracker x.position_side in
      if le pos.amount (lit 1 7)
      then (reconcile_flat x s, none)
      else if le pos.entry_price nought
      then (s, some (codes "entry_price invalid from exchange"))
      else (act_on_mark x mark (arm x mark s), none)
