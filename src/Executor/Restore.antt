-- ===== src/Executor/Restore.antt =====
-- The barrier that comes back from the database (app/core/executor.py, `reconcile_barrier`).
use pmm_simple.Prelude.{
  ◌≡◌, refl, ap, ◌∙◌, ◌&&◌, true, false, Option, none, some, if◌then◌else◌, if_cases, Option-cases,
  inl, inr,
}
use pmm_simple.Float.{Float, FloatLaws, nought, lit, le, lt}
use pmm_simple.Models.State.{PositionSide}
use pmm_simple.Tracker.{get_state}
use pmm_simple.Executor.State.{
  OrderPurpose, stop_loss, take_profit, BarrierState, SavedBarrier, OrderAnswer, Executor,
  ExecutorState,
}
use pmm_simple.Quoter.Pricing.{quantize_amount}
use pmm_simple.Executor.Exits.{
  is_stop_loss, settle_market_exit, disarm, market_exit_order, safe_create_exit_order,
  execute_market_exit,
}
use pmm_simple.Executor.ExitLaws.{
  IsSent, safe_create_exit_order-IsSent, cleanup_all_barrier_orders-IsCleared,
}
use pmm_simple.Executor.TakeProfit.{place_take_profit_orders}
use pmm_simple.Executor.Ladder.{place_take_profit_orders-IsFramed}
use pmm_simple.Executor.Cycle.{kept_locked}
use pmm_simple.Executor.Reconcile.{
  is_valid_sl, saved_row, restored_barrier, stop_barrier, is_sl_breached, is_tp_breached, arm,
  act_on_mark, reconcile_barrier,
}
use pmm_simple.Executor.Triggers.{next_trough}

module _ {F : Type 0} ⦃f : Float F⦄ ⦃laws : FloatLaws F⦄ where
  next_trough_zero : (price : F) → next_trough (some nought) price ≡ price
  unfolding next_trough
  next_trough_zero price = rw (laws.le_refl nought) refl

  -- A locked stop that the mark price has not reached comes back from the database with the price it was saved
  -- with, locked, and so do the pyramid count, the peak price and whether the trailing take profit is on,
  -- whatever the barrier it is restored into; a trough that was infinite is followed as before.
  pub restored_barrier-saved_row :
      (side : PositionSide) (mark : F) (saved b : BarrierState F)
      → saved.is_guaranteed_sl_locked ≡ true
      → is_valid_sl side mark saved.sl_price ≡ true
      → let b' = restored_barrier side mark (saved_row saved) b in
        (b'.sl_price ≡ saved.sl_price)
        × (b'.is_guaranteed_sl_locked ≡ true)
        × (b'.pyramid_filled_count ≡ saved.pyramid_filled_count)
        × (b'.peak_price ≡ saved.peak_price)
        × (b'.trailing_tp_active ≡ saved.trailing_tp_active)
        × ((price : F) → next_trough b'.trough_price price ≡ next_trough saved.trough_price price)
  unfolding restored_barrier saved_row next_trough
  restored_barrier-saved_row side mark saved b locked valid =
      elim (Option-cases saved.trough_price) [
        | inl h ↦ rw valid (rw h (refl, refl, refl, refl, refl, λ price. next_trough_zero price))
        | inr (p, h) ↦ rw valid (rw h (refl, refl, refl, refl, refl, λ price. refl))
      ]

module _ {W F : Type 0} ⦃f : Float F⦄ where
  settle_market_exit-peak :
      (x : Executor W F) (purpose : OrderPurpose) (s : ExecutorState W F)
      (a : ExecutorState W F × Option (OrderAnswer F))
      → IsSent s a
      → (settle_market_exit x purpose a).barrier.peak_price ≡ s.barrier.peak_price
  unfolding settle_market_exit
  settle_market_exit-peak x purpose s (t, none) (q, act, e, i, o, g) =
      ap (λ (b : BarrierState F). b.peak_price) e
  settle_market_exit-peak x purpose s (t, some r) (q, act, e, i, o, g) =
      if_cases (λ (z : ExecutorState W F). z.barrier.peak_price ≡ s.barrier.peak_price)
        (is_stop_loss purpose) _ t (λ _. ap (λ (b : BarrierState F). b.peak_price) e)
        (λ _. ap (λ (b : BarrierState F). b.peak_price) e)

  disarm-peak :
      (x : Executor W F) (s : ExecutorState W F)
      → (disarm x s).barrier.peak_price ≡ s.barrier.peak_price
  unfolding disarm
  disarm-peak x s =
      let armed : ExecutorState W F = record s {
        is_exiting = true;
        barrier = record (s.barrier) { active = false };
      } in
      let (_, (os, p, a, l, e, _, _)) = cleanup_all_barrier_orders-IsCleared x armed in
      ap (λ (b : BarrierState F). b.peak_price) e

  execute_market_exit-peak :
      (x : Executor W F) (purpose : OrderPurpose) (s : ExecutorState W F)
      → (execute_market_exit x purpose s).barrier.peak_price ≡ s.barrier.peak_price
  unfolding execute_market_exit
  execute_market_exit-peak x purpose s =
      let t = disarm x s in
      let qty = quantize_amount x.quoter s.barrier.remaining_qty in
      let order = market_exit_order x purpose qty t in
      if_cases (λ (z : ExecutorState W F). z.barrier.peak_price ≡ s.barrier.peak_price)
        (le qty nought) s (settle_market_exit x purpose (safe_create_exit_order x order t))
        (λ _. refl)
        (λ _.
          settle_market_exit-peak x purpose t _ (safe_create_exit_order-IsSent x order t)
          ∙ disarm-peak x s)

  act_on_mark-peak :
      (x : Executor W F) (mark : F) (s : ExecutorState W F)
      → (act_on_mark x mark s).barrier.peak_price ≡ s.barrier.peak_price
  unfolding act_on_mark
  act_on_mark-peak x mark s =
      let kept : ExecutorState W F → Type 0 = λ z. z.barrier.peak_price ≡ s.barrier.peak_price in
      let priced = lt nought mark && lt nought s.barrier.entry_price in
      let placed = place_take_profit_orders x s in
      let taken = execute_market_exit x take_profit s in
      let tp = priced && is_tp_breached x.config x.position_side mark s.barrier in
      if_cases kept (priced && is_sl_breached x.position_side mark s.barrier)
        (execute_market_exit x stop_loss s) (if tp then taken else placed)
        (λ _. execute_market_exit-peak x stop_loss s)
        (λ _.
          if_cases kept tp taken placed (λ _. execute_market_exit-peak x take_profit s)
            (λ _. (kept_locked s placed (place_take_profit_orders-IsFramed x s)).3))

  arm-peak :
      (x : Executor W F) (mark : F) (row : SavedBarrier F) (s : ExecutorState W F)
      → (x.outside.load_barrier_state x.config.symbol x.position_side s.world).1 ≡ some row
      → row.is_guaranteed_sl_locked ≡ true
      → is_valid_sl x.position_side mark row.sl_price ≡ true
      → (arm x mark s).barrier.peak_price ≡ row.peak_price
  unfolding arm stop_barrier restored_barrier
  arm-peak x mark row s loaded locked valid = rw loaded (rw locked (rw valid refl))

  -- A reconciliation of an open position with a positive entry price, with a locked row of the database whose stop
  -- the mark price has not reached, puts the row's peak price in the place of the barrier's own, whatever the
  -- barrier had followed since the row was written and whatever the call does then.
  pub reconcile_barrier_restores :
      (x : Executor W F) (mark : F) (row : SavedBarrier F) (s : ExecutorState W F)
      → le (get_state s.tracker x.position_side).amount (lit 1 7) ≡ false
      → le (get_state s.tracker x.position_side).entry_price nought ≡ false
      → (x.outside.load_barrier_state x.config.symbol x.position_side s.world).1 ≡ some row
      → row.is_guaranteed_sl_locked ≡ true
      → is_valid_sl x.position_side mark row.sl_price ≡ true
      → (reconcile_barrier x mark s).0.barrier.peak_price ≡ row.peak_price
  unfolding reconcile_barrier
  reconcile_barrier_restores x mark row s has_pos priced loaded locked valid = rw has_pos (
      rw priced
        (act_on_mark-peak x mark (arm x mark s) ∙ arm-peak x mark row s loaded locked valid))
