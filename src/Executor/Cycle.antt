-- ===== src/Executor/Cycle.antt =====
-- The cycle of a position (app/core/executor.py): the pyramid fill that locks a profit and the fill that closes,
-- and the barrier that comes back from the database.
use pmm_simple.Prelude.{
  ◌≡◌, refl, ap, ◌∙◌, ◌&&◌, ◌||◌, Bool, true, false, not, Option, none, [], arith,
}
use pmm_simple.Float.{Float, FloatLaws, ◌+◌, ◌-◌, ◌*◌, nought, one, lit, le, max, ◌≼◌}
use pmm_simple.Float.Order
use pmm_simple.Models.State.{PositionSide, FillRecord, is_long}
use pmm_simple.Tracker.{get_state, cid_of}
use pmm_simple.Tracker.Cooldown.{get_state-put_state}
use pmm_simple.Quoter.Pricing.{PmmQuoter, quantize_price, calculate_spread_floor}
use pmm_simple.Quoter.Pricing.Bounds.{quantize_price_le}
use pmm_simple.Executor.State.{BarrierState, Executor, ExecutorState}
use pmm_simple.Executor.Exits.{is_held, cleanup_all_barrier_orders}
use pmm_simple.Executor.ExitLaws.{IsFramed, cleanup_all_barrier_orders-IsCleared}
use pmm_simple.Executor.TakeProfit.{place_take_profit_orders}
use pmm_simple.Executor.Ladder.{place_take_profit_orders-IsFramed}
use pmm_simple.Executor.Fills.{
  is_pyramid_leg, initial_price, guaranteed_stop, pyramid_barrier, pyramid_armed, on_entry_fill,
  reduced_barrier, closed_barrier, note_exit, close_out, on_exit_fill,
}
use pmm_simple.Executor.Runtime.{check_favorable_momentum_pyramid}
use pmm_simple.Executor.Triggers.{Momentum, is_pyramid_due}

guard_false : (a b c d e : Bool) → (a && (not (b || (c || (d || true))) && e)) ≡ false
guard_false a b c d e = ground arith

module _ {W F : Type 0} ⦃f : Float F⦄ where
  -- A barrier ready for the next position.
  pub record IsReset (x : Executor W F) (s : ExecutorState W F) : Type 0 where
    pub inactive : s.barrier.active ≡ false
    pub not_exiting : s.is_exiting ≡ false
    pub no_orders : s.barrier.tp_orders ≡ []
    pub no_passive : s.barrier.passive_exit_order_id ≡ none
    pub passive_off : s.barrier.passive_exit_active ≡ false
    pub no_stop : is_held s.barrier.sl_order_id ≡ false
    pub unlocked : s.barrier.is_guaranteed_sl_locked ≡ false
    pub no_pyramid : s.barrier.pyramid_filled_count ≡ 0
    pub none_pending : s.barrier.pending_pyramid_client_id ≡ none
    pub not_trailing : s.barrier.trailing_tp_active ≡ false
    pub no_refresh : s.barrier.passive_exit_refresh_count ≡ 0
    pub no_override : s.trailing_cb_override ≡ none
    pub slot_unlocked : (get_state s.tracker x.position_side).is_guaranteed_sl_locked ≡ false

  close_out-IsReset : (x : Executor W F) (s : ExecutorState W F) → IsReset x (close_out x s)
  unfolding close_out closed_barrier
  close_out-IsReset x s =
      let s' = cleanup_all_barrier_orders x s in
      let cleared = (cleanup_all_barrier_orders-IsCleared x s).0 in
      let pos = get_state s'.tracker x.position_side in
      record {
        inactive = refl;
        not_exiting = refl;
        no_orders = cleared.0;
        no_passive = refl;
        passive_off = refl;
        no_stop = cleared.2;
        unlocked = refl;
        no_pyramid = refl;
        none_pending = refl;
        not_trailing = refl;
        no_refresh = refl;
        no_override = refl;
        slot_unlocked =
            ap (λ z. z.is_guaranteed_sl_locked)
              (get_state-put_state s'.tracker x.position_side
                (record pos { pyramid_filled_count = 0; is_guaranteed_sl_locked = false }));
      }

  -- An exit fill of at least all but 1e-7 of what is left closes the cycle: whatever the state before,
  -- the barrier is inactive and no exit is under way, no take-profit, stop or passive exit order is recorded, no
  -- passive exit, guaranteed stop, pyramid or trailing take profit is on, the callback has no override, and the
  -- slot's lock is off. The trailing stop of `trailing_stop` is not spoken of: only the next entry resets it.
  pub on_exit_fill-IsReset :
      (x : Executor W F) (fill : FillRecord F) (s : ExecutorState W F)
      → max nought (s.barrier.remaining_qty - fill.amount) ≼ lit 1 7
      → IsReset x (on_exit_fill x fill s)
  unfolding on_exit_fill note_exit reduced_barrier
  on_exit_fill-IsReset x fill s h = rw h (close_out-IsReset x (note_exit x fill s))

module _ {F : Type 0} ⦃f : Float F⦄ ⦃laws : FloatLaws F⦄ where
  -- A stop in profit over the average entry price with its costs, and over the first entry price.
  abbrev pub IsProfitStop : PmmQuoter F → PositionSide → F → F → F → Type 0
  IsProfitStop q side entry init stop =
      let up = quantize_price q none in
      (is_long side ≡ true
        → (up (entry * (one + calculate_spread_floor q entry)) ≼ stop)
          × (up (init * lit 10035 4) ≼ stop))
      × (is_long side ≡ false
          → (stop ≼ up (entry * (one - calculate_spread_floor q entry)))
            × (stop ≼ up (init * lit 9965 4)))

  guaranteed_stop-IsProfitStop :
      (q : PmmQuoter F) (side : PositionSide) (entry init : F)
      → IsProfitStop q side entry init (quantize_price q none (guaranteed_stop q side entry init))
  unfolding guaranteed_stop
  guaranteed_stop-IsProfitStop q side entry init =
      let s_floor = calculate_spread_floor q entry in
      (
        λ e. rw e (
          quantize_price_le q none _ _
              (Order.le-max_left (entry * (one + s_floor)) (init * lit 10035 4)),
          quantize_price_le q none _ _
              (Order.le-max_right (entry * (one + s_floor)) (init * lit 10035 4)),
        ),
        λ e. rw e (
          quantize_price_le q none _ _
              (Order.min-le_left (entry * (one - s_floor)) (init * lit 9965 4)),
          quantize_price_le q none _ _
              (Order.min-le_right (entry * (one - s_floor)) (init * lit 9965 4)),
        ),
      )

module _ {W F : Type 0} ⦃f : Float F⦄ where
  pyramid_fill-eq :
      (x : Executor W F) (fill : FillRecord F) (s : ExecutorState W F)
      → le (get_state s.tracker x.position_side).amount (lit 1 7) ≡ false
      → is_pyramid_leg s.barrier.pending_pyramid_client_id (cid_of fill) ≡ true
      → on_entry_fill x fill s ≡ place_take_profit_orders x (pyramid_armed x s)
  unfolding on_entry_fill
  pyramid_fill-eq x fill s has_pos leg = rw has_pos (rw leg refl)

  not_due :
      (x : Executor W F) (price : F) (m : Option (Momentum F)) (exiting : Bool) (b : BarrierState F)
      → b.pyramid_filled_count ≡ 1
      → is_pyramid_due x.config x.position_side exiting price m b ≡ false
  unfolding is_pyramid_due
  not_due x price m exiting b h = rw h (guard_false _ _ _ exiting _)

  no_second_pyramid :
      (x : Executor W F) (price : F) (m : Option (Momentum F)) (s : ExecutorState W F)
      → s.barrier.pyramid_filled_count ≡ 1
      → check_favorable_momentum_pyramid x price m s ≡ (s, false)
  unfolding check_favorable_momentum_pyramid
  no_second_pyramid x price m s h = rw (not_due x price m s.is_exiting s.barrier h) refl

  -- The fields of a barrier that the placing of orders keeps.
  pub kept_locked :
      (s s' : ExecutorState W F)
      → IsFramed s s'
      → (s'.barrier.is_guaranteed_sl_locked ≡ s.barrier.is_guaranteed_sl_locked)
        × (s'.barrier.sl_price ≡ s.barrier.sl_price)
        × (s'.barrier.pyramid_filled_count ≡ s.barrier.pyramid_filled_count)
        × (s'.barrier.peak_price ≡ s.barrier.peak_price)
  kept_locked s s' m = (
    ap (λ (b : BarrierState F). b.is_guaranteed_sl_locked) m.barrier_eq,
    ap (λ (b : BarrierState F). b.sl_price) m.barrier_eq,
    ap (λ (b : BarrierState F). b.pyramid_filled_count) m.barrier_eq,
    ap (λ (b : BarrierState F). b.peak_price) m.barrier_eq,
  )

module _ {W F : Type 0} ⦃f : Float F⦄ ⦃laws : FloatLaws F⦄ where
  armed_locks :
      (x : Executor W F) (s : ExecutorState W F)
      → let b = (pyramid_armed x s).barrier in
        let entry = (get_state s.tracker x.position_side).entry_price in
        (b.is_guaranteed_sl_locked ≡ true)
        × IsProfitStop x.quoter x.position_side entry (initial_price s.barrier entry) b.sl_price
        × (b.pyramid_filled_count ≡ 1)
  unfolding pyramid_armed pyramid_barrier
  armed_locks x s =
      let entry = (get_state s.tracker x.position_side).entry_price in
      (
        refl,
        guaranteed_stop-IsProfitStop x.quoter x.position_side entry (initial_price s.barrier entry),
        refl,
      )

  -- The fill of a pyramid order locks a stop in profit: for a LONG position at or above the average entry
  -- price plus the spread floor and the first entry price plus 0.35%, each rounded to a tick, and for a SHORT
  -- position at or below. From then on no price and no momentum adds a second pyramid order.
  pub on_entry_fill_locks :
      (x : Executor W F) (fill : FillRecord F) (s : ExecutorState W F)
      → le (get_state s.tracker x.position_side).amount (lit 1 7) ≡ false
      → is_pyramid_leg s.barrier.pending_pyramid_client_id (cid_of fill) ≡ true
      → let s' = on_entry_fill x fill s in
        let entry = (get_state s.tracker x.position_side).entry_price in
        (s'.barrier.is_guaranteed_sl_locked ≡ true)
        × IsProfitStop x.quoter x.position_side entry
            (initial_price s.barrier entry)
            s'.barrier.sl_price
        × ((price : F) (m : Option (Momentum F))
            → check_favorable_momentum_pyramid x price m s' ≡ (s', false))
  on_entry_fill_locks x fill s has_pos leg =
      let t = pyramid_armed x s in
      let (locked, stop, count) = armed_locks x s in
      let s' = place_take_profit_orders x t in
      let (same_lock, same_stop, same_count, _) =
        kept_locked t s' (place_take_profit_orders-IsFramed x t) in
      rw (pyramid_fill-eq x fill s has_pos leg) (
        same_lock ∙ locked,
        rw same_stop stop,
        λ price m. no_second_pyramid x price m s' (same_count ∙ count),
      )
