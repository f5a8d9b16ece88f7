-- ===== src/Executor/Ladder.antt =====
-- The take-profit ladder (app/core/executor.py, `_place_take_profit_orders`): what it leaves alone, and the
-- prices of its orders.
use pmm_simple.Prelude.{
  ℕ, suc, ◌≡◌, refl, ◌||◌, if◌then◌else◌, true, false, Option, none, some, List, [], ◌∷◌, All,
  All-append, arith, if_cases,
}
use pmm_simple.Float.{Float, FloatLaws, ◌+◌, ◌-◌, ◌*◌, ◌/◌, nought, one, lit, le, lt, max, ◌≼◌}
use pmm_simple.Models.Config.{PairConfig}
use pmm_simple.Float.Order
use pmm_simple.Models.State.{PositionSide, is_long}
use pmm_simple.Quoter.Pricing.{PmmQuoter, quantize_price, quantize_amount, calculate_spread_floor}
use pmm_simple.Quoter.Pricing.Bounds.{quantize_price_le}
use pmm_simple.Executor.State.{TpOrder, ExitOrder, OrderAnswer, Executor, ExecutorState}
use pmm_simple.Executor.Exits.{clear_tps, safe_create_exit_order}
use pmm_simple.Executor.ExitLaws.{
  IsFramed, IsFramed-refl, IsFramed-trans, IsSent, safe_create_exit_order-IsSent,
}
use pmm_simple.Executor.TakeProfit.{
  tp_ladder, skew_discount, min_eff_tp, effective_tp, tp_price, tp_order, settle_tp, send_tp,
  place_tp, place_tps, place_take_profit_orders,
}

module _ {W F : Type 0} ⦃f : Float F⦄ where
  settle_tp-IsFramed :
      (idx : ℕ) (order : ExitOrder F) (price : F) (s : ExecutorState W F)
      (a : ExecutorState W F × Option (OrderAnswer F))
      → IsSent s a
      → IsFramed s (settle_tp idx order price a)
  unfolding settle_tp
  settle_tp-IsFramed idx order price s (t, none) (q, act, e, i, o, g) = record {
    qty = q;
    act = act;
    orders = s.barrier.tp_orders;
    barrier_eq = e;
    exiting_eq = i;
    override_eq = o;
  }
  settle_tp-IsFramed idx order price s (t, some r) (q, act, e, i, o, g) = record {
    qty = q;
    act = act;
    orders = (settle_tp idx order price (t, some r)).barrier.tp_orders;
    barrier_eq = rw e refl;
    exiting_eq = i;
    override_eq = o;
  }

  send_tp-IsFramed :
      (x : Executor W F) (idx : ℕ) (order : ExitOrder F) (price : F) (s : ExecutorState W F)
      → IsFramed s (send_tp x idx order price s)
  unfolding send_tp
  send_tp-IsFramed x idx order price s =
      settle_tp-IsFramed idx order price s (safe_create_exit_order x order s)
        (safe_create_exit_order-IsSent x order s)

  place_tp-IsFramed :
      (x : Executor W F) (total_qty entry : F) (idx : ℕ) (l : F × F) (s : ExecutorState W F)
      → IsFramed s (place_tp x total_qty entry idx l s)
  unfolding place_tp
  place_tp-IsFramed x total_qty entry idx (tp_pct, fraction) s =
      let qty = quantize_amount x.quoter (total_qty * fraction) in
      let eff = effective_tp x.config x.quoter x.position_side total_qty entry tp_pct in
      let price = tp_price x.quoter x.position_side entry eff in
      let order = tp_order x s idx qty price in
      if_cases (IsFramed s) (le qty nought) s (send_tp x idx order price s) (λ _. IsFramed-refl s)
        (λ _. send_tp-IsFramed x idx order price s)

  place_tps-IsFramed :
      (x : Executor W F) (total_qty entry : F) (idx : ℕ) (ls : List (F × F)) (s : ExecutorState W F)
      → IsFramed s (place_tps x total_qty entry idx ls s)
  unfolding place_tps
  place_tps-IsFramed x total_qty entry idx [] s = IsFramed-refl s
  place_tps-IsFramed x total_qty entry idx (l ∷ ls) s =
      let s' = place_tp x total_qty entry idx l s in
      IsFramed-trans s s' _ (place_tp-IsFramed x total_qty entry idx l s)
        (place_tps-IsFramed x total_qty entry (suc idx) ls s')

  clear_tps-IsFramed : (x : Executor W F) (s : ExecutorState W F) → IsFramed s (clear_tps x s)
  unfolding clear_tps
  clear_tps-IsFramed x s = record {
    qty = s.barrier.remaining_qty;
    act = s.barrier.active;
    orders = [];
    barrier_eq = refl;
    exiting_eq = refl;
    override_eq = refl;
  }

  pub place_take_profit_orders-IsFramed :
      (x : Executor W F) (s : ExecutorState W F) → IsFramed s (place_take_profit_orders x s)
  unfolding place_take_profit_orders
  place_take_profit_orders-IsFramed x s =
      let s' = clear_tps x s in
      let entry = s.barrier.entry_price in
      let total_qty = s.barrier.remaining_qty in
      let placed = place_tps x total_qty entry 0 (tp_ladder x.config) s' in
      if_cases (IsFramed s) (le entry nought || le total_qty nought) s' placed
        (λ _. clear_tps-IsFramed x s)
        (λ _.
          IsFramed-trans s s' placed (clear_tps-IsFramed x s)
            (place_tps-IsFramed x total_qty entry 0 (tp_ladder x.config) s'))

module _ {F : Type 0} ⦃f : Float F⦄ ⦃laws : FloatLaws F⦄ where
  open laws use {le_refl, le_trans, add_le, sub_le, mul_le, mul_right_le, mul_comm}

  -- The costs of a round trip at a price, as a share of it: the larger of the pair's minimum spread, and of 0.05%
  -- and the larger of 0.25% and two ticks, two maker fees and the larger of 0.15% and the quoter's minimum spread.
  abbrev pub cost_floor : PairConfig F → PmmQuoter F → F → F
  cost_floor c q entry =
      let tick = if lt nought entry then q.tick_size / entry else lit 1 4 in
      let fees = lit 20 1 * tick + lit 20 1 * q.maker_fee_pct in
      max c.minimum_spread
        (max (lit 25 4) (fees + max (lit 15 4) q.config.minimum_spread) + lit 5 4)

  -- A take-profit price at least `least` from the entry price, in the direction of the profit.
  abbrev pub IsProfitable : PmmQuoter F → PositionSide → F → F → F → Type 0
  IsProfitable q side entry eff price =
      ((is_long side ≡ true) → quantize_price q (some false) (entry * (one + eff)) ≼ price)
      × ((is_long side ≡ false) → price ≼ quantize_price q (some true) (entry * (one - eff)))

  scaled_le : (a b c : F) → a ≼ b → nought ≼ c → c * a ≼ c * b
  scaled_le a b c h n = ground (arith, mul_right_le a b c h n, mul_comm a c, mul_comm b c)

  tp_price-IsProfitable :
      (q : PmmQuoter F) (side : PositionSide) (entry least eff : F)
      → nought ≼ entry
      → least ≼ eff
      → IsProfitable q side entry least (tp_price q side entry eff)
  unfolding tp_price
  tp_price-IsProfitable q side entry least eff n h = (
    λ e. rw e (
        quantize_price_le q (some false) _ _
          (scaled_le (one + least) (one + eff) entry (add_le one one least eff (le_refl one) h) n)),
    λ e. rw e (
        quantize_price_le q (some true) _ _
          (scaled_le (one - eff) (one - least) entry (sub_le one one eff least (le_refl one) h) n)),
  )

module _ {W F : Type 0} ⦃f : Float F⦄ ⦃laws : FloatLaws F⦄ where
  open laws use {le_refl, le_trans}

  -- Every order of the ladder is profitable.
  abbrev pub AreProfitable : Executor W F → F → ExecutorState W F → Type 0
  AreProfitable x entry s =
      All
        (λ (o : TpOrder F).
          IsProfitable x.quoter x.position_side entry (min_eff_tp x.config x.quoter entry) o.price)
        s.barrier.tp_orders

  settle_tp-AreProfitable :
      (x : Executor W F) (entry : F) (idx : ℕ) (order : ExitOrder F) (price : F)
      (s : ExecutorState W F) (a : ExecutorState W F × Option (OrderAnswer F))
      → IsProfitable x.quoter x.position_side entry (min_eff_tp x.config x.quoter entry) price
      → IsSent s a
      → AreProfitable x entry s
      → AreProfitable x entry (settle_tp idx order price a)
  unfolding settle_tp
  settle_tp-AreProfitable x entry idx order price s (t, none) p (q, act, e, i, o, g) all = rw e all
  settle_tp-AreProfitable x entry idx order price s (t, some r) p (q, act, e, i, o, g) all =
      All-append _ t.barrier.tp_orders _ (rw e all) (p, tt)

  place_tp-AreProfitable :
      (x : Executor W F) (total_qty entry : F) (idx : ℕ) (l : F × F) (s : ExecutorState W F)
      → nought ≼ entry
      → AreProfitable x entry s
      → AreProfitable x entry (place_tp x total_qty entry idx l s)
  unfolding place_tp effective_tp send_tp
  place_tp-AreProfitable x total_qty entry idx (tp_pct, fraction) s n all =
      let eff = effective_tp x.config x.quoter x.position_side total_qty entry tp_pct in
      let price = tp_price x.quoter x.position_side entry eff in
      let qty = quantize_amount x.quoter (total_qty * fraction) in
      let order = tp_order x s idx qty price in
      let far =
        tp_price-IsProfitable x.quoter x.position_side entry (min_eff_tp x.config x.quoter entry)
          eff n
          (Order.le-max_left (min_eff_tp x.config x.quoter entry)
            (tp_pct * skew_discount x.config x.position_side total_qty entry)) in
      if_cases (AreProfitable x entry) (le qty nought) s (send_tp x idx order price s) (λ _. all)
        (λ _.
          settle_tp-AreProfitable x entry idx order price s _ far
            (safe_create_exit_order-IsSent x order s) all)

  place_tps-AreProfitable :
      (x : Executor W F) (total_qty entry : F) (idx : ℕ) (ls : List (F × F)) (s : ExecutorState W F)
      → nought ≼ entry
      → AreProfitable x entry s
      → AreProfitable x entry (place_tps x total_qty entry idx ls s)
  unfolding place_tps
  place_tps-AreProfitable x total_qty entry idx [] s n all = all
  place_tps-AreProfitable x total_qty entry idx (l ∷ ls) s n all =
      place_tps-AreProfitable x total_qty entry (suc idx) ls (place_tp x total_qty entry idx l s) n
        (place_tp-AreProfitable x total_qty entry idx l s n all)

  -- Every order of the ladder clears the costs.
  abbrev pub AreAboveCosts : Executor W F → F → ExecutorState W F → Type 0
  AreAboveCosts x entry s =
      All
        (λ (o : TpOrder F).
          IsProfitable x.quoter x.position_side entry (cost_floor x.config x.quoter entry) o.price)
        s.barrier.tp_orders

  -- Whatever the levels, the skew and the exchange's answers, every take-profit order that is recorded has
  -- a price that clears the costs of `cost_floor`: for a LONG position at least the entry price plus that share of
  -- it, rounded up to a tick, and for a SHORT position at most the entry price less as much, rounded down.
  pub place_take_profit_orders-AreProfitable :
      (x : Executor W F) (s : ExecutorState W F)
      → AreAboveCosts x s.barrier.entry_price (place_take_profit_orders x s)
  unfolding place_take_profit_orders clear_tps min_eff_tp calculate_spread_floor
  place_take_profit_orders-AreProfitable x s =
      let entry = s.barrier.entry_price in
      let total_qty = s.barrier.remaining_qty in
      if_cases (AreProfitable x entry) (le entry nought || le total_qty nought) (clear_tps x s)
        (place_tps x total_qty entry 0 (tp_ladder x.config) (clear_tps x s)) (λ _. tt)
        (λ h.
          place_tps-AreProfitable x total_qty entry 0 (tp_ladder x.config) (clear_tps x s)
            (Order.le_of_not_le entry nought (ground (arith, h))) tt)
