-- ===== src/Executor/TakeProfit.antt =====
-- The ladder of take-profit orders (app/core/executor.py, `_place_take_profit_orders`).
use pmm_simple.Prelude.{
  ℕ, suc, ◌++◌, ◌||◌, true, false, Option, none, some, List, [], ◌∷◌, codes, if◌then◌else◌,
}
use text.Mathlib.Text.{◌==◌ as str_eq}
use pmm_simple.Float.{Float, ◌+◌, ◌-◌, ◌*◌, ◌/◌, nought, one, lit, le, eq, min, max}
use pmm_simple.Models.Config.{PairConfig}
use pmm_simple.Models.State.{PositionSide, is_long}
use pmm_simple.Quoter.Pricing.{PmmQuoter, quantize_price, quantize_amount, calculate_spread_floor}
use pmm_simple.Executor.Ids.{Text, show, safe_client_order_id, side_text}
use pmm_simple.Executor.State.{
  limit, limit_maker, take_profit, tp_open, TpOrder, ExitOrder, OrderAnswer, Executor,
  ExecutorState, exit_side,
}
use pmm_simple.Executor.Exits.{clear_tps, safe_create_exit_order}

-- `str(resp.get("id") or client_id)`
abbrev pub id_or : Text → Option Text → Text
id_or client_id none = client_id
id_or client_id (some []) = client_id
id_or client_id (some (c ∷ id)) = c ∷ id

module _ {F : Type 0} ⦃f : Float F⦄ where
  -- `config.tp_levels`, or the single take profit.
  unfoldable pub tp_ladder : PairConfig F → List (F × F)
  tp_ladder c = elim c.tp_levels [ [] ↦ (c.take_profit, one) ∷ [] | l ∷ ls ↦ l ∷ ls ]

  -- The inventory ratio, from 0 to 1.
  unfoldable pub inventory_ratio : PairConfig F → PositionSide → F → F → F
  inventory_ratio c side total_qty entry =
      let max_pos = if is_long side then c.max_long_usdt else c.max_short_usdt in
      if c.inventory_skew_enabled
      then min one (max nought (total_qty * entry / max one max_pos))
      else nought

  unfoldable pub skew_discount : PairConfig F → PositionSide → F → F → F
  unfolding inventory_ratio
  skew_discount c side total_qty entry =
      max (lit 5 1) (min one (one - c.tp_skew_boost * inventory_ratio c side total_qty entry))

  -- No take profit is closer to the entry price than this.
  unfoldable pub min_eff_tp : PairConfig F → PmmQuoter F → F → F
  unfolding calculate_spread_floor
  min_eff_tp c q entry = max c.minimum_spread (calculate_spread_floor q entry + lit 5 4)

  unfoldable pub effective_tp : PairConfig F → PmmQuoter F → PositionSide → F → F → F → F
  unfolding min_eff_tp skew_discount
  effective_tp c q side total_qty entry tp_pct =
      max (min_eff_tp c q entry) (tp_pct * skew_discount c side total_qty entry)

  unfoldable pub tp_price : PmmQuoter F → PositionSide → F → F → F
  unfolding quantize_price
  tp_price q side entry eff =
      if is_long side
      then quantize_price q (some false) (entry * (one + eff))
      else quantize_price q (some true) (entry * (one - eff))

  -- `float(resp.get("amount") or qty)`
  abbrev pub amount_or : F → Option F → F
  amount_or qty none = qty
  amount_or qty (some a) = if eq a nought then qty else a

module _ {W F : Type 0} ⦃f : Float F⦄ where
  unfoldable pub tp_order : Executor W F → ExecutorState W F → ℕ → F → F → ExitOrder F
  unfolding safe_client_order_id show
  tp_order x s idx qty price = record {
    symbol = x.config.symbol;
    side = exit_side x.position_side;
    position_side = x.position_side;
    order_type =
        if str_eq x.config.take_profit_order_type "LIMIT_MAKER" then limit_maker else limit;
    amount = qty;
    price = some price;
    client_order_id =
        safe_client_order_id (x.outside.millis s.world)
          (codes "tp_" ++ (side_text x.position_side ++ (codes "_" ++ show idx))) 36;
    purpose = take_profit;
  }

  -- An accepted order is appended.
  unfoldable pub settle_tp :
      ℕ → ExitOrder F → F → ExecutorState W F × Option (OrderAnswer F) → ExecutorState W F
  settle_tp idx order price (s, none) = s
  settle_tp idx order price (s, some r) =
      let o : TpOrder F = record {
        order_id = id_or order.client_order_id r.id;
        client_order_id = order.client_order_id;
        price = price;
        qty = amount_or order.amount r.amount;
        level = idx;
        status = tp_open;
      } in
      record s { barrier = record (s.barrier) { tp_orders = s.barrier.tp_orders ++ (o ∷ []) } }

  unfoldable pub send_tp :
      Executor W F → ℕ → ExitOrder F → F → ExecutorState W F → ExecutorState W F
  unfolding settle_tp safe_create_exit_order
  send_tp x idx order price s = settle_tp idx order price (safe_create_exit_order x order s)

  -- One turn of the loop; `total_qty` and `entry` were read before it.
  unfoldable pub place_tp : Executor W F → F → F → ℕ → F × F → ExecutorState W F → ExecutorState W F
  unfolding effective_tp tp_price quantize_amount tp_order send_tp
  place_tp x total_qty entry idx (tp_pct, fraction) s =
      let qty = quantize_amount x.quoter (total_qty * fraction) in
      let eff = effective_tp x.config x.quoter x.position_side total_qty entry tp_pct in
      let price = tp_price x.quoter x.position_side entry eff in
      if le qty nought then s else send_tp x idx (tp_order x s idx qty price) price s

  unfoldable pub place_tps :
      Executor W F → F → F → ℕ → List (F × F) → ExecutorState W F → ExecutorState W F
  unfolding place_tp
  place_tps x total_qty entry idx [] s = s
  place_tps x total_qty entry idx (l ∷ ls) s =
      place_tps x total_qty entry (suc idx) ls (place_tp x total_qty entry idx l s)

  unfoldable pub place_take_profit_orders : Executor W F → ExecutorState W F → ExecutorState W F
  unfolding clear_tps tp_ladder place_tps
  place_take_profit_orders x s =
      let s' = clear_tps x s in
      let entry = s.barrier.entry_price in
      let total_qty = s.barrier.remaining_qty in
      if le entry nought || le total_qty nought
      then s'
      else place_tps x total_qty entry 0 (tp_ladder x.config) s'
