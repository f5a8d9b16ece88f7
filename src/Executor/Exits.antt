-- ===== src/Executor/Exits.antt =====
-- Exit orders (app/core/executor.py): the cancellation of a barrier's orders, `_safe_create_exit_order` with its
-- retry after -2022, and `_execute_market_exit`.
use pmm_simple.Prelude.{
  ◌++◌, Bool, true, false, Option, none, some, List, [], ◌∷◌, String, codes, contains,
  if◌then◌else◌,
}
use pmm_simple.Float.{Float, nought, le, min}
use pmm_simple.Models.State.{PositionSide}
use pmm_simple.Tracker.{get_state, set_sl_cooldown}
use pmm_simple.Tracker.Sync.{reconcile_with_exchange}
use pmm_simple.Quoter.Pricing.{quantize_amount}
use pmm_simple.Executor.Ids.{Text, take, safe_client_order_id, side_text}
use pmm_simple.Executor.State.{
  market, OrderPurpose, entry_quote, take_profit, trailing_take_profit, stop_loss, trailing_stop,
  time_limit_exit, passive_time_limit_exit, kill_all_exit, circuit_breaker_exit, manual_exit,
  tp_open, tp_filled, TpOrder, ExitOrder, OrderAnswer, Outside, Executor, ExecutorState, exit_side,
}

-- `purpose.value.lower()`
unfoldable pub purpose_text : OrderPurpose → Text
purpose_text entry_quote = codes "entry_quote"
purpose_text take_profit = codes "take_profit"
purpose_text trailing_take_profit = codes "trailing_take_profit"
purpose_text stop_loss = codes "stop_loss"
purpose_text trailing_stop = codes "trailing_stop"
purpose_text time_limit_exit = codes "time_limit_exit"
purpose_text passive_time_limit_exit = codes "passive_time_limit_exit"
purpose_text kill_all_exit = codes "kill_all_exit"
purpose_text circuit_breaker_exit = codes "circuit_breaker_exit"
purpose_text manual_exit = codes "manual_exit"

-- The beginning of the client order id of a market exit.
unfoldable pub exit_prefix : OrderPurpose → PositionSide → Text
unfolding purpose_text
exit_prefix stop_loss side = codes "sl_" ++ side_text side
exit_prefix take_profit side = codes "tp_" ++ side_text side
exit_prefix trailing_take_profit side = codes "tp_" ++ side_text side
exit_prefix purpose side = codes "ex_" ++ (purpose_text purpose ++ (codes "_" ++ side_text side))

-- An order id that is held and not empty.
abbrev pub is_held : Option Text → Bool
is_held none = false
is_held (some []) = false
is_held (some (c ∷ id)) = true

abbrev pub is_stop_loss : OrderPurpose → Bool
is_stop_loss stop_loss = true
is_stop_loss _ = false

-- `retry_resp["amount"] = retry_amount`
abbrev pub with_amount : {F : Type 0} → F → Option (OrderAnswer F) → Option (OrderAnswer F)
with_amount amount none = none
with_amount amount (some r) = some (record r { amount = some amount })

module _ {W F : Type 0} where
  -- The cancellation of an order id that may be missing or empty.
  unfoldable pub cancel_id : Outside W F → String → Option Text → W → W
  cancel_id e symbol none w = w
  cancel_id e symbol (some []) w = w
  cancel_id e symbol (some (c ∷ id)) w = (e.cancel_order symbol (c ∷ id) w).0

  unfoldable pub cancel_tp : Outside W F → String → TpOrder F → W → W
  unfolding cancel_id
  cancel_tp e symbol o w = elim o.status [
    | tp_filled ↦ w
    | tp_open ↦ cancel_id e symbol (some o.order_id) w
  ]

  -- The loop that cancels the take-profit orders that are not filled.
  unfoldable pub cancel_tps : Outside W F → String → List (TpOrder F) → W → W
  unfolding cancel_tp
  cancel_tps e symbol [] w = w
  cancel_tps e symbol (o ∷ os) w = cancel_tps e symbol os (cancel_tp e symbol o w)

  -- That loop and `tp_orders.clear()`.
  unfoldable pub clear_tps : Executor W F → ExecutorState W F → ExecutorState W F
  unfolding cancel_tps
  clear_tps x s = record s {
    world = cancel_tps x.outside x.config.symbol s.barrier.tp_orders s.world;
    barrier = record (s.barrier) { tp_orders = [] };
  }

  unfoldable pub drop_passive : Executor W F → ExecutorState W F → ExecutorState W F
  unfolding cancel_id
  drop_passive x s =
      if is_held s.barrier.passive_exit_order_id
      then record s {
        world = cancel_id x.outside x.config.symbol s.barrier.passive_exit_order_id s.world;
        barrier = record (s.barrier) { passive_exit_order_id = none; passive_exit_active = false };
      }
      else s

  unfoldable pub drop_stop : Executor W F → ExecutorState W F → ExecutorState W F
  unfolding cancel_id
  drop_stop x s =
      if is_held s.barrier.sl_order_id
      then record s {
        world = cancel_id x.outside x.config.symbol s.barrier.sl_order_id s.world;
        barrier = record (s.barrier) { sl_order_id = none };
      }
      else s

  unfoldable pub cleanup_all_barrier_orders : Executor W F → ExecutorState W F → ExecutorState W F
  unfolding clear_tps drop_passive drop_stop
  cleanup_all_barrier_orders x s = drop_stop x (drop_passive x (clear_tps x s))

module _ {W F : Type 0} ⦃f : Float F⦄ where
  -- `self.tracker.reconcile_with_exchange()`
  unfoldable pub reconcile_tracker : Executor W F → ExecutorState W F → ExecutorState W F
  reconcile_tracker x s =
      let (w, fetched) = x.outside.fetch_positions_hedge x.config.symbol s.world in
      record s {
        world = w;
        tracker = (reconcile_with_exchange (x.outside.time w) fetched s.tracker).0;
      }

  -- The second attempt, past the reconciliation that answers -2022.
  unfoldable pub retry_exit :
      Executor W F → ExitOrder F → ExecutorState W F → ExecutorState W F × Option (OrderAnswer F)
  unfolding quantize_amount safe_client_order_id take
  retry_exit x order s =
      let reconciled_qty = (get_state s.tracker x.position_side).amount in
      let b = record (s.barrier) { remaining_qty = reconciled_qty } in
      let retry_amount = quantize_amount x.quoter (min order.amount reconciled_qty) in
      let prefix = take 24 order.client_order_id ++ codes "_r" in
      let (w, resp) =
        x.outside.create_exit_order
          (record order {
            amount = retry_amount;
            client_order_id = safe_client_order_id (x.outside.millis s.world) prefix 36;
          })
          s.world in
      if le reconciled_qty nought
      then (record s { barrier = record b { active = false } }, none)
      else if le retry_amount nought
      then (record s { barrier = b }, none)
      else (record s { barrier = b; world = w }, with_amount retry_amount resp)

  -- The first attempt is answered by `none`.
  unfoldable pub after_rejection :
      Executor W F → ExitOrder F → ExecutorState W F → ExecutorState W F × Option (OrderAnswer F)
  unfolding contains reconcile_tracker retry_exit
  after_rejection x order s =
      if contains (codes "-2022") (x.outside.last_exit_error s.world)
      then retry_exit x order (reconcile_tracker x s)
      else (s, none)

  -- By the answer to the first attempt.
  unfoldable pub settle_exit_order :
      Executor W F
      → ExitOrder F
      → ExecutorState W F
      → W × Option (OrderAnswer F)
      → ExecutorState W F × Option (OrderAnswer F)
  unfolding after_rejection
  settle_exit_order x order s (w, some r) = (record s { world = w }, some r)
  settle_exit_order x order s (w, none) = after_rejection x order (record s { world = w })

  unfoldable pub safe_create_exit_order :
      Executor W F → ExitOrder F → ExecutorState W F → ExecutorState W F × Option (OrderAnswer F)
  unfolding settle_exit_order
  safe_create_exit_order x order s =
      settle_exit_order x order s (x.outside.create_exit_order order s.world)

  -- The end of a market exit, by the answer to its order.
  unfoldable pub settle_market_exit :
      Executor W F → OrderPurpose → ExecutorState W F × Option (OrderAnswer F) → ExecutorState W F
  settle_market_exit x purpose (s, some r) =
      if is_stop_loss purpose
      then record s { tracker = set_sl_cooldown (x.outside.time s.world) x.position_side s.tracker }
      else s
  settle_market_exit x purpose (s, none) = record s {
    is_exiting = false;
    barrier = record (s.barrier) { active = true };
  }

  -- The state as the order is sent.
  unfoldable pub disarm : Executor W F → ExecutorState W F → ExecutorState W F
  unfolding cleanup_all_barrier_orders
  disarm x s =
      cleanup_all_barrier_orders x
        (record s { is_exiting = true; barrier = record (s.barrier) { active = false } })

  unfoldable pub market_exit_order :
      Executor W F → OrderPurpose → F → ExecutorState W F → ExitOrder F
  unfolding exit_prefix safe_client_order_id
  market_exit_order x purpose qty s = record {
    symbol = x.config.symbol;
    side = exit_side x.position_side;
    position_side = x.position_side;
    order_type = market;
    amount = qty;
    price = none;
    client_order_id =
        safe_client_order_id (x.outside.millis s.world) (exit_prefix purpose x.position_side) 36;
    purpose = purpose;
  }

  unfoldable pub execute_market_exit :
      Executor W F → OrderPurpose → ExecutorState W F → ExecutorState W F
  unfolding quantize_amount disarm market_exit_order safe_create_exit_order settle_market_exit
  execute_market_exit x purpose s =
      let qty = quantize_amount x.quoter s.barrier.remaining_qty in
      let s' = disarm x s in
      if le qty nought
      then s
      else settle_market_exit x purpose
          (safe_create_exit_order x (market_exit_order x purpose qty s') s')
