-- ===== src/Executor/Ticks.antt =====
-- Runs of price ticks (app/core/executor.py, `check_runtime_barriers`): the stop loss comes first, and an
-- exit that is under way is not sent twice.
use pmm_simple.Prelude.{◌≡◌, ◌∙◌, refl, true, false, List, [], ◌∷◌, arith, if_cases}
use pmm_simple.Float.{Float, nought, le, ◌≺◌}
use pmm_simple.Models.State.{buy, sell, is_long}
use pmm_simple.Quoter.Pricing.{quantize_amount}
use pmm_simple.Executor.State.{market, stop_loss, ExitOrder, Executor, ExecutorState}
use pmm_simple.Executor.Exits.{
  reconcile_tracker, disarm, settle_market_exit, settle_exit_order, safe_create_exit_order,
  market_exit_order, execute_market_exit,
}
use pmm_simple.Executor.ExitLaws.{MarketExitOutcome, execute_market_exit_outcome}
use pmm_simple.Executor.Runtime.{is_idle, watchdog, check_barriers, check_runtime_barriers}
use pmm_simple.Executor.Triggers.{Tick, sl_trigger, is_sl_hit}

module _ {W F : Type 0} ⦃f : Float F⦄ where
  -- A run of ticks without a fill in between.
  abbrev pub run_ticks : Executor W F → List (Tick F) → ExecutorState W F → ExecutorState W F
  run_ticks x [] s = s
  run_ticks x (t ∷ ts) s = run_ticks x ts (check_runtime_barriers x t s)

  tick_idle :
      (x : Executor W F) (t : Tick F) (s : ExecutorState W F)
      → is_idle s ≡ true
      → check_runtime_barriers x t s ≡ s
  unfolding check_runtime_barriers
  tick_idle x t s h = rw h refl

  run_ticks_idle :
      (x : Executor W F) (ts : List (Tick F)) (s : ExecutorState W F)
      → is_idle s ≡ true
      → run_ticks x ts s ≡ s
  run_ticks_idle x [] s h = refl
  run_ticks_idle x (t ∷ ts) s h = rw (tick_idle x t s h) (run_ticks_idle x ts s h)

  exiting-idle : (s : ExecutorState W F) → s.is_exiting ≡ true → is_idle s ≡ true
  unfolding is_idle
  exiting-idle s h = ground arith

  watchdog-hit :
      (x : Executor W F) (now price : F) (s : ExecutorState W F)
      → is_sl_hit x.config x.position_side price (watchdog x now s).barrier
        ≡ is_sl_hit x.config x.position_side price s.barrier
  unfolding watchdog reconcile_tracker is_sl_hit sl_trigger
  watchdog-hit x now price s =
      let same : ExecutorState W F → Type 0 = λ z.
        is_sl_hit x.config x.position_side price z.barrier
        ≡ is_sl_hit x.config x.position_side price s.barrier in
      if_cases same _ _ s (λ _. refl) (λ _. refl)

  -- A market order that closes a quantity of the executor's side: SELL for LONG and BUY for SHORT.
  pub record IsStopOrder (x : Executor W F) (qty : F) (o : ExitOrder F) : Type 0 where
    pub sells_long : is_long x.position_side ≡ true → o.side ≡ sell
    pub buys_short : is_long x.position_side ≡ false → o.side ≡ buy
    pub same_side : o.position_side ≡ x.position_side
    pub same_symbol : o.symbol ≡ x.config.symbol
    pub at_market : o.order_type ≡ market
    pub whole : o.amount ≡ qty
    pub for_stop : o.purpose ≡ stop_loss

  -- The state after is the one in which such an order was handed to the exchange, the barrier's own orders
  -- cancelled before, and its answer seen.
  abbrev pub IsSentStop : Executor W F → F → ExecutorState W F → ExecutorState W F → Type 0
  IsSentStop x qty s s' =
      (o : ExitOrder F) × IsStopOrder x qty o
      × (s'
          ≡ settle_market_exit x stop_loss (
              settle_exit_order x o (disarm x s)
                (x.outside.create_exit_order o (disarm x s).world)))

  market_exit_order-IsStopOrder :
      (x : Executor W F) (qty : F) (s : ExecutorState W F)
      → IsStopOrder x qty (market_exit_order x stop_loss qty s)
  unfolding market_exit_order
  market_exit_order-IsStopOrder x qty s = record {
    sells_long = λ h. rw h refl;
    buys_short = λ h. rw h refl;
    same_side = refl;
    same_symbol = refl;
    at_market = refl;
    whole = refl;
    for_stop = refl;
  }

  stop_sent :
      (x : Executor W F) (s : ExecutorState W F)
      → nought ≺ quantize_amount x.quoter s.barrier.remaining_qty
      → IsSentStop x
          (quantize_amount x.quoter s.barrier.remaining_qty)
          s
          (execute_market_exit x stop_loss s)
  unfolding execute_market_exit safe_create_exit_order
  stop_sent x s h =
      let qty = quantize_amount x.quoter s.barrier.remaining_qty in
      let h' : le qty nought ≡ false = ground arith in
      rw h' (
        market_exit_order x stop_loss qty (disarm x s),
        market_exit_order-IsStopOrder x qty (disarm x s),
        refl,
      )

  tick_stops :
      (x : Executor W F) (t : Tick F) (s : ExecutorState W F)
      → is_idle s ≡ false
      → nought ≺ t.price
      → is_sl_hit x.config x.position_side t.price s.barrier ≡ true
      → check_runtime_barriers x t s
        ≡ execute_market_exit x stop_loss (watchdog x (x.outside.time s.world) s)
  unfolding check_runtime_barriers check_barriers
  tick_stops x t s armed p hit =
      let now = x.outside.time s.world in
      let p' : le t.price nought ≡ false = ground arith in
      let hit' = watchdog-hit x now t.price s ∙ hit in rw armed (rw p' (rw hit' refl))

  -- While the barrier is armed, a tick at a positive price at or past the watched stop does nothing but the stop
  -- loss, after the pyramid's watchdog and whatever the holding lock and the trailing barriers say. Where the
  -- quantized rest of the position is positive, a market order that closes it is handed to the exchange, SELL for
  -- LONG and BUY for SHORT, and of the barrier's orders none is left; either the exit is then under way and the
  -- side in cooldown, or the order failed and the barrier is armed again. Where the quantized rest is not positive
  -- nothing more happens. Once the exit is under way, no sequence of further ticks changes anything or sends an
  -- order.
  pub check_runtime_barriers_stops :
      (x : Executor W F) (t : Tick F) (later : List (Tick F)) (s : ExecutorState W F)
      → is_idle s ≡ false
      → nought ≺ t.price
      → is_sl_hit x.config x.position_side t.price s.barrier ≡ true
      → let s' = check_runtime_barriers x t s in
        let w = watchdog x (x.outside.time s.world) s in
        let qty = quantize_amount x.quoter w.barrier.remaining_qty in
        (nought ≺ qty → IsSentStop x qty w s')
        × MarketExitOutcome x stop_loss w s'
        × (s'.is_exiting ≡ true → run_ticks x later s' ≡ s')
  check_runtime_barriers_stops x t later s armed p hit = (
    λ h. rw (tick_stops x t s armed p hit) (stop_sent x (watchdog x _ s) h),
    rw (tick_stops x t s armed p hit) (execute_market_exit_outcome x stop_loss (watchdog x _ s)),
    λ e. run_ticks_idle x later (check_runtime_barriers x t s) (exiting-idle _ e),
  )
