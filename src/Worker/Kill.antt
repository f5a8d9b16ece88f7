-- ===== src/Worker/Kill.antt =====
-- The isolated kill of a pair (app/core/worker.py, `_check_isolated_risk_breach` and `_trigger_isolated_kill`).
use pmm_simple.Prelude.{◌≡◌, refl, ◌||◌, true, false, [], arith}
use pmm_simple.Float.{Float, ◌-◌, nought, le, max, abs}
use pmm_simple.Models.State.{long, short}
use pmm_simple.Executor.State.{Executor, ExecutorState}
use pmm_simple.Executor.Exits.{is_held}
use pmm_simple.Executor.ExitLaws.{IsCleared, cleanup_all_barrier_orders-IsCleared}
use pmm_simple.Worker.{may_quote, check_should_requote}
use pmm_simple.Worker.Risk.{
  current_pnl, stand_down, lock, close_positions, trigger_isolated_kill, check_isolated_risk_breach,
}
use pmm_simple.Worker.State.{
  Worker, WorkerState, ExecutorOwn, executor_of, with_long, with_short, cancel_active_quotes,
  is_locked, resume,
}

module _ {F : Type 0} where
  -- One executor manages nothing and has no orders.
  pub record IsStoodDown (e : ExecutorOwn F) : Type 0 where
    pub inactive : e.barrier.active ≡ false
    pub no_orders : e.barrier.tp_orders ≡ []
    pub no_passive : is_held e.barrier.passive_exit_order_id ≡ false
    pub no_stop : is_held e.barrier.sl_order_id ≡ false

module _ {W F : Type 0} where
  -- A killed worker, until `unlock`.
  pub record IsKilled (s : WorkerState W F) : Type 0 where
    pub locked : s.config.is_locked ≡ true
    pub disabled : s.config.enabled ≡ false
    pub killed : s.is_locked_killed ≡ true
    pub stopped : s.running ≡ false
    pub is_paused : s.paused ≡ true
    pub long_down : IsStoodDown s.executor_long
    pub short_down : IsStoodDown s.executor_short

module _ {W F : Type 0} ⦃f : Float F⦄ where
  stand_down-IsCleared : (x : Executor W F) (t : ExecutorState W F) → IsCleared (stand_down x t)
  unfolding stand_down
  stand_down-IsCleared x t = (cleanup_all_barrier_orders-IsCleared x t).0

  with_long-IsStoodDown :
      (x : Executor W F) (s : WorkerState W F)
      → IsStoodDown (with_long (stand_down x) s).executor_long
  unfolding with_long stand_down
  with_long-IsStoodDown x s =
      let cleared = stand_down-IsCleared x (record {
        world = s.world;
        barrier = s.executor_long.barrier;
        tracker = s.tracker;
        is_exiting = s.executor_long.is_exiting;
        trailing_cb_override = s.executor_long.trailing_cb_override;
      }) in
      record { inactive = refl; no_orders = cleared.0; no_passive = cleared.1; no_stop = cleared.2 }

  with_short-IsStoodDown :
      (x : Executor W F) (s : WorkerState W F)
      → IsStoodDown (with_short (stand_down x) s).executor_short
  unfolding with_short stand_down
  with_short-IsStoodDown x s =
      let cleared = stand_down-IsCleared x (record {
        world = s.world;
        barrier = s.executor_short.barrier;
        tracker = s.tracker;
        is_exiting = s.executor_short.is_exiting;
        trailing_cb_override = s.executor_short.trailing_cb_override;
      }) in
      record { inactive = refl; no_orders = cleared.0; no_passive = cleared.1; no_stop = cleared.2 }

  trigger_isolated_kill-IsKilled :
      (x : Worker W F) (s : WorkerState W F) → IsKilled (trigger_isolated_kill x s)
  unfolding trigger_isolated_kill close_positions with_short with_long cancel_active_quotes lock
  trigger_isolated_kill-IsKilled x s =
      let quiet = cancel_active_quotes x (lock x s) in
      let down = with_long (stand_down (executor_of x s.executor_config long)) quiet in
      record {
        locked = refl;
        disabled = refl;
        killed = refl;
        stopped = refl;
        is_paused = refl;
        long_down = with_long-IsStoodDown (executor_of x s.executor_config long) quiet;
        short_down = with_short-IsStoodDown (executor_of x s.executor_config short) down;
      }

  killed-is_locked : (s : WorkerState W F) → IsKilled s → is_locked s ≡ true
  killed-is_locked s k = rw k.locked refl

  may_not_quote : (x : Worker W F) (s : WorkerState W F) → IsKilled s → may_quote x s ≡ false
  unfolding may_quote
  may_not_quote x s k = ground (arith, k.stopped)

  no_quote : (x : Worker W F) (s : WorkerState W F) → IsKilled s → check_should_requote x s ≡ false
  unfolding check_should_requote
  no_quote x s k = rw (may_not_quote x s k) refl

  killed-quiet :
      (x : Worker W F) (s : WorkerState W F)
      → IsKilled s
      → (check_should_requote x s ≡ false) × (resume s ≡ s) × (check_isolated_risk_breach x s ≡ s)
  unfolding resume check_isolated_risk_breach
  killed-quiet x s k =
      (no_quote x s k, rw (killed-is_locked s k) refl, rw (killed-is_locked s k) refl)

  breach_kills :
      (x : Worker W F) (s : WorkerState W F)
      → is_locked s ≡ false
      → (le (current_pnl s) (nought - abs s.config.worker_max_loss_usdt)
          || le
              (abs s.config.worker_max_drawdown_usdt)
              (max s.peak_pnl (current_pnl s) - current_pnl s))
        ≡ true
      → check_isolated_risk_breach x s
        ≡ trigger_isolated_kill x (record s { peak_pnl = max s.peak_pnl (current_pnl s) })
  unfolding check_isolated_risk_breach current_pnl
  breach_kills x s free breach = rw free (rw breach refl)

  -- A worker that is not locked is killed by a check at which its result is at or below the loss limit, or
  -- at which it has fallen from its peak by the drawdown limit: both executors are off and hold no order, the
  -- pair is locked, disabled and stopped. From then on it wants no quotes, does not resume, and is not killed twice.
  pub check_isolated_risk_breach-IsKilled :
      (x : Worker W F) (s : WorkerState W F)
      → is_locked s ≡ false
      → (le (current_pnl s) (nought - abs s.config.worker_max_loss_usdt)
          || le
              (abs s.config.worker_max_drawdown_usdt)
              (max s.peak_pnl (current_pnl s) - current_pnl s))
        ≡ true
      → let s' = check_isolated_risk_breach x s in
        IsKilled s'
        × (check_should_requote x s' ≡ false)
        × (resume s' ≡ s')
        × (check_isolated_risk_breach x s' ≡ s')
  check_isolated_risk_breach-IsKilled x s free breach =
      let peaked : WorkerState W F = record s { peak_pnl = max s.peak_pnl (current_pnl s) } in
      let killed = trigger_isolated_kill-IsKilled x peaked in
      let (no_quote, no_resume, no_second) =
        killed-quiet x (trigger_isolated_kill x peaked) killed in
      rw (breach_kills x s free breach) (killed, no_quote, no_resume, no_second)
