-- ===== src/Funding/Tests.antt =====
-- Runs of the funding-rate engine against a gateway that counts its orders, and its theorems at sample inputs.
use pmm_simple.Prelude.{String, ℕ, suc, ◌≡◌, refl, Bool, true, false, none, some, [], ◌∷◌, codes}
use pmm_simple.Prelude.Int.{◌+ℤ◌, ◌-ℤ◌}
use pmm_simple.Float.Fixed.{Fixed, fixed_float, lit, mul, div, round}
use pmm_simple.Float.FixedLaws.{fixed_laws}
use pmm_simple.Models.State.{long}
use pmm_simple.Models.Samples.{units}
use pmm_simple.Funding.Names.{canon, tidy}
use pmm_simple.Funding.Legs.{
  recalculate, DualLegPosition, FrAction, act_open, act_exit, act_pause, act_reduce, FrPolicy,
  FrRiskConfig,
}
use pmm_simple.Funding.KillSwitch.{
  global_active, new_kill_switch, is_exchange_tripped, is_execution_allowed,
}
use pmm_simple.Funding.Gateway.{MultiExchangeGateway, OrderInfo, ExchangePosition}
use pmm_simple.Funding.PairTracker.{FrPositionTracker, new_position, get_position}
use pmm_simple.Funding.Reconcile.{reconcile_with_exchange_positions, recalculate_all}
use pmm_simple.Funding.Reconcile.Absent.{reconcile_keeps_absent}
use pmm_simple.Funding.KillAll.{
  exit_symbol, close_results, close_error, fetch_listed, close_out_exchange,
  emergency_kill_exchanges, binance_exit_side,
}
use pmm_simple.Funding.KillAll.Latch.{emergency_kill_exchanges_latch}
use pmm_simple.Funding.KillAll.Exits.{Closes, exits_of, close_out_exchange-Closes}
use pmm_simple.Funding.KillAll.Blind.{asked, cancelled, emergency_kill_exchanges_blind}
use pmm_simple.Funding.Engine.{
  EngineState, blocked, success, exit_completed, legging_rollback, trip, one_leg_open,
  actual_leg_size,
}
use pmm_simple.Funding.Policies.{handle_reduce}
use pmm_simple.Funding.Dispatch.{execute_policy, dispatch, register}
use pmm_simple.Funding.Halt.{run_policies, execute_policy_pauses, execute_policy_ignores_exchange}
use pmm_simple.Funding.Opening.{IsHedged, settle_open-IsHedged}
use pmm_simple.Funding.Policies.{settle_open}
use pmm_simple.Float.FixedLaws.{fixed_laws}
use pmm_simple.Funding.Legging.{OneLegOutcome, one_leg_open-OneLegOutcome}
use pmm_simple.Funding.Closing.{ReduceOutcome, handle_reduce-ReduceOutcome}

abbrev filled_order : OrderInfo Fixed
filled_order = record { filled = none; amount = none }

-- A gateway that fills every order, but the SHORT order of a pair only if `both`.
abbrev gateway : Bool → MultiExchangeGateway ℕ Fixed
gateway both = record {
  get_free_margin = λ e w. (w, units 1000);
  fetch_ticker_price = λ e s w. (w, units 100);
  amount_to_precision = λ e s x. x;
  fetch_positions = λ e s w. (w, some []);
  create_hedge_order = λ o w. (suc w, some filled_order);
  create_together = λ a b w.
      (suc (suc w), some filled_order, elim both [ true ↦ some filled_order | false ↦ none ]);
  cancel_all_orders = λ e s w. (w, true);
  fetch_all_positions = λ e w. (w, none);
  cancel_everything = λ e w. (w, true);
}

abbrev risk : FrRiskConfig Fixed
risk = record { max_loss_usd = units 50 }

abbrev policy : FrAction → FrPolicy Fixed
policy action = record {
  symbol = codes "solusdt ";
  exchange_long = codes "binance";
  exchange_short = codes "bybit";
  action = action;
  target_notional_usdt = units 200;
  reduce_to_notional_usdt = none;
  max_leverage = 5;
}

abbrev idle : EngineState ℕ Fixed
idle = record {
  world = 0;
  tracker = record {
    positions = [];
    realized_funding_pnl = units 0;
    last_reconciled_at = units 0;
    processed_funding_ids = [];
  };
  kill_switch = new_kill_switch;
}

canon_run :
    (canon (codes "solusdt ") ≡ codes "SOL/USDT:USDT")
    × (canon (codes "SOL/USDT:USDT") ≡ codes "SOL/USDT:USDT")
unfolding canon
canon_run = (refl, refl)

-- Two orders open the pair, two more close it; a failed SHORT order is answered by a rollback.
engine_run :
    let opened_state = (execute_policy (gateway true) risk (units 9) (policy act_open) idle).0 in
    ((execute_policy (gateway true) risk (units 9) (policy act_open) idle).1 ≡ success (units 2))
    × ((execute_policy (gateway true) risk (units 9) (policy act_exit) opened_state).1
        ≡ exit_completed)
    × ((execute_policy (gateway true) risk (units 9) (policy act_exit) opened_state).0.world ≡ 4)
    × ((execute_policy (gateway false) risk (units 9) (policy act_open) idle).1
        ≡ legging_rollback true (units 2))
unfolding execute_policy lit mul div round ◌+ℤ◌ ◌-ℤ◌
engine_run = (refl, refl, refl, refl)

execute_policy_pauses_example :
    let s' = (execute_policy (gateway true) risk (units 9) (policy act_pause) idle).0 in
    run_policies
      (gateway true)
      risk
      ((units 10, policy act_open) ∷ (units 11, policy act_exit) ∷ [])
      s'
    ≡ s'
unfolding tidy is_execution_allowed
execute_policy_pauses_example =
    execute_policy_pauses (gateway true) risk (units 9) (policy act_pause)
      ((units 10, policy act_open) ∷ (units 11, policy act_exit) ∷ []) idle refl refl refl
      (refl, (refl, tt))

execute_policy_ignores_exchange_example :
    (is_exchange_tripped (codes "binance") (trip (codes "binance") idle).kill_switch ≡ true)
    × (execute_policy (gateway true) risk (units 9) (policy act_open) (trip (codes "binance") idle)
        ≡ dispatch
            (gateway true)
            risk
            (units 9)
            (policy act_open)
            (register (units 9) (policy act_open) (trip (codes "binance") idle)))
unfolding tidy is_execution_allowed
execute_policy_ignores_exchange_example =
    execute_policy_ignores_exchange (gateway true) risk (units 9) (policy act_open)
      (codes "binance") idle refl

one_leg_open-OneLegOutcome_example :
    let m =
      actual_leg_size (gateway false) (codes "binance") (tidy (policy act_open).symbol) long idle in
    OneLegOutcome
      (gateway false)
      (units 9)
      (policy act_open)
      (codes "binance")
      long
      (units 2)
      filled_order
      m.1
      m.0
      (one_leg_open
        (gateway false)
        (units 9)
        (policy act_open)
        (codes "binance")
        long
        (units 2)
        filled_order
        idle)
one_leg_open-OneLegOutcome_example =
    one_leg_open-OneLegOutcome (gateway false) (units 9) (policy act_open) (codes "binance") long
      (units 2) filled_order idle

abbrev opened_state : EngineState ℕ Fixed
opened_state = (execute_policy (gateway true) risk (units 9) (policy act_open) idle).0

handle_reduce-ReduceOutcome_example :
    ReduceOutcome
      (gateway true)
      (units 9)
      (policy act_reduce)
      opened_state
      (handle_reduce (gateway true) (units 9) (policy act_reduce) opened_state)
handle_reduce-ReduceOutcome_example =
    handle_reduce-ReduceOutcome (gateway true) (units 9) (policy act_reduce) opened_state

settle_open-IsHedged_example :
    IsHedged
      (units 9)
      (policy act_open)
      (units 2)
      (settle_open
        (gateway true)
        (units 9)
        (policy act_open)
        (units 2)
        (units 100)
        (units 100)
        (units 100)
        (some filled_order)
        (some filled_order)
        idle).0
unfolding lit
settle_open-IsHedged_example =
    settle_open-IsHedged (gateway true) (units 9) (policy act_open) (units 2) (units 100)
      (units 100) (units 100) filled_order filled_order idle refl

-- A listed position of 2, and a gateway that lists it in LONG and in one-way mode.
abbrev listed : String → String → ExchangePosition Fixed
listed symbol side = record {
  symbol = codes symbol;
  side = some (codes side);
  position_idx = 0;
  contracts = units 2;
  entry_price = units 100;
  mark_price = units 100;
  unrealized_pnl = units 0;
  leverage = 5;
}

abbrev two_listed : MultiExchangeGateway ℕ Fixed
two_listed = record (gateway true) {
  fetch_all_positions =
      λ e w. (w, some (listed "ETH/USDT:USDT" "long" ∷ listed "SOL/USDT:USDT" "both" ∷ []));
}

-- The first is closed by one order, and the one-way position ends the phase.
kill_run :
    (exit_symbol (codes "ETH/USDT:USDT") ≡ codes "ETHUSDT")
    × (close_out_exchange two_listed (codes "binance") binance_exit_side 0 ≡ (1, close_error))
    × ((emergency_kill_exchanges two_listed (units 9) idle).1.is_completed ≡ false)
    × ((emergency_kill_exchanges two_listed (units 9) idle).0.world ≡ 3)
unfolding exit_symbol close_out_exchange emergency_kill_exchanges ◌+ℤ◌ ◌-ℤ◌ lit
kill_run = (refl, refl, refl, refl)

abbrev sol_tracker : FrPositionTracker Fixed
sol_tracker = record (idle.tracker) {
  positions =
      (
        codes "SOL/USDT:USDT",
        new_position (units 9) (codes "SOL/USDT:USDT") (codes "binance") (codes "bybit"),
      )
      ∷ [];
}

abbrev sol : DualLegPosition Fixed
sol = new_position (units 9) (codes "SOL/USDT:USDT") (codes "binance") (codes "bybit")

reconcile_keeps_absent_example :
    (get_position (codes "solusdt") (
        reconcile_with_exchange_positions
          (units 10)
          (listed "ETH/USDT:USDT" "long" ∷ [])
          []
          sol_tracker)
      ≡ some (recalculate (units 10) sol))
    × ((recalculate (units 10) sol).long_leg ≡ sol.long_leg)
    × ((recalculate (units 10) sol).short_leg ≡ sol.short_leg)
    × ((recalculate (units 10) sol).status ≡ sol.status)
unfolding get_position canon
reconcile_keeps_absent_example =
    reconcile_keeps_absent (units 10) (listed "ETH/USDT:USDT" "long" ∷ []) [] (codes "solusdt")
      sol_tracker sol refl (refl, tt) tt

emergency_kill_exchanges_latch_example :
    let s' = (emergency_kill_exchanges two_listed (units 9) opened_state).0 in
    (run_policies
        (gateway true)
        risk
        ((units 10, policy act_open) ∷ (units 11, policy act_exit) ∷ [])
        s'
      ≡ s')
    × ((later : Fixed) (p : FrPolicy Fixed)
        → execute_policy (gateway true) risk later p s' ≡ (s', blocked global_active))
emergency_kill_exchanges_latch_example =
    emergency_kill_exchanges_latch two_listed (gateway true) risk (units 9)
      ((units 10, policy act_open) ∷ (units 11, policy act_exit) ∷ []) opened_state

close_out_exchange-Closes_example :
    let (w, raws) = fetch_listed two_listed (codes "binance") 0 in
    Closes two_listed
      (codes "binance")
      binance_exit_side
      (exits_of raws)
      w
      (close_out_exchange two_listed (codes "binance") binance_exit_side 0)
close_out_exchange-Closes_example =
    close_out_exchange-Closes two_listed (codes "binance") binance_exit_side 0

emergency_kill_exchanges_blind_example :
    let g = gateway true in
    let r = emergency_kill_exchanges g (units 9) opened_state in
    let fetched = λ (w : ℕ). asked g (codes "bybit") (asked g (codes "binance") w) in
    (r.1.is_completed ≡ true)
    × (r.1.is_flat ≡ true)
    × (r.1.binance_remaining_positions ≡ 0)
    × (r.1.bybit_remaining_positions ≡ 0)
    × (r.1.close_binance_positions ≡ close_results [])
    × (r.1.close_bybit_positions ≡ close_results [])
    × (r.0.tracker.positions ≡ recalculate_all (units 9) opened_state.tracker.positions)
    × (r.0.world
        ≡ fetched (
            fetched
              (cancelled g (codes "bybit") (cancelled g (codes "binance") opened_state.world))))
emergency_kill_exchanges_blind_example =
    emergency_kill_exchanges_blind (gateway true) (λ e w. refl) (units 9) opened_state
