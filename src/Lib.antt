-- ===== src/Lib.antt =====
-- PMM_Simple: a market maker for perpetual futures in hedge mode, where a pair has a LONG and a SHORT slot
-- that are open at the same time. The development models the parts that decide about money: what is
-- quoted, how fills change the slots, and what stops the trading.
--
-- The parts and their files (paths from the root of the repository):
--   Models (app/models/config.py, app/models/state.py): `PairConfig`, `GlobalConfig`, `FillRecord`,
--     `SidePositionState`, with the fields that the other parts read, and the pydantic bounds.
--   Tracker (app/core/position_tracker.py): `PositionTracker` with its two slots and its memory of fill ids.
--     `on_fill` is `process_fill` behind the test for a duplicate; Tracker/Ids has the set and the deque,
--     Tracker/Sync `reconcile_with_exchange`.
--     Its proofs: Tracker/Fills, Tracker/Dedupe, Tracker/Cooldown, Tracker/Reconcile.
--   Quoter (app/core/quoter.py): `PmmQuoter` (`PMMQuoter`). Quoter/Pricing has the ticks, the spread floor and
--     `clamp_quote`, Quoter/Ladder the levels to quote and their notionals, Quoter the plan shared by the
--     two sides and the two loops. Its proofs: Quoter/Levels, Quoter/Throttle, Quoter/Gates,
--     Quoter/Pricing/Bounds.
--   CircuitBreaker (app/core/circuit_breaker.py), over Database (`get_pnl_summary` of
--     app/persistence/db.py). Its proofs: CircuitBreaker/Latch, CircuitBreaker/Safety, Database/Sums.
--   RateLimit (app/core/ratelimit.py): `TokenBucket` and `GlobalRateLimiter`. Its proofs: RateLimit/Bounds,
--     RateLimit/Waiting.
--   Vamm (app/core/vamm_calculator.py): `compute_dynamic_vamm`, whose result configures the quoter. Its
--     proofs: Vamm/Spreads, Vamm/Regime.
--   Executor (app/core/executor.py): `TripleBarrierExecutor`. Executor/State has `ExecutorBarrierState`, the
--     executor's attributes, and the interface `Outside` to the exchange, the database and the clock;
--     Executor/Ids the client order ids, Executor/Exits the exit orders, Executor/TakeProfit the ladder,
--     Executor/Fills `on_entry_fill` and `on_exit_fill`, Executor/Reconcile `reconcile_barrier`,
--     Executor/Runtime the price tick, over the conditions in Executor/Triggers. Its proofs: Executor/ExitLaws,
--     Executor/Ticks, Executor/Trailing, Executor/Ladder, Executor/Cycle, Executor/Restore. It shares the pair's
--     tracker and quoter.
--   MarketState (app/core/market_state.py): the book and the price windows; MarketState/Trend the trend and the
--     momentum; MarketState/Series has `calculate_ema` and `calculate_atr_from_candles`. Its proofs:
--     MarketState/Windows, MarketState/Sanity.
--   Worker (app/core/worker.py): ticks, fills and the isolated kill of a pair, over one tracker and two
--     executors that share it. Worker/State has its attributes, Worker/Risk the isolated kill and the dynamic
--     circuit breaker; `handle_fill` is `on_fill`, Worker/Routing its reading of the client order
--     id, Worker/Requote `_requote` and Worker/Quoting its exchange of the active quotes for the targets.
--     Its proofs: Worker/Kill, Worker/Coverage, and Worker/OwnIds for the ids that the executor writes.
--     Worker/Lifecycle has its start, stop and draining, Worker/Orders its order updates, Worker/Loop its main
--     loop; Worker/Start is about what starting leaves.
--   Manager (app/core/manager.py): `BotManager`. Manager/Pairs is the dict of workers, Manager the commands on a
--     pair, Manager/KillAll `emergency_kill_all`, Manager/Health the monitor, over `CircuitBreaker` and the
--     workers. The workers share one world. Its proofs: Manager/Commands, Manager/Health/Halt,
--     Manager/KillAll/Outcome, Manager/KillAll/Closing with Manager/KillAll/Holdings, Manager/KillAll/Blind.
--   Rebalancer (app/core/pair_rebalancer.py): `execute_rebalance_cycle` over the manager, with the screener's scan
--     as a parameter; Rebalancer/Ranking has the state of a cycle and its tests on ranks, Rebalancer/Parameters
--     has `compute_vamm_parameters` of app/core/screener.py and the configuration of a promoted pair. Its proofs:
--     Rebalancer/Slots on Rebalancer/Counting, Rebalancer/Portfolio.
--   Backtest (backtest/pmm_simulator.py): `PMMBacktestEngine`. Backtest/Types has its settings, candles and state,
--     Backtest/Exits the exits and `_close_position`, Backtest the entries and the run. Its proofs, in the exact
--     arithmetic of Float/Fixed: Backtest/Ledger on Backtest/Books.
--   Funding (app/core/fr_execution): Funding/Names has texts and `_canon`, Funding/Legs the models,
--     Funding/KillSwitch the three tiers, Funding/PairTracker the positions and the funding payments,
--     Funding/Reconcile the reconciliation and the summary, Funding/KillAll the emergency procedure (its
--     `emergency_kill_all` is `emergency_kill_exchanges`),
--     Funding/Gateway the interface to the exchanges, Funding/Orders, Funding/Engine, Funding/Sizes,
--     Funding/Policies and Funding/Dispatch the engine: `handle_open` is `_handle_open` and so on, and a `settle_`
--     function is the part of a handler after the exchanges' results. Proofs: Funding/Halt, Funding/Legging,
--     Funding/Closing, Funding/Canonical, Funding/Opening, Funding/Reconcile/Absent, Funding/KillAll/Latch,
--     Funding/KillAll/Exits, Funding/KillAll/Blind.
-- The tracker's slots are the quoter's `long_state` and `short_state`; the breaker reads the fills that
-- the database stores.
--
-- Numbers. A Python float is a value of a type F with an instance of `Float`, the operations, and the
-- proofs assume `FloatLaws`: the laws of correctly rounded arithmetic on finite numbers, where -0 and 0
-- are one number. Infinities and NaN are outside. `lit n k` is the literal n / 10^k. Float/Fixed is an
-- instance that computes, with nine decimals, and Float/FixedLaws proves the laws of it on Float/FixedOrder; the
-- tests run on it. Counts are natural numbers.
--
-- The funding-rate engine talks to exchanges through `MultiExchangeGateway W F`: each call reads and changes a
-- state `W` of the exchanges, of any type, so that the proofs hold whatever the exchanges answer. Two tasks
-- that run at once are one call with two results. An object that the code shares is read and written under
-- its key.
--
-- The executors and the worker reach the exchange, the database and the clock through `Outside W F`, in the
-- same way: `W` is the state of everything outside. In the other parts the clock is an argument `now` of each
-- operation that reads it, and an answer of the exchange or of the database is an argument. Locks are left out:
-- what runs under one is a step. Log messages are left out; a breaker's reason is the figures that its message
-- prints.
--
-- Bounds. The memory of fill ids holds 10000 (`max_ids`), as the deque does. `consume` is a loop without
-- a bound: it runs over a list of clock readings, and the result says whether the call has returned.
--
-- Not modelled: the exchange gateway (calls of a library), the manager's connection and shutdown, the
-- screener's statistics, the funding-rate gateway and manager, the metrics
-- and the loader of the backtest, the API and the pages.
pub mod Prelude
pub mod Float
pub mod Models
pub mod Tracker
pub mod RateLimit
pub mod Database
pub mod CircuitBreaker
pub mod Vamm
pub mod Quoter
pub mod Funding
pub mod Executor
pub mod MarketState
pub mod Worker
pub mod Manager
pub mod Rebalancer
pub mod Backtest
