-- ===== src/Manager.antt =====
-- app/core/manager.py: the workers of all pairs behind one gateway and one circuit breaker, and the commands on a
-- pair. The workers share one world: a step of a worker starts from it and leaves it to the next.
pub mod Pairs
pub mod KillAll
pub mod Health
pub mod Commands
pub mod Samples
mod Tests
use pmm_simple.Prelude.{
  ℕ, ◌+◌, ◌&&◌, Bool, true, false, not, Option, none, some, List, [], ◌∷◌, String, if◌then◌else◌,
}
use pmm_simple.Float.{Float, nought, lit, max}
use pmm_simple.Models.Config.{PairConfig}
use pmm_simple.Models.State.{PositionSide, SidePositionState}
use pmm_simple.Tracker.{get_state, put_state}
use pmm_simple.Quoter.Pricing.{new_quoter}
use pmm_simple.CircuitBreaker.{CircuitBreaker}
use pmm_simple.Worker.Risk.{unlock}
use pmm_simple.Worker.State.{Worker, WorkerState, pause, resume}
use pmm_simple.Worker.Lifecycle.{Startup, new_worker_state, is_flat, set_drain_mode, start, stop}
use pmm_simple.Manager.Pairs.{Pair, find_pair, put_pair, drop_pair, with_pair, each}

-- The gateway and the store of configurations, as the manager uses them. `is_connected` says that there is a
-- gateway and that it is connected.
pub record Venue (W F : Type 0) : Type 0 where
  pub is_connected : W → Bool
  pub time : W → F
  -- The parts of a new worker that stand on the gateway and the database.
  pub parts : PairConfig F → Worker W F
  pub startup : Startup W F
  -- The digits of prices and amounts, the tick and the step.
  pub get_market_precision : String → (ℕ × ℕ × F × F)
  -- The least amount and notional, where the gateway knows them.
  pub get_market_limits : String → Option (F × F)
  pub save_pair_config : PairConfig F → W → W
  pub load_pair_config : String → W → Option (PairConfig F)
  pub delete_pair_config : String → W → W × Bool

pub record Manager (W F : Type 0) : Type 0 where
  pub world : W
  pub workers : List (Pair W F)
  pub breaker : CircuitBreaker F

module _ {F : Type 0} ⦃f : Float F⦄ where
  abbrev pub positioned : F → F → F → F → SidePositionState F → SidePositionState F
  positioned now amount entry upnl p = record p {
    amount = amount;
    entry_price = entry;
    unrealized_pnl = upnl;
    last_fill_time = max p.last_fill_time now;
  }

module _ {W F : Type 0} where
  -- A step of each worker, in the order of the dict.
  unfoldable pub for_each :
      (Worker W F → WorkerState W F → WorkerState W F) → Manager W F → Manager W F
  unfolding each
  for_each step m =
      let (w, ps) = each step m.workers m.world in record m { world = w; workers = ps }

  unfoldable pub for_pair :
      String → (Worker W F → WorkerState W F → WorkerState W F) → Manager W F → Manager W F
  unfolding with_pair
  for_pair symbol step m =
      let (w, ps) = with_pair symbol step m.workers m.world in record m { world = w; workers = ps }

  abbrev pub is_known : Option (Pair W F) → Bool
  is_known none = false
  is_known (some p) = true

  -- A command on the pair, which answers whether there is one.
  unfoldable pub command :
      String → (Worker W F → WorkerState W F → WorkerState W F) → Manager W F → Manager W F × Bool
  unfolding for_pair find_pair
  command symbol step m = (for_pair symbol step m, is_known (find_pair symbol m.workers))

  unfoldable pub set_enabled : Venue W F → Bool → WorkerState W F → WorkerState W F
  set_enabled v flag s =
      let c = record (s.config) { enabled = flag } in
      record s { config = c; world = v.save_pair_config c s.world }

  unfoldable pub pause_pair : String → Manager W F → Manager W F × Bool
  unfolding command pause
  pause_pair symbol = command symbol (λ x s. pause s)

  unfoldable pub resume_pair : String → Manager W F → Manager W F × Bool
  unfolding command resume
  resume_pair symbol = command symbol (λ x s. resume s)

  abbrev pub is_active : Pair W F → Bool
  is_active p = p.state.running && (not p.state.paused && not p.state.is_draining)

  unfoldable pub count_active : List (Pair W F) → ℕ
  count_active [] = 0
  count_active (p ∷ ps) = (if is_active p then 1 else 0) + count_active ps

  unfoldable pub get_active_worker_count : Manager W F → ℕ
  unfolding count_active
  get_active_worker_count m = count_active m.workers

module _ {W F : Type 0} ⦃f : Float F⦄ where
  -- `PMMWorker(config, gateway)`
  unfoldable pub new_worker : Venue W F → PairConfig F → Worker W F
  unfolding new_quoter
  new_worker v c =
      let (price_digits, amount_digits, tick, step) = v.get_market_precision c.symbol in
      let quoter_with = λ (limits : F × F).
        new_quoter c price_digits amount_digits tick step (lit 2 4) limits.0 limits.1 in
      record (v.parts c) {
        symbol = c.symbol;
        quoter = elim (v.get_market_limits c.symbol) [
          | none ↦ quoter_with (nought, lit 50 1)
          | some limits ↦ quoter_with limits
        ];
      }

  abbrev pub new_pair : Venue W F → String → PairConfig F → W → Pair W F
  new_pair v symbol c w = record {
    key = symbol;
    worker = new_worker v c;
    state = new_worker_state c w;
  }

  -- `_handle_position_update`
  unfoldable pub handle_position_update :
      Venue W F → String → PositionSide → F → F → F → Manager W F → Manager W F
  unfolding for_pair
  handle_position_update v symbol side amount entry upnl = for_pair symbol λ x s. record s {
    tracker =
        put_state s.tracker side
          (positioned (v.time s.world) amount entry upnl (get_state s.tracker side));
  }

  -- `worker.config.enabled = True`, saved, and the worker started.
  unfoldable pub enable_and_start : Venue W F → Worker W F → WorkerState W F → WorkerState W F
  unfolding set_enabled start
  enable_and_start v x s = start x v.startup (set_enabled v true s)

  unfoldable pub load_worker :
      Venue W F → String → Option (PairConfig F) → Manager W F → Manager W F × Bool
  load_worker v symbol none m = (m, false)
  load_worker v symbol (some c) m =
      (record m { workers = put_pair (new_pair v symbol c m.world) m.workers }, true)

  -- A pair with no worker gets one, where its configuration is known.
  unfoldable pub ensure_worker :
      Venue W F → String → Option (Pair W F) → Manager W F → Manager W F × Bool
  unfolding load_worker
  ensure_worker v symbol (some p) m = (m, true)
  ensure_worker v symbol none m = load_worker v symbol (v.load_pair_config symbol m.world) m

  unfoldable pub start_pair : Venue W F → String → Manager W F → Manager W F × Bool
  unfolding find_pair ensure_worker for_pair enable_and_start
  start_pair v symbol m =
      let (m', known) = ensure_worker v symbol (find_pair symbol m.workers) m in
      if m.breaker.tripped
      then (m, false)
      else if not (v.is_connected m.world)
      then (m, false)
      else if known
      then (for_pair symbol (enable_and_start v) m', true)
      else (m, false)

  -- The worker of the pair with the new configuration, in place: its parts keep the old one.
  unfoldable pub adopt : Venue W F → PairConfig F → Option (Pair W F) → Manager W F → Manager W F
  unfolding put_pair for_pair set_drain_mode
  adopt v c none m = record m { workers = put_pair (new_pair v c.symbol c m.world) m.workers }
  adopt v c (some p) m =
      for_pair c.symbol (λ x s. set_drain_mode v.startup false (record s { config = c })) m

  unfoldable pub register_dynamic_pair : Venue W F → PairConfig F → Manager W F → Manager W F × Bool
  unfolding find_pair adopt for_pair start
  register_dynamic_pair v c m =
      let saved = record m { world = v.save_pair_config c m.world } in
      let adopted = adopt v c (find_pair c.symbol saved.workers) saved in
      if not (v.is_connected saved.world)
      then (saved, false)
      else if c.enabled
      then (for_pair c.symbol (λ x. start x v.startup) adopted, true)
      else (adopted, true)

  unfoldable pub disable_and_stop : Venue W F → Worker W F → WorkerState W F → WorkerState W F
  unfolding set_enabled stop
  disable_and_stop v x s = stop x v.startup (set_enabled v false s)

  unfoldable pub stop_pair : Venue W F → String → Manager W F → Manager W F × Bool
  unfolding command disable_and_stop
  stop_pair v symbol = command symbol (disable_and_stop v)

  unfoldable pub drain : Venue W F → Worker W F → WorkerState W F → WorkerState W F
  unfolding set_drain_mode is_flat disable_and_stop
  drain v x s =
      let draining = set_drain_mode v.startup true s in
      if is_flat draining then disable_and_stop v x draining else draining

  unfoldable pub drain_and_retire_pair : Venue W F → String → Manager W F → Manager W F
  unfolding for_pair drain
  drain_and_retire_pair v symbol = for_pair symbol (drain v)

  unfoldable pub delete_pair : Venue W F → String → Manager W F → Manager W F × Bool
  unfolding for_pair drop_pair stop
  delete_pair v symbol m =
      let stopped = for_pair symbol (λ x. stop x v.startup) m in
      let (w, deleted) = v.delete_pair_config symbol stopped.world in
      (record m { world = w; workers = drop_pair symbol stopped.workers }, deleted)

  unfoldable pub revive : Venue W F → Worker W F → WorkerState W F → WorkerState W F
  unfolding unlock enable_and_start
  revive v x s = enable_and_start v x (unlock x s)

  unfoldable pub unlock_pair : Venue W F → String → Manager W F → Manager W F × Bool
  unfolding command revive
  unlock_pair v symbol = command symbol (revive v)

  unfoldable pub start_enabled : Venue W F → Worker W F → WorkerState W F → WorkerState W F
  unfolding start
  start_enabled v x s = if s.config.enabled then start x v.startup s else s

  unfoldable pub start_all : Venue W F → Manager W F → Manager W F
  unfolding for_each start_enabled
  start_all v m = if m.breaker.tripped then m else for_each (start_enabled v) m

  unfoldable pub stop_all : Venue W F → Manager W F → Manager W F
  unfolding for_each stop
  stop_all v = for_each (λ x. stop x v.startup)
