-- ===== src/Worker/State.antt =====
-- The state of one pair's worker (app/core/worker.py): its attributes, the steps of one executor over the shared
-- tracker and world, and its active quotes. The two executors share the tracker and the world.
use pmm_simple.Prelude.{◌&&◌, ◌||◌, Bool, true, false, Option, List, [], ◌∷◌, String, if◌then◌else◌}
use pmm_simple.Float.{Float, ◌-◌, ◌/◌, nought, le, lt, abs}
use pmm_simple.Models.Config.{PairConfig}
use pmm_simple.Models.State.{PositionSide, FillRecord, is_buy}
use pmm_simple.Tracker.{PositionTracker}
use pmm_simple.Quoter.Pricing.{PmmQuoter}
use pmm_simple.Executor.State.{BarrierState, Outside, Executor, ExecutorState}
use pmm_simple.MarketState.{MarketState}
use pmm_simple.Worker.Quoting.{ActiveQuote, QuoteGateway}

-- What belongs to one executor alone.
pub record ExecutorOwn (F : Type 0) : Type 0 where
  pub barrier : BarrierState F
  pub is_exiting : Bool
  pub trailing_cb_override : Option F

-- What a worker does not change: the quoter, the outside of the executors, and its own calls. A background task
-- that requotes is a request.
pub record Worker (W F : Type 0) : Type 0 where
  pub symbol : String
  pub quoter : PmmQuoter F
  pub outside : Outside W F
  pub save_fill : FillRecord F → W → W
  pub save_pair_config : PairConfig F → W → W
  pub request_requote : W → W
  pub is_auth_healthy : W → Bool
  pub quotes : QuoteGateway W F
  -- `fetch_free_balance("USDT")`, 0 where it fails.
  pub fetch_free_balance : W → W × F
  -- `math.sqrt`
  pub sqrt : F → F

-- The executors keep the configuration that they were made with; a later one replaces the worker's alone.
pub record WorkerState (W F : Type 0) : Type 0 where
  pub config : PairConfig F
  pub executor_config : PairConfig F
  pub world : W
  pub market : MarketState F
  pub tracker : PositionTracker F
  pub executor_long : ExecutorOwn F
  pub executor_short : ExecutorOwn F
  pub session_realized_pnl : F
  pub peak_pnl : F
  pub is_locked_killed : Bool
  pub running : Bool
  pub paused : Bool
  pub is_draining : Bool
  pub active_quotes : List (ActiveQuote F)
  pub last_quote_time : F
  pub last_quote_mid : F

module _ {F : Type 0} where
  abbrev pub has_quotes : List (ActiveQuote F) → Bool
  has_quotes [] = false
  has_quotes (o ∷ os) = true

module _ {F : Type 0} ⦃f : Float F⦄ where
  -- A quote that the best price on the other side has reached.
  unfoldable pub is_crossing : F → F → List (ActiveQuote F) → Bool
  is_crossing bid ask [] = false
  is_crossing bid ask (o ∷ os) =
      (if is_buy o.side then lt nought ask && le ask o.price else lt nought bid && le o.price bid)
      || is_crossing bid ask os

  unfoldable pub is_hanging : F → F → List (ActiveQuote F) → Bool
  is_hanging limit mid [] = false
  is_hanging limit mid (o ∷ os) =
      (lt nought o.price && le limit (abs (o.price - mid) / mid)) || is_hanging limit mid os

module _ {W F : Type 0} where
  unfoldable pub executor_of : Worker W F → PairConfig F → PositionSide → Executor W F
  executor_of x c side = record {
    config = c;
    position_side = side;
    quoter = x.quoter;
    outside = x.outside;
  }

  -- What an executor sees of the worker.
  abbrev pub long_part : WorkerState W F → ExecutorState W F
  long_part s = record {
    world = s.world;
    barrier = s.executor_long.barrier;
    tracker = s.tracker;
    is_exiting = s.executor_long.is_exiting;
    trailing_cb_override = s.executor_long.trailing_cb_override;
  }

  abbrev pub short_part : WorkerState W F → ExecutorState W F
  short_part s = record {
    world = s.world;
    barrier = s.executor_short.barrier;
    tracker = s.tracker;
    is_exiting = s.executor_short.is_exiting;
    trailing_cb_override = s.executor_short.trailing_cb_override;
  }

  -- A step of one executor, over the worker's world and tracker.
  unfoldable pub with_long :
      (ExecutorState W F → ExecutorState W F) → WorkerState W F → WorkerState W F
  with_long step s =
      let t = step (long_part s) in
      record s {
        world = t.world;
        tracker = t.tracker;
        executor_long = record {
          barrier = t.barrier;
          is_exiting = t.is_exiting;
          trailing_cb_override = t.trailing_cb_override;
        };
      }

  unfoldable pub with_short :
      (ExecutorState W F → ExecutorState W F) → WorkerState W F → WorkerState W F
  with_short step s =
      let t = step (short_part s) in
      record s {
        world = t.world;
        tracker = t.tracker;
        executor_short = record {
          barrier = t.barrier;
          is_exiting = t.is_exiting;
          trailing_cb_override = t.trailing_cb_override;
        };
      }

  -- `_cancel_active_quotes`: an order whose cancellation fails is kept.
  unfoldable pub cancel_quotes : Worker W F → List (ActiveQuote F) → W → W × List (ActiveQuote F)
  cancel_quotes x [] w = (w, [])
  cancel_quotes x (o ∷ os) w =
      let (w', done) = x.outside.cancel_order x.symbol o.id w in
      let (w'', kept) = cancel_quotes x os w' in (w'', if done then kept else o ∷ kept)

  unfoldable pub cancel_active_quotes : Worker W F → WorkerState W F → WorkerState W F
  unfolding cancel_quotes
  cancel_active_quotes x s =
      let (w, kept) = cancel_quotes x s.active_quotes s.world in
      record s { world = w; active_quotes = kept }

  -- `pause` and `resume`: a locked worker does not resume.
  unfoldable pub pause : WorkerState W F → WorkerState W F
  pause s = record s { paused = true }

  abbrev pub is_locked : WorkerState W F → Bool
  is_locked s = s.config.is_locked || s.is_locked_killed

  unfoldable pub resume : WorkerState W F → WorkerState W F
  resume s = if is_locked s then s else record s { paused = false }
