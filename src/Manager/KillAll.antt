-- ===== src/Manager/KillAll.antt =====
-- The emergency kill of all pairs (app/core/manager.py, `emergency_kill_all`): its six phases and its report.
pub mod Outcome
pub mod Holdings
pub mod Closing
pub mod Blind
use pmm_simple.Prelude.{
  ℕ, ◌+◌, ◌==◌, ◌||◌, ◌++◌, Bool, true, false, Option, none, some, List, [], ◌∷◌, String, codes,
  length, if◌then◌else◌,
}
use pmm_simple.Float.{Float, lit, lt}
use pmm_simple.Models.State.{PositionSide, long, short, SidePositionState, is_long}
use pmm_simple.Executor.Ids.{Text}
use pmm_simple.Executor.State.{ExitOrder, OrderAnswer, OrderType, OrderPurpose, exit_side}
use pmm_simple.Manager.Pairs.{keys, each}
use pmm_simple.Manager.{Venue, Manager, stop_all}

-- The calls of the gateway that the procedure makes. `fetch_positions_hedge` answers `none` where it fails.
pub record KillGateway (W F : Type 0) : Type 0 where
  pub cancel_all_symbol_orders : String → W → W
  pub fetch_positions_hedge :
      String → W → W × (Option (SidePositionState F) × Option (SidePositionState F))
  pub create_exit_order : ExitOrder F → W → W × Option (OrderAnswer F)
  pub sleep_half : W → W
  -- `int(time.time()*1000)`, in decimal
  pub millis : W → Text

pub record OpenPosition (F : Type 0) : Type 0 where
  pub symbol : String
  pub side : PositionSide
  pub amount : F

pub record PlacedExit (F : Type 0) : Type 0 where
  pub position : OpenPosition F
  pub success : Bool

pub data KillStatus : Type 0 where
  completed partial_warning error_no_gateway : KillStatus

pub record KillReport (F : Type 0) : Type 0 where
  pub stopped_workers : ℕ
  pub cancelled_orders : ℕ
  pub positions_found : List (OpenPosition F)
  pub market_exits_placed : List (PlacedExit F)
  pub unclosed_count : ℕ
  pub status : KillStatus

abbrev pub kill_prefix : PositionSide → Text
kill_prefix side = if is_long side then codes "kill_long_" else codes "kill_short_"

abbrev pub status_of : ℕ → KillStatus
status_of unclosed = if unclosed == 0 then completed else partial_warning

module _ {F : Type 0} ⦃f : Float F⦄ where
  -- `p and p.amount > 1e-6`
  unfoldable pub is_open_slot : Option (SidePositionState F) → Bool
  is_open_slot none = false
  is_open_slot (some p) = lt (lit 1 6) p.amount

  unfoldable pub open_slot :
      String → PositionSide → Option (SidePositionState F) → List (OpenPosition F)
  open_slot symbol side none = []
  open_slot symbol side (some p) =
      if lt (lit 1 6) p.amount
      then record { symbol = symbol; side = side; amount = p.amount } ∷ []
      else []

module _ {F : Type 0} where
  abbrev pub market_exit : Text → OpenPosition F → ExitOrder F
  market_exit client_id p = record {
    symbol = p.symbol;
    side = exit_side p.side;
    position_side = p.side;
    order_type = OrderType.market;
    amount = p.amount;
    price = none;
    client_order_id = client_id;
    purpose = OrderPurpose.kill_all_exit;
  }

  abbrev pub is_accepted : Option (OrderAnswer F) → Bool
  is_accepted none = false
  is_accepted (some r) = true

  -- The report where there is no gateway: only the workers are stopped.
  abbrev pub stopped_only : ℕ → KillReport F
  stopped_only count = record {
    stopped_workers = count;
    cancelled_orders = 0;
    positions_found = [];
    market_exits_placed = [];
    unclosed_count = 0;
    status = error_no_gateway;
  }

module _ {W F : Type 0} where
  -- Phase 2.
  unfoldable pub cancel_all : KillGateway W F → List String → W → W
  cancel_all g [] w = w
  cancel_all g (symbol ∷ rest) w = cancel_all g rest (g.cancel_all_symbol_orders symbol w)

  -- Phase 4: an exit for each position, its client id from the clock.
  unfoldable pub place_exits : KillGateway W F → List (OpenPosition F) → W → W × List (PlacedExit F)
  place_exits g [] w = (w, [])
  place_exits g (p ∷ ps) w =
      let (w', answer) = g.create_exit_order (market_exit (kill_prefix p.side ++ g.millis w) p) w in
      let (w'', placed) = place_exits g ps w' in
      (w'', record { position = p; success = is_accepted answer } ∷ placed)

  -- The second pass names no client id: the gateway makes one where it is empty.
  unfoldable pub close_again : KillGateway W F → List (OpenPosition F) → W → W
  close_again g [] w = w
  close_again g (p ∷ ps) w = close_again g ps (g.create_exit_order (market_exit [] p) w).0

  unfoldable pub second_pass : KillGateway W F → List (OpenPosition F) → W → W
  unfolding close_again
  second_pass g [] w = w
  second_pass g (p ∷ ps) w = g.sleep_half (close_again g (p ∷ ps) w)

module _ {W F : Type 0} ⦃f : Float F⦄ where
  -- The open positions of the symbols, as the exchange answers.
  unfoldable pub fetch_open : KillGateway W F → List String → W → W × List (OpenPosition F)
  unfolding open_slot
  fetch_open g [] w = (w, [])
  fetch_open g (symbol ∷ rest) w =
      let (w', slots) = g.fetch_positions_hedge symbol w in
      let (w'', found) = fetch_open g rest w' in
      (w'', open_slot symbol long slots.0 ++ (open_slot symbol short slots.1 ++ found))

  unfoldable pub count_residual : KillGateway W F → List String → W → W × ℕ
  unfolding is_open_slot
  count_residual g [] w = (w, 0)
  count_residual g (symbol ∷ rest) w =
      let (w', slots) = g.fetch_positions_hedge symbol w in
      let (w'', count) = count_residual g rest w' in
      (w'', (if is_open_slot slots.0 || is_open_slot slots.1 then 1 else 0) + count)

  -- Phases 3 to 5 on the symbols: the world after them and the report.
  unfoldable pub close_everything : KillGateway W F → List String → W → W × KillReport F
  close_everything g symbols w =
      let (w1, found) = fetch_open g symbols w in
      let (w2, placed) = place_exits g found w1 in
      let (w3, residual) = fetch_open g symbols (g.sleep_half w2) in
      let (w4, unclosed) = count_residual g symbols (second_pass g residual w3) in
      (
        w4,
        record {
          stopped_workers = length symbols;
          cancelled_orders = length symbols;
          positions_found = found;
          market_exits_placed = placed;
          unclosed_count = unclosed;
          status = status_of unclosed;
        },
      )

  unfoldable pub emergency_kill_all :
      Venue W F → KillGateway W F → Manager W F → Manager W F × KillReport F
  emergency_kill_all v g m =
      let stopped = stop_all v m in
      let symbols = keys stopped.workers in
      let (w, report) = close_everything g symbols (cancel_all g symbols stopped.world) in
      if v.is_connected stopped.world
      then (record stopped { world = w }, report)
      else (stopped, stopped_only (length symbols))
