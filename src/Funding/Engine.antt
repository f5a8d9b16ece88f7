-- ===== src/Funding/Engine.antt =====
-- app/core/fr_execution/engine.py: the policies of the decision layer and the two legs that carry them out. The
-- engine's state is passed on; `now` is the clock. Client order ids and log messages are left out.
use pmm_simple.Prelude.{Bool, true, false, Option, none, some, if◌then◌else◌}
use pmm_simple.Float.{Float, nought, lt, max}
use pmm_simple.Models.State.{PositionSide, long, short}
use pmm_simple.Funding.Names.{Name, lower_name, tidy, canon}
use pmm_simple.Funding.Legs.{FrPolicy, DualLegPosition, flat}
use pmm_simple.Funding.KillSwitch.{ThreeTierKillSwitch, Verdict, trip_exchange}
use pmm_simple.Funding.PairTracker.{FrPositionTracker, new_position, put_position, lookup, store}
use pmm_simple.Funding.Orders.{set_status, close_order, leg_size, is_residual, confirmed}
use pmm_simple.Funding.Gateway.{MultiExchangeGateway, OrderInfo}

pub record EngineState (W F : Type 0) : Type 0 where
  pub world : W
  pub tracker : FrPositionTracker F
  pub kill_switch : ThreeTierKillSwitch

-- The "status" of the answers, with the figures that go with it.
pub data Answer (F : Type 0) : Type 0 where
  blocked : Verdict → Answer F
  already_open invalid_price zero_quantity both_legs_failed : Answer F
  insufficient_margin measurement_failed : Name → Answer F
  both_unmeasured : Answer F
  legging_rollback : Bool → F → Answer F
  success : F → Answer F
  holding : F → Answer F
  no_position_to_reduce already_reduced zero_reduce_qty : Answer F
  reduced : F → Answer F
  reduce_partial : F → Bool → Bool → Answer F
  already_flat exit_completed paused : Answer F
  exit_partial : Bool → Bool → Answer F

module _ {W F : Type 0} ⦃f : Float F⦄ where
  -- `dual_pos`, an object of the tracker: it is read and changed under its key.
  unfoldable pub dual_pos : F → FrPolicy F → EngineState W F → DualLegPosition F
  unfolding lookup canon tidy
  dual_pos now policy s = elim (lookup (canon (tidy policy.symbol)) s.tracker.positions) [
    | some p ↦ p
    | none ↦
        new_position now (canon (tidy policy.symbol)) policy.exchange_long policy.exchange_short
  ]

  unfoldable pub change_pos :
      F → FrPolicy F → (DualLegPosition F → DualLegPosition F) → EngineState W F → EngineState W F
  unfolding dual_pos store
  change_pos now policy change s = record s {
    tracker = put_position (canon (tidy policy.symbol)) (change (dual_pos now policy s)) s.tracker;
  }

  unfoldable pub actual_leg_size :
      MultiExchangeGateway W F
      → Name
      → Name
      → PositionSide
      → EngineState W F
      → EngineState W F × Option F
  unfolding leg_size
  actual_leg_size g exchange symbol side s =
      let (w, raws) = g.fetch_positions exchange symbol s.world in
      (record s { world = w }, elim raws [ none ↦ none | some xs ↦ some (leg_size side xs) ])

  unfoldable pub trip : Name → EngineState W F → EngineState W F
  unfolding trip_exchange
  trip exchange s = record s { kill_switch = trip_exchange exchange s.kill_switch }

  -- Close a leg at market, measure it again, and trip the exchange if anything is left.
  unfoldable pub roll_back :
      MultiExchangeGateway W F
      → Name
      → Name
      → PositionSide
      → F
      → EngineState W F
      → EngineState W F × Bool
  unfolding actual_leg_size trip
  roll_back g exchange symbol side amount s =
      let (w, res) = g.create_hedge_order (close_order exchange symbol side amount) s.world in
      let (s', residual) = actual_leg_size g exchange symbol side (record s { world = w }) in
      let ok : Bool = elim res [ none ↦ false | some info ↦ true ] in
      (if is_residual residual then trip exchange s' else s', ok)

  -- One leg was acknowledged and the other failed: from the measured size on.
  unfoldable pub settle_one_leg :
      MultiExchangeGateway W F
      → F
      → FrPolicy F
      → Name
      → PositionSide
      → F
      → OrderInfo F
      → Option F
      → EngineState W F
      → EngineState W F × Answer F
  unfolding trip roll_back confirmed change_pos tidy
  settle_one_leg g now policy exchange side target info none s =
      (trip exchange s, measurement_failed exchange)
  settle_one_leg g now policy exchange side target info (some actual) s =
      let qty = max (confirmed target info) actual in
      let (s', done) = roll_back g exchange (tidy policy.symbol) side qty s in
      if lt nought qty
      then (change_pos now policy (set_status flat) s', legging_rollback done qty)
      else (change_pos now policy (set_status flat) s, both_legs_failed)

  unfoldable pub one_leg_open :
      MultiExchangeGateway W F
      → F
      → FrPolicy F
      → Name
      → PositionSide
      → F
      → OrderInfo F
      → EngineState W F
      → EngineState W F × Answer F
  unfolding actual_leg_size settle_one_leg tidy
  one_leg_open g now policy exchange side target info s =
      let (s', measured) = actual_leg_size g exchange (tidy policy.symbol) side s in
      settle_one_leg g now policy exchange side target info measured s'

  -- A leg that may have been filled although its order failed.
  unfoldable pub ghost_leg :
      MultiExchangeGateway W F
      → Name
      → Name
      → PositionSide
      → Option F
      → EngineState W F
      → EngineState W F
  unfolding trip roll_back
  ghost_leg g exchange symbol side none s = trip exchange s
  ghost_leg g exchange symbol side (some actual) s =
      if lt nought actual then (roll_back g exchange symbol side actual s).0 else s

  -- The answer after two failed orders, from the two measured sizes.
  unfoldable pub settle_no_leg :
      F → FrPolicy F → Option F → Option F → EngineState W F → EngineState W F × Answer F
  unfolding change_pos
  settle_no_leg now policy (some a) (some b) s =
      (change_pos now policy (set_status flat) s, both_legs_failed)
  settle_no_leg now policy _ _ s = (s, both_unmeasured)

  -- Both orders failed.
  unfoldable pub no_leg_open :
      MultiExchangeGateway W F → F → FrPolicy F → EngineState W F → EngineState W F × Answer F
  unfolding actual_leg_size ghost_leg settle_no_leg tidy lower_name
  no_leg_open g now policy s =
      let sym = tidy policy.symbol in
      let ex_long = lower_name policy.exchange_long in
      let ex_short = lower_name policy.exchange_short in
      let (s1, actual_long) = actual_leg_size g ex_long sym long s in
      let (s2, actual_short) = actual_leg_size g ex_short sym short s1 in
      let s3 = ghost_leg g ex_long sym long actual_long s2 in
      let s4 = ghost_leg g ex_short sym short actual_short s3 in
      settle_no_leg now policy actual_long actual_short s4
