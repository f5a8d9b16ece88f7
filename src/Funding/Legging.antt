-- ===== src/Funding/Legging.antt =====
-- One leg without the other (app/core/fr_execution/engine.py): what `_handle_open` leaves behind on every branch.
use pmm_simple.Prelude.{
  ◌≡◌, refl, ap, ◌⊎◌, inl, inr, Bool, true, false, Option, none, some, List, [], ◌∷◌, arith,
  Bool-cases, if◌then◌else◌,
}
use pmm_simple.Float.{Float, nought, lit, lt, max, ◌≼◌, ◌≺◌}
use pmm_simple.Models.State.{PositionSide, is_long, buy, sell}
use pmm_simple.Funding.Sizes.{is_some}
use pmm_simple.Funding.Names.{Name, name_eq, tidy, canon}
use pmm_simple.Funding.NameSets.{name_eq_refl}
use pmm_simple.Funding.Legs.{DualLegPosition, FrPolicy, flat}
use pmm_simple.Funding.KillSwitch.{is_exchange_tripped}
use pmm_simple.Funding.PairTracker.{lookup, store}
use pmm_simple.Funding.Orders.{close_order, is_residual, confirmed, set_status}
use pmm_simple.Funding.Gateway.{MultiExchangeGateway, OrderInfo, HedgeOrder}
use pmm_simple.Funding.Engine.{
  EngineState, Answer, actual_leg_size, roll_back, trip, settle_one_leg, one_leg_open, change_pos,
  dual_pos, measurement_failed, legging_rollback, both_legs_failed,
}
use pmm_simple.Funding.Halt.{tripped_lem}

module _ {F : Type 0} ⦃f : Float F⦄ where
  pub lookup-store :
      (key : Name) (p : DualLegPosition F) (ps : List (Name × DualLegPosition F))
      → lookup key (store key p ps) ≡ some p
  unfolding lookup store
  lookup-store key p [] = rw (name_eq_refl key) refl
  lookup-store key p ((k, q) ∷ ps) = elim (Bool-cases (name_eq k key)) [
    | inl h ↦ rw (h, lookup) (rw h refl)
    | inr h ↦ rw (h, lookup) (rw h (lookup-store key p ps))
  ]

module _ {F : Type 0} where
  -- The market order of a rollback: SELL against a LONG leg and BUY against a SHORT one.
  abbrev pub rollback_order : Name → FrPolicy F → PositionSide → F → HedgeOrder F
  rollback_order exchange policy side qty = record {
    exchange = exchange;
    symbol = tidy policy.symbol;
    side = if is_long side then sell else buy;
    position_side = side;
    amount = qty;
  }

  is_done :
      (res : Option (OrderInfo F)) → (elim res [ none ↦ false | some info ↦ true ]) ≡ is_some res
  is_done none = refl
  is_done (some info) = refl

module _ {W F : Type 0} ⦃f : Float F⦄ where
  -- The position after a change.
  pub dual_pos-change_pos :
      (now later : F) (policy : FrPolicy F) (change : DualLegPosition F → DualLegPosition F)
      (s : EngineState W F)
      → dual_pos later policy (change_pos now policy change s) ≡ change (dual_pos now policy s)
  unfolding dual_pos change_pos
  dual_pos-change_pos now later policy change s =
      rw
        (
          lookup-store (canon (tidy policy.symbol)) (change (dual_pos now policy s))
              s.tracker.positions,
          dual_pos,
        )
        refl

  measured_or_tripped :
      (m : Option F) (exchange : Name) (s : EngineState W F)
      → (is_exchange_tripped exchange (if is_residual m then trip exchange s else s).kill_switch
          ≡ true)
        ⊎ ((r : F) × (m ≡ some r) × (r ≼ lit 1 5))
  unfolding trip
  measured_or_tripped none exchange s = inl (tripped_lem exchange s.kill_switch)
  measured_or_tripped (some r) exchange s = elim (Bool-cases (lt (lit 1 5) r)) [
    | inl h ↦ inl (rw h (tripped_lem exchange s.kill_switch))
    | inr h ↦ inr (r, refl, ground arith)
  ]

  -- A close at market is measured: either the exchange is tripped, or it then listed at most 1e-5 of the leg.
  pub roll_back_guarded :
      (g : MultiExchangeGateway W F) (exchange symbol : Name) (side : PositionSide) (amount : F)
      (s : EngineState W F)
      → let (w, res) = g.create_hedge_order (close_order exchange symbol side amount) s.world in
        let measured = (actual_leg_size g exchange symbol side (record s { world = w })).1 in
        (is_exchange_tripped exchange (roll_back g exchange symbol side amount s).0.kill_switch
          ≡ true)
        ⊎ ((r : F) × (measured ≡ some r) × (r ≼ lit 1 5))
  unfolding roll_back
  roll_back_guarded g exchange symbol side amount s = measured_or_tripped _ exchange _

  -- After a rollback of `qty` from `s`: the order is answered, the leg is measured again, and either the
  -- exchange of the state `s'` is tripped, or at most 1e-5 of the leg was listed.
  abbrev pub IsRolledBack :
      MultiExchangeGateway W F
      → FrPolicy F
      → Name
      → PositionSide
      → F
      → EngineState W F
      → EngineState W F
      → Bool
      → Type 0
  IsRolledBack g policy exchange side qty s s' done =
      let sent = g.create_hedge_order (rollback_order exchange policy side qty) s.world in
      let again =
        actual_leg_size g exchange (tidy policy.symbol) side (record s { world = sent.0 }) in
      (done ≡ is_some sent.1)
      × (s'.world ≡ again.0.world)
      × ((is_exchange_tripped exchange s'.kill_switch ≡ true)
          ⊎ ((r : F) × (again.1 ≡ some r) × (r ≼ lit 1 5)))

  -- What a broken opening leaves, by its answer, of a state `s` and a leg that was measured as `measured`.
  pub OneLegOutcome :
      MultiExchangeGateway W F
      → F
      → FrPolicy F
      → Name
      → PositionSide
      → F
      → OrderInfo F
      → Option F
      → EngineState W F
      → EngineState W F × Answer F
      → Type 0
  OneLegOutcome g now policy exchange side target info measured s (s', measurement_failed e) =
      (measured ≡ none)
      × (e ≡ exchange)
      × (is_exchange_tripped exchange s'.kill_switch ≡ true)
      × (s'.world ≡ s.world)
      × (s'.tracker ≡ s.tracker)
  OneLegOutcome g now policy exchange side target info measured s (s', legging_rollback done qty) =
      (actual : F) × (measured ≡ some actual)
      × (qty ≡ max (confirmed target info) actual)
      × (nought ≺ qty)
      × IsRolledBack g policy exchange side qty s s' done
      × ((dual_pos now policy s').status ≡ flat)
  OneLegOutcome g now policy exchange side target info measured s (s', both_legs_failed) =
      (actual : F) × (measured ≡ some actual)
      × (max (confirmed target info) actual ≼ nought)
      × (s'.world ≡ s.world)
      × (s'.kill_switch ≡ s.kill_switch)
      × ((dual_pos now policy s').status ≡ flat)
  OneLegOutcome g now policy exchange side target info measured s (s', _) = ⊥

  trip_if-world :
      (b : Bool) (exchange : Name) (s : EngineState W F)
      → (if b then trip exchange s else s).world ≡ s.world
  unfolding trip
  trip_if-world true exchange s = refl
  trip_if-world false exchange s = refl

  roll_back-IsRolledBack :
      (g : MultiExchangeGateway W F) (policy : FrPolicy F) (exchange : Name) (side : PositionSide)
      (qty : F) (s : EngineState W F)
      → let r = roll_back g exchange (tidy policy.symbol) side qty s in
        IsRolledBack g policy exchange side qty s r.0 r.1
  unfolding roll_back
  roll_back-IsRolledBack g policy exchange side qty s =
      let sent = g.create_hedge_order (rollback_order exchange policy side qty) s.world in
      let again =
        actual_leg_size g exchange (tidy policy.symbol) side (record s { world = sent.0 }) in
      (
        is_done sent.1,
        trip_if-world (is_residual again.1) exchange again.0,
        roll_back_guarded g exchange (tidy policy.symbol) side qty s,
      )

  settle_one_leg-OneLegOutcome :
      (g : MultiExchangeGateway W F) (now : F) (policy : FrPolicy F) (exchange : Name)
      (side : PositionSide) (target : F) (info : OrderInfo F) (measured : Option F)
      (s : EngineState W F)
      → OneLegOutcome g now policy exchange side target info measured s
          (settle_one_leg g now policy exchange side target info measured s)
  unfolding settle_one_leg OneLegOutcome trip change_pos
  settle_one_leg-OneLegOutcome g now policy exchange side target info none s =
      (refl, refl, tripped_lem exchange s.kill_switch, refl, refl)
  settle_one_leg-OneLegOutcome g now policy exchange side target info (some actual) s =
      let qty = max (confirmed target info) actual in
      let s' = (roll_back g exchange (tidy policy.symbol) side qty s).0 in
      let back = roll_back-IsRolledBack g policy exchange side qty s in
      let flat_after = λ (z : EngineState W F).
        ap (λ (p : DualLegPosition F). p.status)
          (dual_pos-change_pos now now policy (set_status flat) z) in
      elim (Bool-cases (lt nought qty)) [
        | inl h ↦ rw h (actual, refl, refl, h, back, flat_after s')
        | inr h ↦ rw h (actual, refl, ground arith, refl, refl, flat_after s)
      ]

  -- One leg was acknowledged and the other not; the leg is measured first. Where that fails, its exchange is
  -- tripped, nothing is sent and the tracker stays as it was. Else the larger of the confirmed and the measured
  -- quantity, where it is positive, is sent back at once, SELL for a LONG leg and BUY for a SHORT one, and the leg
  -- is measured again: the exchange is tripped, or at most 1e-5 of the leg was then listed, and the position is
  -- FLAT. Where that quantity is not positive nothing is sent and the position is FLAT.
  pub one_leg_open-OneLegOutcome :
      (g : MultiExchangeGateway W F) (now : F) (policy : FrPolicy F) (exchange : Name)
      (side : PositionSide) (target : F) (info : OrderInfo F) (s : EngineState W F)
      → let m = actual_leg_size g exchange (tidy policy.symbol) side s in
        OneLegOutcome g now policy exchange side target info m.1 m.0
          (one_leg_open g now policy exchange side target info s)
  unfolding one_leg_open
  one_leg_open-OneLegOutcome g now policy exchange side target info s =
      let (s', measured) = actual_leg_size g exchange (tidy policy.symbol) side s in
      settle_one_leg-OneLegOutcome g now policy exchange side target info measured s'
