-- ===== src/Funding/Closing.antt =====
-- EXIT and REDUCE (app/core/fr_execution/engine.py): the legs that are left, by the answer.
use pmm_simple.Prelude.{
  ◌≡◌, refl, ap, sym, Option, none, some, Bool, true, false, not, ◌&&◌, ◌||◌, Bool-cases, inl, inr,
  if◌then◌else◌,
}
use pmm_simple.Float.{Float, ◌-◌, nought, le, lt, max, ◌≼◌, ◌≺◌}
use pmm_simple.Models.State.{PositionSide, long, short, OrderSide, buy, sell}
use pmm_simple.Funding.Names.{tidy}
use pmm_simple.Funding.Legs.{DualLegPosition, LegPositionState, FrPolicy, flat, closing}
use pmm_simple.Funding.Gateway.{HedgeOrder, OrderInfo, MultiExchangeGateway}
use pmm_simple.Funding.Engine.{
  EngineState, Answer, dual_pos, already_flat, exit_completed, exit_partial, reduced,
  reduce_partial, no_position_to_reduce, already_reduced, zero_reduce_qty,
}
use pmm_simple.Funding.Policies.{handle_reduce, guard_reduce, settle_reduce}
use pmm_simple.Funding.Sizes.{is_some, reduce_legs}
use pmm_simple.Funding.Legging.{dual_pos-change_pos}

module _ {F : Type 0} where
  -- A market order against a leg: SELL for the LONG leg and BUY for the SHORT one.
  abbrev pub closing_order :
      FrPolicy F → OrderSide → PositionSide → LegPositionState F → F → HedgeOrder F
  closing_order policy side leg_side leg amount = record {
    exchange = leg.exchange;
    symbol = tidy policy.symbol;
    side = side;
    position_side = leg_side;
    amount = amount;
  }

  -- There was no order to send, or the exchange answered it.
  abbrev pub is_acknowledged : Option (HedgeOrder F) → Option (OrderInfo F) → Bool
  is_acknowledged none res = true
  is_acknowledged (some order) res = is_some res

module _ {F : Type 0} ⦃f : Float F⦄ where
  -- The order that closes a leg, where it has a size.
  abbrev pub exit_order :
      FrPolicy F → OrderSide → PositionSide → LegPositionState F → Option (HedgeOrder F)
  exit_order policy side leg_side leg =
      if lt nought leg.size then some (closing_order policy side leg_side leg leg.size) else none

module _ {W F : Type 0} ⦃f : Float F⦄ where
  -- What an EXIT leaves of the position `p`, by its answer and by the closes `a` of the LONG and `b` of the SHORT
  -- leg that were acknowledged: a leg loses its size exactly when its close was, and the position is FLAT only
  -- when both were.
  pub ExitOutcome :
      F → FrPolicy F → DualLegPosition F → Bool → Bool → EngineState W F × Answer F → Type 0
  ExitOutcome now policy p a b (s, already_flat) =
      (p.long_leg.size ≼ nought)
      × (p.short_leg.size ≼ nought)
      × ((dual_pos now policy s).status ≡ flat)
  ExitOutcome now policy p a b (s, exit_completed) =
      let p' = dual_pos now policy s in
      (a ≡ true)
      × (b ≡ true)
      × (p'.long_leg.size ≡ nought)
      × (p'.short_leg.size ≡ nought)
      × (p'.status ≡ flat)
  ExitOutcome now policy p a b (s, exit_partial a' b') =
      let p' = dual_pos now policy s in
      (a' ≡ a)
      × (b' ≡ b)
      × ((a && b) ≡ false)
      × (p'.long_leg.size ≡ (if a then nought else p.long_leg.size))
      × (p'.short_leg.size ≡ (if b then nought else p.short_leg.size))
      × (p'.status ≡ closing)
  ExitOutcome now policy p a b (s, _) = ⊥

  -- The two answers to the orders of a REDUCE by a quantity.
  abbrev pub reduce_answers :
      MultiExchangeGateway W F
      → F
      → FrPolicy F
      → EngineState W F
      → F
      → W × Option (OrderInfo F) × Option (OrderInfo F)
  reduce_answers g now policy s qty =
      let p = dual_pos now policy s in
      g.create_together (some (closing_order policy sell long p.long_leg qty))
        (some (closing_order policy buy short p.short_leg qty)) s.world

  -- What a REDUCE leaves of the position, by its answer.
  pub ReduceOutcome :
      MultiExchangeGateway W F
      → F
      → FrPolicy F
      → EngineState W F
      → EngineState W F × Answer F
      → Type 0
  ReduceOutcome g now policy s (s', reduced qty) =
      let p = dual_pos now policy s in
      let p' = dual_pos now policy s' in
      let r = reduce_answers g now policy s qty in
      (nought ≺ qty)
      × (is_some r.1 ≡ true)
      × (is_some r.2 ≡ true)
      × (p'.long_leg.size ≡ max nought (p.long_leg.size - qty))
      × (p'.short_leg.size ≡ max nought (p.short_leg.size - qty))
  ReduceOutcome g now policy s (s', reduce_partial qty a b) =
      let p = dual_pos now policy s in
      let p' = dual_pos now policy s' in
      let r = reduce_answers g now policy s qty in
      (nought ≺ qty)
      × (a ≡ is_some r.1)
      × (b ≡ is_some r.2)
      × ((a && b) ≡ false)
      × (p'.long_leg.size ≡ (if a then max nought (p.long_leg.size - qty) else p.long_leg.size))
      × (p'.short_leg.size ≡ (if b then max nought (p.short_leg.size - qty) else p.short_leg.size))
  ReduceOutcome g now policy s (s', no_position_to_reduce) = s' ≡ s
  ReduceOutcome g now policy s (s', already_reduced) = s' ≡ s
  ReduceOutcome g now policy s (s', zero_reduce_qty) = s' ≡ s
  ReduceOutcome g now policy s (s', _) = ⊥

  settle_reduce-ReduceOutcome :
      (g : MultiExchangeGateway W F) (now : F) (policy : FrPolicy F) (qty : F) (a b : Bool) (w : W)
      (s : EngineState W F)
      → le qty nought ≡ false
      → a ≡ is_some (reduce_answers g now policy s qty).1
      → b ≡ is_some (reduce_answers g now policy s qty).2
      → ReduceOutcome g now policy s (settle_reduce now policy qty a b (record s { world = w }))
  unfolding settle_reduce ReduceOutcome reduce_legs
  settle_reduce-ReduceOutcome g now policy qty true true w s h k l =
      rw
        (dual_pos-change_pos now now policy (reduce_legs now qty true true)
          (record s { world = w }))
        (ap not h, sym k, sym l, refl, refl)
  settle_reduce-ReduceOutcome g now policy qty true false w s h k l =
      rw
        (dual_pos-change_pos now now policy (reduce_legs now qty true false)
          (record s { world = w }))
        (ap not h, k, l, refl, refl, refl)
  settle_reduce-ReduceOutcome g now policy qty false true w s h k l =
      rw
        (dual_pos-change_pos now now policy (reduce_legs now qty false true)
          (record s { world = w }))
        (ap not h, k, l, refl, refl, refl)
  settle_reduce-ReduceOutcome g now policy qty false false w s h k l =
      rw
        (dual_pos-change_pos now now policy (reduce_legs now qty false false)
          (record s { world = w }))
        (ap not h, k, l, refl, refl, refl)

  unchanged-ReduceOutcome :
      (g : MultiExchangeGateway W F) (now : F) (policy : FrPolicy F) (s : EngineState W F)
      → ReduceOutcome g now policy s (s, no_position_to_reduce)
        × ReduceOutcome g now policy s (s, already_reduced)
        × ReduceOutcome g now policy s (s, zero_reduce_qty)
  unfolding ReduceOutcome
  unchanged-ReduceOutcome g now policy s = (refl, refl, refl)

  guard_reduce-ReduceOutcome :
      (g : MultiExchangeGateway W F) (now : F) (policy : FrPolicy F)
      (ref current reduce_qty qty : F) (s : EngineState W F) (done : EngineState W F × Answer F)
      → (le qty nought ≡ false → ReduceOutcome g now policy s done)
      → ReduceOutcome g now policy s (guard_reduce ref current reduce_qty qty s done)
  unfolding guard_reduce
  guard_reduce-ReduceOutcome g now policy ref current reduce_qty qty s done h =
      let stay = unchanged-ReduceOutcome g now policy s in
      elim (Bool-cases (le ref nought || le current nought)) [
        | inl a ↦ rw a stay.0
        | inr a ↦ rw a (elim (Bool-cases (le reduce_qty nought)) [
          | inl b ↦ rw b stay.1
          | inr b ↦
              rw b (elim (Bool-cases (le qty nought)) [ inl c ↦ rw c stay.2 | inr c ↦ rw c (h c) ])
        ])
      ]

  -- A REDUCE, whatever the exchanges answer. Where it is not refused, a SELL of the LONG leg and a BUY of the SHORT
  -- leg by one positive quantity are sent together, each at its own exchange; a leg shrinks by that quantity, not
  -- below nothing, exactly when its order was acknowledged, and the answer says which were. Where it is refused
  -- nothing changes and nothing is sent.
  pub handle_reduce-ReduceOutcome :
      (g : MultiExchangeGateway W F) (now : F) (policy : FrPolicy F) (s : EngineState W F)
      → ReduceOutcome g now policy s (handle_reduce g now policy s)
  unfolding handle_reduce
  handle_reduce-ReduceOutcome g now policy s =
      guard_reduce-ReduceOutcome g now policy _ _ _ _ s _
        (λ h. settle_reduce-ReduceOutcome g now policy _ _ _ _ s h refl refl)
