-- ===== src/Funding/Orders.antt =====
-- app/core/fr_execution/engine.py: the orders it sends, and how it reads sizes from the exchanges' answers.
use pmm_simple.Prelude.{
  Bool, true, ◌&&◌, ◌||◌, Option, none, some, List, [], ◌∷◌, codes, ◌==◌, if◌then◌else◌,
}
use pmm_simple.Float.{Float, nought, lit, lt, eq, abs}
use pmm_simple.Models.State.{PositionSide, long, short, both, is_long, buy, sell}
use pmm_simple.Funding.Names.{Name, name_eq, upper}
use pmm_simple.Funding.Legs.{DualLegPosition, PairStatus}
use pmm_simple.Funding.Gateway.{HedgeOrder, OrderInfo, RawPosition}

abbrev pub side_name : PositionSide → Name
side_name long = codes "LONG"
side_name short = codes "SHORT"
side_name both = codes "BOTH"

abbrev pub set_status : {F : Type 0} → PairStatus → DualLegPosition F → DualLegPosition F
set_status status p = record p { status = status }

module _ {F : Type 0} where
  -- The order of `emergency_market_close`: SELL for LONG and BUY for SHORT.
  abbrev pub close_order : Name → Name → PositionSide → F → HedgeOrder F
  close_order exchange symbol side amount = record {
    exchange = exchange;
    symbol = symbol;
    side = if is_long side then sell else buy;
    position_side = side;
    amount = amount;
  }

  abbrev pub open_order : Name → Name → PositionSide → F → HedgeOrder F
  open_order exchange symbol side amount = record {
    exchange = exchange;
    symbol = symbol;
    side = if is_long side then buy else sell;
    position_side = side;
    amount = amount;
  }

  -- The side of a listed position: by its index, if that is 1 or 2.
  unfoldable pub raw_side : RawPosition F → Name
  unfolding upper
  raw_side raw = elim raw.position_idx [
    | none ↦ upper raw.side
    | some i ↦ if i == 1 then codes "LONG" else if i == 2 then codes "SHORT" else upper raw.side
  ]

module _ {F : Type 0} ⦃f : Float F⦄ where
  -- The size of the first position on that side, or else 0.
  unfoldable pub leg_size : PositionSide → List (RawPosition F) → F
  unfolding raw_side name_eq
  leg_size side [] = nought
  leg_size side (raw ∷ raws) =
      let rest = leg_size side raws in
      let r = raw_side raw in
      if (name_eq r (side_name side) || name_eq r (codes "BOTH")) && lt nought (abs raw.contracts)
      then abs raw.contracts
      else rest

  -- `residual is None or residual > 1e-5`
  abbrev pub is_residual : Option F → Bool
  is_residual none = true
  is_residual (some r) = lt (lit 1 5) r

  abbrev pub or_target : F → Option F → F
  or_target target none = target
  or_target target (some x) = if eq x nought then target else x

  -- `float(res.get("filled", res.get("amount", target)) or target)`
  unfoldable pub confirmed : F → OrderInfo F → F
  confirmed target info = elim info.filled [
    | some v ↦ or_target target v
    | none ↦ elim info.amount [
      | some v ↦ or_target target v
      | none ↦ or_target target (some target)
    ]
  ]
