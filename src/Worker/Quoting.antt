-- ===== src/Worker/Quoting.antt =====
-- The exchange of the active quotes for the targets (app/core/worker.py, the second half of `_requote`): an order
-- that still fits a target is kept, the others are cancelled, and the targets left over are placed.
use pmm_simple.Prelude.{
  ◌&&◌, ◌||◌, ◌++◌, Bool, true, false, Option, none, some, List, [], ◌∷◌, codes, map, same_text,
  if◌then◌else◌,
}
use pmm_simple.Float.{Float, ◌-◌, ◌*◌, ◌/◌, nought, lit, le, lt, max, abs}
use pmm_simple.Models.State.{OrderSide, buy, sell, PositionSide, long, short, both, is_buy}
use pmm_simple.Quoter.{QuoteLevel}
use pmm_simple.Quoter.Pricing.{PmmQuoter}
use pmm_simple.Executor.Ids.{Text, show, safe_client_order_id}
use pmm_simple.Executor.TakeProfit.{id_or}

-- An active quote order.
pub record ActiveQuote (F : Type 0) : Type 0 where
  pub id : Text
  pub side : OrderSide
  pub position_side : PositionSide
  pub price : F
  pub amount : F

-- What the exchange of quotes asks of the gateway. An accepted order answers the id of its dict, if any.
pub record QuoteGateway (W F : Type 0) : Type 0 where
  pub millis : W → Text
  pub cancel_order : Text → W → W × Bool
  pub create_quote_order : QuoteLevel F → Text → W → W × Option (Option Text)
  -- The two reconciliations that a failed cancellation starts as background tasks.
  pub request_reconcile : W → W

-- `==` on the sides of orders and positions.
abbrev pub same_order_side : OrderSide → OrderSide → Bool
same_order_side buy buy = true
same_order_side sell sell = true
same_order_side _ _ = false

abbrev pub same_position_side : PositionSide → PositionSide → Bool
same_position_side long long = true
same_position_side short short = true
same_position_side both both = true
same_position_side _ _ = false

module _ {F : Type 0} where
  -- An assignment to the dict of active orders, by the order's id.
  unfoldable pub put_quote : ActiveQuote F → List (ActiveQuote F) → List (ActiveQuote F)
  unfolding same_text
  put_quote q [] = q ∷ []
  put_quote q (o ∷ os) =
      let rest = put_quote q os in if same_text o.id q.id then q ∷ os else o ∷ rest

  -- The dict after the answer to a new order.
  unfoldable pub accepted :
      Text → QuoteLevel F → Option (Option Text) → List (ActiveQuote F) → List (ActiveQuote F)
  unfolding put_quote
  accepted client_id t none os = os
  accepted client_id t (some id) os =
      put_quote
        (record {
          id = id_or client_id id;
          side = t.side;
          position_side = t.position_side;
          price = t.price;
          amount = t.amount;
        })
        os

-- A target before those that are left.
abbrev pub cons_target :
    {F : Type 0}
    → QuoteLevel F × Bool
    → Option (List (QuoteLevel F × Bool))
    → Option (List (QuoteLevel F × Bool))
cons_target p none = none
cons_target p (some ts) = some (p ∷ ts)

abbrev pub free : {F : Type 0} → QuoteLevel F → QuoteLevel F × Bool
free t = (t, false)

module _ {F : Type 0} ⦃f : Float F⦄ where
  -- The order stands for the target: the sides, the price within a tick, and the amount within a step or 5%.
  unfoldable pub is_match : PmmQuoter F → ActiveQuote F → QuoteLevel F → Bool
  is_match q o t =
      let tick = if lt nought q.tick_size then q.tick_size else lit 1 2 in
      let step = if lt nought q.step_size then q.step_size else lit 1 3 in
      let amt_diff = abs (o.amount - t.amount) in
      same_order_side o.side t.side
      && (same_position_side o.position_side t.position_side
          && (le (abs (o.price - t.price)) (tick * lit 101 2)
              && (le amt_diff step || lt (amt_diff / max (lit 1 5) t.amount) (lit 5 2))))

  -- The first target that is free and fits is taken; a target carries whether it is taken.
  unfoldable pub take_target :
      PmmQuoter F → ActiveQuote F → List (QuoteLevel F × Bool) → Option (List (QuoteLevel F × Bool))
  unfolding is_match
  take_target q o [] = none
  take_target q o ((t, true) ∷ ts) = cons_target (t, true) (take_target q o ts)
  take_target q o ((t, false) ∷ ts) =
      let later = cons_target (t, false) (take_target q o ts) in
      if is_match q o t then some ((t, true) ∷ ts) else later

module _ {W F : Type 0} ⦃f : Float F⦄ where
  -- An order that fits no target: it goes where its cancellation succeeds, and stays tracked else.
  unfoldable pub drop_quote : QuoteGateway W F → ActiveQuote F → W → W × List (ActiveQuote F)
  drop_quote g o w =
      let (w', done) = g.cancel_order o.id w in
      if done then (w', []) else (g.request_reconcile w', o ∷ [])

  -- One active order: it takes its target and is kept, or it is dropped.
  unfoldable pub retain_one :
      QuoteGateway W F
      → ActiveQuote F
      → Option (List (QuoteLevel F × Bool))
      → List (QuoteLevel F × Bool)
      → W
      → W × List (ActiveQuote F) × List (QuoteLevel F × Bool)
  unfolding drop_quote
  retain_one g o (some left) ts w = (w, o ∷ [], left)
  retain_one g o none ts w = let (w', stays) = drop_quote g o w in (w', stays, ts)

  -- The loop over the active orders.
  unfoldable pub retain :
      QuoteGateway W F
      → PmmQuoter F
      → List (ActiveQuote F)
      → List (QuoteLevel F × Bool)
      → W
      → W × List (ActiveQuote F) × List (QuoteLevel F × Bool)
  unfolding take_target retain_one
  retain g q [] ts w = (w, [], ts)
  retain g q (o ∷ os) ts w =
      let (w1, stays, left) = retain_one g o (take_target q o ts) ts w in
      let (w2, kept, rest) = retain g q os left w1 in (w2, stays ++ kept, rest)

  -- The client order id of a new quote.
  unfoldable pub quote_id : QuoteGateway W F → QuoteLevel F → W → Text
  unfolding show safe_client_order_id
  quote_id g t w =
      let side = if is_buy t.side then codes "buy" else codes "sell" in
      safe_client_order_id (g.millis w) (codes "q_" ++ (side ++ (codes "_" ++ show t.level))) 36

  -- The loop over the targets that are not taken, on the dict of active orders.
  unfoldable pub place :
      QuoteGateway W F
      → List (QuoteLevel F × Bool)
      → List (ActiveQuote F)
      → W
      → W × List (ActiveQuote F)
  unfolding quote_id accepted
  place g [] os w = (w, os)
  place g ((t, true) ∷ ts) os w = place g ts os w
  place g ((t, false) ∷ ts) os w =
      let client_id = quote_id g t w in
      let (w', resp) = g.create_quote_order t client_id w in
      place g ts (accepted client_id t resp os) w'

  -- The active orders after the exchange for the targets.
  unfoldable pub refresh :
      QuoteGateway W F
      → PmmQuoter F
      → List (QuoteLevel F)
      → List (ActiveQuote F)
      → W
      → W × List (ActiveQuote F)
  unfolding retain place
  refresh g q targets active w =
      let (w1, kept, left) = retain g q active (map free targets) w in place g left kept w1
