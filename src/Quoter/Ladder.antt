-- ===== src/Quoter/Ladder.antt =====
-- app/core/quoter.py: which levels are quoted for the state of a slot, and the notional of each.
use pmm_simple.Prelude.{
  ℕ, zero, suc, Bool, ◌&&◌, ◌||◌, Option, none, some, List, [], ◌∷◌, leb, ◌==◌, get_elem?,
  if◌then◌else◌,
}
use pmm_simple.Float.{Float, ◌+◌, ◌-◌, ◌*◌, ◌/◌, nought, one, lit, le, lt, eq}
use pmm_simple.Models.Config.{PairConfig, leverage_or_one, effective_margin_cap}
use pmm_simple.Models.State.{SidePositionState}

-- `list(range(n))`, from `start`.
unfoldable pub range : ℕ → ℕ → List ℕ
range start zero = []
range start (suc n) = start ∷ range (suc start) n

module _ {F : Type 0} ⦃f : Float F⦄ where
  -- `mark_price or smoothed_mid`
  abbrev pub check_price : Option F → F → F
  check_price none mid = mid
  check_price (some m) mid = if eq m nought then mid else m

  -- All levels without a state; level 0 in a flat slot; else the next level alone, once its cooldown is over
  -- and the price has come to its threshold.
  unfoldable pub levels_to_quote :
      PairConfig F → F → (F → F → Bool) → Option (SidePositionState F) → F → F → List ℕ
  unfolding range
  levels_to_quote c factor reached none now price = range 0 c.order_levels
  levels_to_quote c factor reached (some s) now price =
      let threshold = s.entry_price * factor in
      if le s.amount (lit 1 7) || s.filled_levels_count == 0
      then 0 ∷ []
      else if leb c.order_levels s.filled_levels_count || lt now s.next_allowed_level_time
      then []
      else if reached price threshold && lt nought threshold
      then s.filled_levels_count ∷ []
      else []

  -- A LONG slot adds at or below entry_price * (1 - order_level_spread).
  unfoldable pub levels_to_quote_bid :
      PairConfig F → Option (SidePositionState F) → F → Option F → F → List ℕ
  unfolding levels_to_quote
  levels_to_quote_bid c state now mark mid =
      levels_to_quote c (one - c.order_level_spread) (λ p t. le p t) state now
        (check_price mark mid)

  -- A SHORT slot adds at or above entry_price * (1 + order_level_spread).
  unfoldable pub levels_to_quote_ask :
      PairConfig F → Option (SidePositionState F) → F → Option F → F → List ℕ
  unfolding levels_to_quote
  levels_to_quote_ask c state now mark mid =
      levels_to_quote c (one + c.order_level_spread) (λ p t. le t p) state now
        (check_price mark mid)

  unfoldable pub sum_floats : List F → F → F
  sum_floats [] total = total
  sum_floats (x ∷ xs) total = sum_floats xs (total + x)

  unfoldable pub weights : ℕ → List F
  weights n =
      if n == 3
      then lit 50 2 ∷ lit 30 2 ∷ lit 20 2 ∷ []
      else if n == 2
      then lit 60 2 ∷ lit 40 2 ∷ []
      else lit 100 2 ∷ []

  unfoldable pub planned_side : PairConfig F → ℕ → F
  unfolding effective_margin_cap
  planned_side c active =
      let power = effective_margin_cap c * lit (leverage_or_one c) 0 in
      let flat = c.order_amount_usdt * lit c.order_levels 0 in
      let side = if lt nought power then power / lit active 0 else flat in
      if le side nought then flat else side

  -- A given notional, scaled down where all of them exceed the side's budget.
  unfoldable pub scaled_notional : List F → Option F → F → F
  unfolding sum_floats
  scaled_notional all none base = base
  scaled_notional all (some budget) base =
      let total = sum_floats all nought in
      if lt nought total && lt budget total then f.round (base * (budget / total)) 2 else base

  -- The notional by the configuration: inverted weights, or a base amount and an increment.
  unfoldable pub configured_notional : PairConfig F → ℕ → Option F → ℕ → F
  unfolding weights planned_side
  configured_notional c active budget idx =
      let planned = planned_side c active in
      let target : F = elim budget [
        | none ↦ planned
        | some b ↦ if lt b planned then b else planned
      ] in
      let w : F = elim (get_elem? (weights c.order_levels) idx) [
        | some x ↦ x
        | none ↦ one / lit c.order_levels 0
      ] in
      if c.inverted_sizing_enabled && le c.order_level_amount nought
      then f.round (w * target) 2
      else c.order_amount_usdt + lit idx 0 * c.order_level_amount

  -- `_get_level_notional`
  unfoldable pub get_level_notional : PairConfig F → ℕ → Option F → Option (List F) → ℕ → F
  unfolding scaled_notional configured_notional
  get_level_notional c active budget none idx = configured_notional c active budget idx
  get_level_notional c active budget (some all) idx = elim (get_elem? all idx) [
    | some base ↦ scaled_notional all budget base
    | none ↦ configured_notional c active budget idx
  ]
