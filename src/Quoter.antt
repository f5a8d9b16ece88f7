-- ===== src/Quoter.antt =====
-- app/core/quoter.py: prices and sizes of the entry quotes. `calculate_quotes` has two loops that differ in
-- the side alone; they share `quote_loop` here.
pub mod Pricing
pub mod Ladder
pub mod Levels
pub mod Throttle
pub mod Gates
mod Tests
use text.Mathlib.Text.{◌==◌ as str_eq}
use pmm_simple.Prelude.{
  ℕ, Bool, true, false, not, ◌&&◌, ◌||◌, Option, none, some, List, [], ◌∷◌, String, ◌==◌,
  is_nonempty, if◌then◌else◌,
}
use pmm_simple.Float.{Float, ◌+◌, ◌-◌, ◌*◌, ◌/◌, nought, one, lit, le, lt, min, max}
use Prim.Native.Nat.{◌+◌ as add_ℕ}
use pmm_simple.Models.Config.{leverage_or_one}
use pmm_simple.Models.State.{PositionSide, long, short, OrderSide, buy, sell, SidePositionState}
use pmm_simple.Quoter.Pricing.{PmmQuoter, quantize_amount, calculate_spread_floor, clamp_quote}
use pmm_simple.Quoter.Ladder.{levels_to_quote_bid, levels_to_quote_ask, get_level_notional}

pub record QuoteLevel (F : Type 0) : Type 0 where
  pub side : OrderSide
  pub position_side : PositionSide
  pub level : ℕ
  pub price : F
  pub amount : F
  pub notional : F

-- The arguments of `calculate_quotes`; `now` is `current_time`, or the clock where that is None.
pub record QuoteInputs (F : Type 0) : Type 0 where
  pub smoothed_mid : F
  pub long_value_usdt : F
  pub short_value_usdt : F
  pub vol_mult : F
  pub pause_long_entry : Bool
  pub pause_short_entry : Bool
  pub best_bid : Option F
  pub best_ask : Option F
  pub available_margin : Option F
  pub long_state : Option (SidePositionState F)
  pub short_state : Option (SidePositionState F)
  pub now : F
  pub mark_price : Option F
  pub trend_bias_regime : String
  pub level_notionals : Option (List F)

-- How one turn of a loop over the levels ends: `break`, `continue`, or a quote and the budget left.
pub data Outcome (F : Type 0) : Type 0 where
  break_loop : Outcome F
  continue_loop : Outcome F
  quoted : QuoteLevel F → Option F → Outcome F

-- What the two loops share, computed before them.
pub record QuotePlan (F : Type 0) : Type 0 where
  pub ref_mid : F
  pub spread_floor : F
  pub s_bid_eff : F
  pub s_ask_eff : F
  pub long_cap_reached : Bool
  pub short_cap_reached : Bool
  pub active_sides : ℕ
  pub side_notional_budget : Option F

abbrev pub count_open : Bool → ℕ
count_open reached = if reached then 0 else 1

module _ {F : Type 0} ⦃f : Float F⦄ where
  pub state_regime : Option (SidePositionState F) → Option String
  state_regime none = none
  state_regime (some s) = if is_nonempty s.trend_bias_regime then some s.trend_bias_regime else none

  -- The regime of the LONG slot, or else of the SHORT slot, or else the argument.
  pub effective_regime : QuoteInputs F → String
  unfolding state_regime
  effective_regime i = elim (state_regime i.long_state) [
    | some r ↦ r
    | none ↦ elim (state_regime i.short_state) [ some r ↦ r | none ↦ i.trend_bias_regime ]
  ]

  -- The trend bias: a bullish market blocks SHORT entries, a bearish one LONG entries.
  pub long_paused : PmmQuoter F → QuoteInputs F → Bool
  unfolding effective_regime
  long_paused q i =
      i.pause_long_entry || (q.config.trend_bias_enabled && str_eq (effective_regime i) "BEARISH")

  pub short_paused : PmmQuoter F → QuoteInputs F → Bool
  unfolding effective_regime
  short_paused q i =
      i.pause_short_entry || (q.config.trend_bias_enabled && str_eq (effective_regime i) "BULLISH")

  abbrev pub clip_unit : F → F
  clip_unit x = min one (max nought x)

  pub plan : PmmQuoter F → QuoteInputs F → QuotePlan F
  unfolding long_paused short_paused calculate_spread_floor
  plan q i =
      let c = q.config in
      let rho_long = clip_unit (i.long_value_usdt / max one c.max_long_usdt) in
      let rho_short = clip_unit (i.short_value_usdt / max one c.max_short_usdt) in
      let max_side = max (max c.max_long_usdt c.max_short_usdt) one in
      let rho_net =
        max (nought - one) (min one ((i.long_value_usdt - i.short_value_usdt) / max_side)) in
      let skew_bid =
        if c.inventory_skew_enabled then c.skew_kappa * c.bid_spread * rho_long else nought in
      let skew_ask =
        if c.inventory_skew_enabled then c.skew_kappa * c.ask_spread * rho_short else nought in
      let spread_floor = calculate_spread_floor q i.smoothed_mid in
      let gross_exceeded = le c.gross_exposure_cap_usdt (i.long_value_usdt + i.short_value_usdt) in
      let long_cap = le c.max_long_usdt i.long_value_usdt || gross_exceeded || long_paused q i in
      let short_cap =
        le c.max_short_usdt i.short_value_usdt || gross_exceeded || short_paused q i in
      let active = add_ℕ (count_open long_cap) (count_open short_cap) in
      let budget : Option F = elim i.available_margin [
        | none ↦ none
        | some m ↦ some (m / lit active 0 * lit (leverage_or_one c) 0)
      ] in
      record {
        ref_mid = i.smoothed_mid * (one - c.skew_gamma_net * rho_net);
        spread_floor = spread_floor;
        s_bid_eff = max (c.bid_spread * i.vol_mult + skew_bid) spread_floor;
        s_ask_eff = max (c.ask_spread * i.vol_mult + skew_ask) spread_floor;
        long_cap_reached = long_cap;
        short_cap_reached = short_cap;
        active_sides = active;
        side_notional_budget = budget;
      }

  -- `qty` of a level, from its notional: at least the exchange's minimums, then rounded to the step.
  pub level_quantity : PmmQuoter F → F → F → F
  unfolding quantize_amount
  level_quantity q amount_usdt price =
      let raw = amount_usdt / price in
      let enough = if lt nought q.min_amount && lt raw q.min_amount then q.min_amount else raw in
      let min_req = q.min_notional * lit 105 2 in
      let worth = if lt (enough * price) min_req then min_req / price else enough in
      let qty = quantize_amount q worth in
      if lt (qty * price) q.min_notional && lt nought q.step_size
      then quantize_amount q (qty + q.step_size)
      else qty

  -- `rem is not None and test rem`
  abbrev pub budget_test : (F → Bool) → Option F → Bool
  budget_test test none = false
  budget_test test (some b) = test b

  abbrev pub cut_to_budget : F → Option F → F
  cut_to_budget amount none = amount
  cut_to_budget amount (some b) = if lt b amount then b else amount

  abbrev pub spend : F → Option F → Option F
  spend notional none = none
  spend notional (some b) = some (max nought (b - notional))

  -- The part of a turn after the price.
  pub quote_at : PmmQuoter F → OrderSide → PositionSide → F → F → ℕ → F → F → Option F → Outcome F
  unfolding level_quantity
  quote_at q side position_side value limit level planned price budget =
      let within =
        if lt limit (value + planned) then max q.min_notional (limit - value) else planned in
      let qty = level_quantity q (cut_to_budget within budget) price in
      let level_notional = f.round (qty * price) 2 in
      let quote : QuoteLevel F = record {
        side = side;
        position_side = position_side;
        level = level;
        price = price;
        amount = qty;
        notional = level_notional;
      } in
      if budget_test (λ b. lt (b * lit 105 2) level_notional && lt b q.min_notional) budget
      then break_loop
      else if lt nought qty && le q.min_notional level_notional
      then quoted quote (spend level_notional budget)
      else continue_loop

  -- One turn of the loop, at a level with its clamped price.
  pub quote_step :
      PmmQuoter F → OrderSide → PositionSide → F → F → ℕ → F → Option F → Option F → Outcome F
  unfolding quote_at
  quote_step q side position_side value limit level planned price? budget =
      if budget_test (λ b. lt b q.min_notional) budget then break_loop else elim price? [
        | none ↦ continue_loop
        | some price ↦
            if le price nought
            then continue_loop
            else quote_at q side position_side value limit level planned price budget
      ]

  -- The loop over the levels to quote, given each level's price and planned notional.
  pub quote_loop :
      PmmQuoter F
      → OrderSide
      → PositionSide
      → F
      → F
      → (ℕ → F)
      → (ℕ → Option F)
      → List ℕ
      → Option F
      → List (QuoteLevel F)
  unfolding quote_step
  quote_loop q side ps value limit planned price [] budget = []
  quote_loop q side ps value limit planned price (l ∷ ls) budget =
      elim (quote_step q side ps value limit l (planned l) (price l) budget) [
        | break_loop ↦ []
        | continue_loop ↦ quote_loop q side ps value limit planned price ls budget
        | quoted quote left ↦ quote ∷ quote_loop q side ps value limit planned price ls left
      ]

  pub bid_quotes : PmmQuoter F → QuoteInputs F → QuotePlan F → List (QuoteLevel F)
  unfolding quote_loop clamp_quote levels_to_quote_bid get_level_notional
  bid_quotes q i p =
      let price = λ (l : ℕ).
        clamp_quote q (p.ref_mid * (one - (p.s_bid_eff + lit l 0 * q.config.order_level_spread)))
          true i.smoothed_mid p.spread_floor i.best_bid i.best_ask in
      let planned =
        get_level_notional q.config p.active_sides p.side_notional_budget i.level_notionals in
      if p.long_cap_reached
      then []
      else quote_loop q buy long i.long_value_usdt q.config.max_long_usdt planned price
          (levels_to_quote_bid q.config i.long_state i.now i.mark_price i.smoothed_mid)
          p.side_notional_budget

  pub ask_quotes : PmmQuoter F → QuoteInputs F → QuotePlan F → List (QuoteLevel F)
  unfolding quote_loop clamp_quote levels_to_quote_ask get_level_notional
  ask_quotes q i p =
      let price = λ (l : ℕ).
        clamp_quote q (p.ref_mid * (one + (p.s_ask_eff + lit l 0 * q.config.order_level_spread)))
          false i.smoothed_mid p.spread_floor i.best_bid i.best_ask in
      let planned =
        get_level_notional q.config p.active_sides p.side_notional_budget i.level_notionals in
      if p.short_cap_reached
      then []
      else quote_loop q sell short i.short_value_usdt q.config.max_short_usdt planned price
          (levels_to_quote_ask q.config i.short_state i.now i.mark_price i.smoothed_mid)
          p.side_notional_budget

  -- `available_margin is not None and available_margin <= 0`
  abbrev pub margin_exhausted : Option F → Bool
  margin_exhausted none = false
  margin_exhausted (some m) = le m nought

  pub calculate_quotes : PmmQuoter F → QuoteInputs F → List (QuoteLevel F) × List (QuoteLevel F)
  unfolding plan bid_quotes ask_quotes
  calculate_quotes q i =
      let p = plan q i in
      if le i.smoothed_mid nought || (p.active_sides == 0 || margin_exhausted i.available_margin)
      then ([], [])
      else (bid_quotes q i p, ask_quotes q i p)

  -- `estimate_minimum_margin_required`
  pub estimate_minimum_margin_required : PmmQuoter F → Bool → Bool → F
  estimate_minimum_margin_required q active_long active_short =
      let active = add_ℕ (count_open (not active_long)) (count_open (not active_short)) in
      if active == 0
      then nought
      else max q.min_notional (lit 50 1) * lit active 0 / lit (leverage_or_one q.config) 0
