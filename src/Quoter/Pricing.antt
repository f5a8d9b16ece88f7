-- ===== src/Quoter/Pricing.antt =====
-- app/core/quoter.py: ticks, the spread floor and the clamping of quote prices.
pub mod Bounds
use pmm_simple.Prelude.{ℕ, Bool, true, false, ◌&&◌, Option, none, some, if◌then◌else◌}
use pmm_simple.Float.{Float, ◌+◌, ◌-◌, ◌*◌, ◌/◌, nought, lit, le, lt, min, max}
use pmm_simple.Models.Config.{PairConfig}

pub record PmmQuoter (F : Type 0) : Type 0 where
  pub config : PairConfig F
  pub price_precision : ℕ
  pub amount_precision : ℕ
  pub tick_size : F
  pub step_size : F
  pub maker_fee_pct : F
  pub min_amount : F
  pub min_notional : F

module _ {F : Type 0} ⦃f : Float F⦄ where
  -- `__init__`
  unfoldable pub new_quoter : PairConfig F → ℕ → ℕ → F → F → F → F → F → PmmQuoter F
  new_quoter c price_precision amount_precision tick step fee min_amount min_notional = record {
    config = c;
    price_precision = price_precision;
    amount_precision = amount_precision;
    tick_size = tick;
    step_size = step;
    maker_fee_pct = fee;
    min_amount = min_amount;
    min_notional = max min_notional (lit 50 1);
  }

  -- `is_bid` is `some true`, `is_ask` `some false`, and `none` rounds to the nearest tick.
  unfoldable pub ticks : Option Bool → F → F
  ticks (some true) x = f.floor (x + lit 1 9)
  ticks (some false) x = f.ceil (x - lit 1 9)
  ticks none x = f.round x 0

  unfoldable pub quantize_price : PmmQuoter F → Option Bool → F → F
  unfolding ticks
  quantize_price q is_bid price =
      if le q.tick_size nought
      then f.round price q.price_precision
      else f.round (ticks is_bid (price / q.tick_size) * q.tick_size) q.price_precision

  unfoldable pub quantize_amount : PmmQuoter F → F → F
  quantize_amount q amount =
      if le q.step_size nought
      then f.round amount q.amount_precision
      else f.round (f.floor (amount / q.step_size + lit 1 9) * q.step_size) q.amount_precision

  unfoldable pub calculate_spread_floor : PmmQuoter F → F → F
  calculate_spread_floor q mid =
      let tick_pct = if lt nought mid then q.tick_size / mid else lit 1 4 in
      let fee_buffer = max (lit 15 4) q.config.minimum_spread in
      max (lit 25 4) (lit 20 1 * tick_pct + lit 20 1 * q.maker_fee_pct + fee_buffer)

  abbrev pub half_spread : PmmQuoter F → F → F → F
  half_spread q mid spread_floor = max (spread_floor / lit 20 1 * mid) q.tick_size

  -- `x is not None and x > 0`
  abbrev pub positive : Option F → Option F
  positive none = none
  positive (some x) = if lt nought x then some x else none

  unfoldable pub max_allowed_bid : PmmQuoter F → F → F → Option F → Option F → F
  unfolding quantize_price
  max_allowed_bid q mid spread_floor best_bid best_ask =
      let down = quantize_price q (some true) in
      let half = down (mid - half_spread q mid spread_floor) in
      let below_mid = if le mid half then down (mid - q.tick_size) else half in
      let below_ask : F = elim (positive best_ask) [
        | none ↦ below_mid
        | some ask ↦ min below_mid (down (ask - q.tick_size))
      ] in
      elim (positive best_bid) [ none ↦ below_ask | some bid ↦ min below_ask (down bid) ]

  unfoldable pub min_allowed_ask : PmmQuoter F → F → F → Option F → Option F → F
  unfolding quantize_price
  min_allowed_ask q mid spread_floor best_bid best_ask =
      let up = quantize_price q (some false) in
      let half = up (mid + half_spread q mid spread_floor) in
      let above_mid = if le half mid then up (mid + q.tick_size) else half in
      let above_bid : F = elim (positive best_bid) [
        | none ↦ above_mid
        | some bid ↦ max above_mid (up (bid + q.tick_size))
      ] in
      elim (positive best_ask) [ none ↦ above_bid | some ask ↦ max above_bid (up ask) ]

  unfoldable pub clamp_bid : PmmQuoter F → F → F → F → Option F → Option F → Option F
  unfolding max_allowed_bid quantize_price
  clamp_bid q raw mid spread_floor best_bid best_ask =
      let top = max_allowed_bid q mid spread_floor best_bid best_ask in
      let floor = q.config.price_floor in
      let clamped = min (quantize_price q (some true) raw) top in
      let floored = if lt nought floor then min (max floor clamped) top else clamped in
      if lt nought floor && lt top floor then none else some (quantize_price q (some true) floored)

  unfoldable pub clamp_ask : PmmQuoter F → F → F → F → Option F → Option F → Option F
  unfolding min_allowed_ask quantize_price
  clamp_ask q raw mid spread_floor best_bid best_ask =
      let bottom = min_allowed_ask q mid spread_floor best_bid best_ask in
      let ceiling = q.config.price_ceiling in
      let clamped = max (quantize_price q (some false) raw) bottom in
      let capped = if lt nought ceiling then max (min ceiling clamped) bottom else clamped in
      if lt nought ceiling && lt ceiling bottom
      then none
      else some (quantize_price q (some false) capped)

  unfoldable pub clamp_quote : PmmQuoter F → F → Bool → F → F → Option F → Option F → Option F
  unfolding clamp_bid clamp_ask
  clamp_quote q raw true mid spread_floor best_bid best_ask =
      clamp_bid q raw mid spread_floor best_bid best_ask
  clamp_quote q raw false mid spread_floor best_bid best_ask =
      clamp_ask q raw mid spread_floor best_bid best_ask
