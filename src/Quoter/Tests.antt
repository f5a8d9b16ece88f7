-- ===== src/Quoter/Tests.antt =====
-- Runs of the quoter, and its theorems at sample inputs.
use pmm_simple.Prelude.{◌≡◌, refl, false, some, none, [], ◌∷◌, map}
use pmm_simple.Prelude.Int.{◌+ℤ◌, ◌-ℤ◌, pos}
use pmm_simple.Float.Fixed.{Fixed, fixed_float, lit, mul, div, floor, ceil, round}
use pmm_simple.Float.FixedLaws.{fixed_laws}
use pmm_simple.Models.State.{SidePositionState, PositionSide}
use pmm_simple.Models.Samples.{sample_config, units, mills}
use pmm_simple.Quoter.Pricing.{PmmQuoter}
use pmm_simple.Tracker.{new_slot}
use pmm_simple.Quoter.{QuoteLevel, QuoteInputs, calculate_quotes}

abbrev quoter : PmmQuoter Fixed
quoter = record {
  config = sample_config;
  price_precision = 2;
  amount_precision = 2;
  tick_size = mills 10;
  step_size = mills 10;
  maker_fee_pct = pos 200_000;
  min_amount = mills 10;
  min_notional = units 5;
}

abbrev slot : PositionSide → SidePositionState Fixed
slot side = record (new_slot "SOL/USDT:USDT" 5 side) {
  amount = mills 200;
  entry_price = units 100;
  filled_levels_count = 1;
  next_allowed_level_time = units 1000;
}

abbrev inputs : QuoteInputs Fixed
inputs = record {
  smoothed_mid = units 100;
  long_value_usdt = units 0;
  short_value_usdt = units 0;
  vol_mult = units 1;
  pause_long_entry = false;
  pause_short_entry = false;
  best_bid = some (pos 99_990_000_000);
  best_ask = some (pos 100_010_000_000);
  available_margin = some (units 40);
  long_state = none;
  short_state = none;
  now = units 2000;
  mark_price = some (units 99);
  trend_bias_regime = "NEUTRAL";
  level_notionals = none;
}

-- Three bids, at falling prices, and three asks, of falling sizes.
quotes_run :
    (map (λ (x : QuoteLevel Fixed). x.price) (calculate_quotes quoter inputs).0
      ≡ pos 99_650_000_000 ∷ pos 99_400_000_000 ∷ pos 99_150_000_000 ∷ [])
    × (map (λ (x : QuoteLevel Fixed). x.amount) (calculate_quotes quoter inputs).1
        ≡ mills 260 ∷ mills 150 ∷ mills 100 ∷ [])
unfolding calculate_quotes lit mul div floor ceil round ◌+ℤ◌ ◌-ℤ◌
quotes_run = (refl, refl)
