-- ===== src/MarketState/Tests.antt =====
-- Runs of the market state, and its theorems at sample inputs.
use pmm_simple.Prelude.{All, ◌≡◌, refl, false, some, none, List, [], ◌∷◌}
use pmm_simple.Prelude.Int.{◌+ℤ◌, ◌-ℤ◌, pos}
use pmm_simple.Float.{◌-◌, ◌≼◌, ◌≺◌, nought, one}
use pmm_simple.Float.Fixed.{Fixed, fixed_float, lit, mul, div}
use pmm_simple.Float.FixedLaws.{fixed_laws}
use pmm_simple.Models.Samples.{sample_config, units}
use pmm_simple.MarketState.{
  tracked_price, Sample, MarketState, new_market_state, update_top_of_book, check_circuit_breaker,
  evict, prices, recent_prices, get_volatility_multiplier, check_market_sanity,
}
use pmm_simple.MarketState.Windows.{
  IsWindow, evict-recent_prices, update_top_of_book-IsWindow, get_volatility_multiplier_bounds,
}
use pmm_simple.MarketState.Sanity.{IsSane, check_market_sanity-IsSane}

abbrev history : List (Sample Fixed)
history =
    record { at = units 900; price = units 100 }
    ∷ record { at = units 950; price = units 101 }
    ∷ record { at = units 980; price = units 102 }
    ∷ []

abbrev quiet : MarketState Fixed
quiet =
    update_top_of_book (units 1000) (pos 99_990_000_000) (pos 100_010_000_000) (some (units 100))
      (new_market_state sample_config)

abbrev moved : MarketState Fixed
moved = record (new_market_state sample_config) { price_history_60s = history }

-- The oldest price is evicted; a rise of 1% in the rest is below the threshold of 1.2%.
breaker_run :
    (prices (evict (units 1000) (units 60) history) ≡ units 101 ∷ units 102 ∷ [])
    × ((check_circuit_breaker (units 1000) moved).1 ≡ false)
unfolding check_circuit_breaker new_market_state lit mul div ◌+ℤ◌ ◌-ℤ◌
breaker_run = (refl, refl)

evict-recent_prices_example :
    prices (evict (units 1000) (units 60) history) ≡ recent_prices (units 1000) (units 60) history
evict-recent_prices_example =
    evict-recent_prices (units 1000) (units 60) history ((refl, (refl, tt)), ((refl, tt), (tt, tt)))

update_top_of_book-IsWindow_example :
    let m' = update_top_of_book (units 1000) (units 99) (units 101) none moved in
    IsWindow (units 1000) m'
    × (nought ≺ tracked_price (units 99) (units 101) none
        → All
            (λ (q : Sample Fixed). (units 1000 - q.at) ≼ moved.config.circuit_breaker_lookback_sec)
            m'.price_history_60s)
unfolding new_market_state
update_top_of_book-IsWindow_example =
    update_top_of_book-IsWindow (units 1000) (units 99) (units 101) none moved (record {
      sorted = ((refl, (refl, tt)), ((refl, tt), (tt, tt)));
      past = (refl, (refl, (refl, tt)));
    })

get_volatility_multiplier_bounds_example :
    (one ≼ get_volatility_multiplier (λ x. x) (units 1000) quiet)
    × (get_volatility_multiplier (λ x. x) (units 1000) quiet ≼ units 4)
unfolding lit
get_volatility_multiplier_bounds_example =
    get_volatility_multiplier_bounds (λ x. x) (units 1000) quiet

check_market_sanity-IsSane_example : IsSane (units 1000) quiet
unfolding check_market_sanity update_top_of_book new_market_state lit mul div ◌+ℤ◌ ◌-ℤ◌
check_market_sanity-IsSane_example = check_market_sanity-IsSane (units 1000) quiet refl
