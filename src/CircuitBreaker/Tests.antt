-- ===== src/CircuitBreaker/Tests.antt =====
-- Runs of the breakers, and their theorems at sample inputs.
use pmm_simple.Prelude.{◌≡◌, refl, true, false, [], ◌∷◌, none}
use pmm_simple.Prelude.Int.{negsuc}
use pmm_simple.Float.Fixed.{Fixed, fixed_float}
use pmm_simple.Float.FixedLaws.{fixed_laws}
use pmm_simple.Models.State.{FillRecord, long, sell}
use pmm_simple.Models.Samples.{sample_config, sample_global, sample_fill, units}
use pmm_simple.Database.{Database}
use pmm_simple.CircuitBreaker.{
  CircuitBreaker, no_reason, check_account_health, check_pair_loss, reset,
}
use pmm_simple.CircuitBreaker.Safety.{reset_forgets}

abbrev breaker : CircuitBreaker Fixed
breaker = record {
  global_config = sample_global;
  tripped = false;
  trip_reason = no_reason;
  trip_time = units 0;
  reset_timestamp = units 0;
  last_day_boundary = units 0;
}

abbrev loss_of : Fixed → FillRecord Fixed
loss_of x = record (sample_fill "z" sell long (units 1)) { realized_pnl = x; fee = units 0 }

abbrev db : Database Fixed
db = record { connected = true; fills = loss_of (negsuc 24_999_999_999) ∷ [] }

reset_forgets_example :
    let more = record db { fills = loss_of (negsuc 24_999_999_999) ∷ db.fills } in
    (check_account_health (units 9000) more none none (reset (units 8000) breaker)
      ≡ check_account_health (units 9000) db none none (reset (units 8000) breaker))
    × (check_pair_loss (units 9000) more sample_config (reset (units 8000) breaker)
        ≡ check_pair_loss (units 9000) db sample_config (reset (units 8000) breaker))
reset_forgets_example =
    reset_forgets (units 9000) (units 8000) (loss_of (negsuc 24_999_999_999)) db none none
      sample_config breaker refl
