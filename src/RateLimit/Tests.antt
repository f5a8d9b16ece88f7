-- ===== src/RateLimit/Tests.antt =====
-- Runs of the rate limiter, and its theorems at sample inputs.
use pmm_simple.Prelude.{◌≡◌, refl, true, false, List, [], ◌∷◌}
use pmm_simple.Prelude.Int.{◌+ℤ◌, ◌-ℤ◌}
use pmm_simple.Float.Fixed.{Fixed, fixed_float, lit, mul, div}
use pmm_simple.Float.FixedLaws.{fixed_laws}
use pmm_simple.Models.Samples.{units}
use pmm_simple.RateLimit.{TokenBucket, GlobalRateLimiter, consume, try_consume}
use pmm_simple.RateLimit.Bounds.{IsWithin, consume-IsWithin}
use pmm_simple.RateLimit.Waiting.{consume_starves}

-- Ten tokens, two a second.
abbrev bucket : TokenBucket Fixed
bucket = record {
  capacity = units 10;
  tokens = units 1;
  refill_rate = units 2;
  last_update = units 100;
}

abbrev limiter : GlobalRateLimiter Fixed
limiter = record { orders_bucket = bucket; weight_bucket = bucket }

abbrev clock : List Fixed
clock = units 100 ∷ units 101 ∷ units 103 ∷ []

-- Five tokens are there at the third reading, and two are left.
waits :
    consume clock (units 5) false bucket
    ≡ (record bucket { tokens = units 2; last_update = units 103 }, true)
unfolding consume try_consume mul div lit ◌+ℤ◌ ◌-ℤ◌
waits = refl

bucket-IsWithin : IsWithin bucket
unfolding lit mul ◌-ℤ◌
bucket-IsWithin = record { above = refl; below = refl; capacity_nonneg = refl; rate_nonneg = refl }

consume-IsWithin_example : IsWithin (consume clock (units 5) true bucket).0
unfolding lit
consume-IsWithin_example =
    consume-IsWithin clock (units 5) true bucket bucket-IsWithin (refl, (refl, (refl, tt))) refl

consume_starves_example : (consume clock (units 11) false bucket).1 ≡ false
consume_starves_example = consume_starves clock (units 11) bucket refl
