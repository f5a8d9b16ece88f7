-- ===== src/RateLimit.antt =====
-- app/core/ratelimit.py: token buckets with a refill over time, and the limiter that holds two of them.
-- A call of `consume` reads the clock once for each turn of its loop: the readings are a list, and
-- `none` means that the call still waits when they end. The random jitter only moves later readings.
pub mod Bounds
pub mod Waiting
mod Tests
use pmm_simple.Prelude.{
  ℕ, suc, zero, Bool, true, false, Option, none, some, List, [], ◌∷◌, if◌then◌else◌,
}
use pmm_simple.Float.{Float, ◌+◌, ◌-◌, ◌*◌, ◌/◌, nought, lit, le, min, max}

pub record TokenBucket (F : Type 0) : Type 0 where
  pub capacity : F
  pub tokens : F
  pub refill_rate : F
  pub last_update : F

pub record GlobalRateLimiter (F : Type 0) : Type 0 where
  pub orders_bucket : TokenBucket F
  pub weight_bucket : TokenBucket F

module _ {F : Type 0} ⦃f : Float F⦄ where
  -- `TokenBucket.__init__`
  abbrev pub new_bucket : F → F → F → TokenBucket F
  new_bucket now capacity rate = record {
    capacity = capacity;
    tokens = capacity;
    refill_rate = rate;
    last_update = now;
  }

  abbrev pub refill : F → TokenBucket F → TokenBucket F
  refill now b = record b {
    tokens = min b.capacity (b.tokens + (now - b.last_update) * b.refill_rate);
    last_update = now;
  }

  -- How far below zero the tokens may go: -capacity * 0.2 for a priority call.
  abbrev pub allowance : Bool → TokenBucket F → F
  allowance true b = (nought - b.capacity) * lit 2 1
  allowance false b = nought

  -- One turn of the loop: `none` is the return, `some t` a sleep of t seconds (before the jitter).
  pub try_consume : F → F → Bool → TokenBucket F → TokenBucket F × Option F
  try_consume now amount priority b =
      let b' = refill now b in
      if le (allowance priority b') (b'.tokens - amount)
      then (record b' { tokens = b'.tokens - amount }, none)
      else (b', some (max (lit 1 2) ((amount - b'.tokens) / b'.refill_rate)))

  -- The loop over clock readings: the bucket, and whether the call has returned.
  pub consume : List F → F → Bool → TokenBucket F → TokenBucket F × Bool
  consume [] amount priority b = (b, false)
  consume (now ∷ later) amount priority b =
      let (b', wait) = try_consume now amount priority b in
      elim wait [ none ↦ (b', true) | some t ↦ consume later amount priority b' ]

  abbrev pub per_minute : F → ℕ → TokenBucket F
  per_minute now n = new_bucket now (lit n 0) (lit n 0 / lit 60 0)

  -- `GlobalRateLimiter.__init__`
  pub new_limiter : F → ℕ → ℕ → GlobalRateLimiter F
  new_limiter now orders weight = record {
    orders_bucket = per_minute now orders;
    weight_bucket = per_minute now weight;
  }

  abbrev pub configured : F → Option ℕ → TokenBucket F → TokenBucket F
  configured now none b = b
  configured now (some zero) b = b
  configured now (some (suc n)) b = per_minute now (suc n)

  pub configure : F → Option ℕ → Option ℕ → GlobalRateLimiter F → GlobalRateLimiter F
  configure now orders weight l = record {
    orders_bucket = configured now orders l.orders_bucket;
    weight_bucket = configured now weight l.weight_bucket;
  }

  -- `gather` runs the two calls; each has its own lock and its own readings.
  pub acquire_order :
      List F → List F → ℕ → ℕ → Bool → GlobalRateLimiter F → GlobalRateLimiter F × Bool × Bool
  acquire_order order_times weight_times count weight priority l =
      let (o, order_done) = consume order_times (lit count 0) priority l.orders_bucket in
      let (w, weight_done) = consume weight_times (lit weight 0) priority l.weight_bucket in
      (record { orders_bucket = o; weight_bucket = w }, order_done, weight_done)

  pub acquire_weight : List F → ℕ → Bool → GlobalRateLimiter F → GlobalRateLimiter F × Bool
  acquire_weight times weight priority l =
      let (w, done) = consume times (lit weight 0) priority l.weight_bucket in
      (record l { weight_bucket = w }, done)
