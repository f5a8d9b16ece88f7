-- ===== src/RateLimit/Bounds.antt =====
-- No bucket holds more than its capacity or is overdrawn beyond its allowance (app/core/ratelimit.py).
use pmm_simple.Prelude.{
  ℕ, ◌≡◌, Bool, true, false, none, List, [], ◌∷◌, arith, Bool-cases, Option-cases, inl, inr,
}
use pmm_simple.Float.{Float, FloatLaws, ◌+◌, ◌-◌, ◌*◌, nought, lit, le, ◌≼◌}
use pmm_simple.Float.Order
use pmm_simple.RateLimit.{
  TokenBucket, GlobalRateLimiter, refill, allowance, try_consume, consume, acquire_order,
}

module _ {F : Type 0} ⦃f : Float F⦄ where
  -- The tokens lie between the allowance for priority calls and the capacity.
  pub record IsWithin (b : TokenBucket F) : Type 0 where
    pub above : allowance true b ≼ b.tokens
    pub below : b.tokens ≼ b.capacity
    pub capacity_nonneg : nought ≼ b.capacity
    pub rate_nonneg : nought ≼ b.refill_rate

  pub record IsWithinLimiter (l : GlobalRateLimiter F) : Type 0 where
    pub orders : IsWithin l.orders_bucket
    pub weight : IsWithin l.weight_bucket

  -- Readings of a clock that does not run backwards, the first at `last` or later.
  abbrev pub IsClock : F → List F → Type 0
  IsClock last [] = Unit
  IsClock last (now ∷ later) = (last ≼ now) × IsClock now later

  module _ ⦃laws : FloatLaws F⦄ where
    open laws use {le_refl, le_trans, lit_le, sub_nonneg, sub_le, sub_zero, mul_nonpos}

    neg-nonpos : (x : F) → nought ≼ x → nought - x ≼ nought
    neg-nonpos x h = ground (arith, laws.sub_nonpos nought x)

    pub allowance-nonpos :
        (priority : Bool) (b : TokenBucket F) → nought ≼ b.capacity → allowance priority b ≼ nought
    allowance-nonpos true b h =
        mul_nonpos (nought - b.capacity) (lit 2 1) (neg-nonpos b.capacity h)
          (lit_le 0 0 2 1 (omega arith))
    allowance-nonpos false b h = le_refl nought

    pub le-refill :
        (now : F) (b : TokenBucket F)
        → IsWithin b
        → b.last_update ≼ now
        → b.tokens ≼ (refill now b).tokens
    le-refill now b w h =
        let gain : nought ≼ (now - b.last_update) * b.refill_rate =
          Order.mul_nonneg (now - b.last_update) b.refill_rate
            (ground (arith, sub_nonneg now b.last_update)) w.rate_nonneg in
        Order.le-min b.capacity (b.tokens + (now - b.last_update) * b.refill_rate) b.tokens w.below
          (Order.le-add_right b.tokens ((now - b.last_update) * b.refill_rate) gain)

    refill-IsWithin :
        (now : F) (b : TokenBucket F) → IsWithin b → b.last_update ≼ now → IsWithin (refill now b)
    refill-IsWithin now b w h = record {
      above =
          le_trans (allowance true b) b.tokens (refill now b).tokens w.above (le-refill now b w h);
      below = Order.min-le_left b.capacity (b.tokens + (now - b.last_update) * b.refill_rate);
      capacity_nonneg = w.capacity_nonneg;
      rate_nonneg = w.rate_nonneg;
    }

    le-allowance :
        (priority : Bool) (b : TokenBucket F) (x : F)
        → nought ≼ b.capacity
        → allowance priority b ≼ x
        → allowance true b ≼ x
    le-allowance true b x h k = k
    le-allowance false b x h k = le_trans (allowance true b) nought x (allowance-nonpos true b h) k

    try_consume-IsWithin :
        (now amount : F) (priority : Bool) (b : TokenBucket F)
        → IsWithin b
        → b.last_update ≼ now
        → nought ≼ amount
        → IsWithin (try_consume now amount priority b).0
    unfolding try_consume
    try_consume-IsWithin now amount priority b w h k =
        let b' = refill now b in
        let w' = refill-IsWithin now b w h in
        elim (Bool-cases (le (allowance priority b') (b'.tokens - amount))) [
          | inl granted ↦ rw granted (record {
            above = le-allowance priority b' (b'.tokens - amount) w.capacity_nonneg granted;
            below =
                le_trans (b'.tokens - amount) b'.tokens b'.capacity
                  (Order.sub-le_self b'.tokens amount k) w'.below;
            capacity_nonneg = w.capacity_nonneg;
            rate_nonneg = w.rate_nonneg;
          })
          | inr saturated ↦ rw saturated w'
        ]

    pub try_consume-clock :
        (now amount : F) (priority : Bool) (b : TokenBucket F)
        → ((try_consume now amount priority b).0.last_update ≡ now)
          × ((try_consume now amount priority b).0.capacity ≡ b.capacity)
    unfolding try_consume
    try_consume-clock now amount priority b = ground arith

    -- Whatever the clock readings, a call of `consume` for an amount that is not negative leaves the
    -- tokens between -20% of the capacity and the capacity, if they lay there before.
    pub consume-IsWithin :
        (times : List F) (amount : F) (priority : Bool) (b : TokenBucket F)
        → IsWithin b
        → IsClock b.last_update times
        → nought ≼ amount
        → IsWithin (consume times amount priority b).0
    unfolding consume
    consume-IsWithin [] amount priority b w c k = w
    consume-IsWithin (now ∷ later) amount priority b w c k =
        let (b', wait) = try_consume now amount priority b in
        let w' = try_consume-IsWithin now amount priority b w c.0 k in
        elim (Option-cases wait) [
          | inl returned ↦ rw (returned, consume) w'
          | inr (t, slept) ↦
              rw (slept, consume)
                (consume-IsWithin later amount priority b' w'
                  (rw ((try_consume-clock now amount priority b).0) c.1) k)
        ]

    try_consume-covered :
        (now amount : F) (b : TokenBucket F)
        → (try_consume now amount false b).1 ≡ none
        → nought ≼ (try_consume now amount false b).0.tokens
    unfolding try_consume
    try_consume-covered now amount b h = ground arith

    -- A call without priority that has returned has not overdrawn the bucket.
    pub consume_covered :
        (times : List F) (amount : F) (b : TokenBucket F)
        → (consume times amount false b).1 ≡ true
        → nought ≼ (consume times amount false b).0.tokens
    unfolding consume
    consume_covered [] amount b h = absurd (cc)
    consume_covered (now ∷ later) amount b h =
        let (b', wait) = try_consume now amount false b in
        elim (Option-cases wait) [
          | inl returned ↦ rw (returned, consume) (try_consume-covered now amount b returned)
          | inr (t, slept) ↦
              rw (slept, consume) (consume_covered later amount b' (rw (slept, consume) at h))
        ]

    -- An order request keeps both buckets in their bounds, whenever its two calls return.
    pub acquire_order-IsWithin :
        (order_times weight_times : List F) (count weight : ℕ) (priority : Bool)
        (l : GlobalRateLimiter F)
        → IsWithinLimiter l
        → IsClock l.orders_bucket.last_update order_times
        → IsClock l.weight_bucket.last_update weight_times
        → IsWithinLimiter (acquire_order order_times weight_times count weight priority l).0
    unfolding acquire_order
    acquire_order-IsWithin ot wt count weight priority l w co cw = record {
      orders =
          consume-IsWithin ot (lit count 0) priority l.orders_bucket w.orders co
            (lit_le 0 0 count 0 (omega arith));
      weight =
          consume-IsWithin wt (lit weight 0) priority l.weight_bucket w.weight cw
            (lit_le 0 0 weight 0 (omega arith));
    }
