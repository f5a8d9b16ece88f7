-- ===== src/RateLimit/Waiting.antt =====
-- When a call of `consume` returns at once and when it never does (app/core/ratelimit.py).
use pmm_simple.Prelude.{
  ◌≡◌, ◌≢◌, ◌∙◌, refl, Bool, true, false, none, List, [], ◌∷◌, arith, inl, inr, Option-cases,
}
use pmm_simple.Float.{Float, FloatLaws, ◌+◌, ◌-◌, ◌*◌, nought, ◌≼◌, ◌≺◌}
use pmm_simple.Float.Order
use pmm_simple.RateLimit.{TokenBucket, refill, allowance, try_consume, consume}
use pmm_simple.RateLimit.Bounds.{IsWithin, allowance-nonpos, le-refill, try_consume-clock}

module _ {F : Type 0} ⦃f : Float F⦄ ⦃laws : FloatLaws F⦄ where
  open laws use {le_refl, le_trans, sub_nonneg}

  -- A call for no more than the tokens at hand returns at the first reading of the clock, with the
  -- amount taken from the refilled tokens, and does not sleep.
  pub consume_at_once :
      (now amount : F) (later : List F) (priority : Bool) (b : TokenBucket F)
      → IsWithin b
      → b.last_update ≼ now
      → amount ≼ b.tokens
      → let b' = refill now b in
        consume (now ∷ later) amount priority b ≡ (record b' { tokens = b'.tokens - amount }, true)
  unfolding consume try_consume
  consume_at_once now amount later priority b w h k =
      let b' = refill now b in
      let enough : amount ≼ b'.tokens =
        le_trans amount b.tokens b'.tokens k (le-refill now b w h) in
      let granted : allowance priority b' ≼ b'.tokens - amount =
        le_trans (allowance priority b') nought (b'.tokens - amount)
          (allowance-nonpos priority b' w.capacity_nonneg) (sub_nonneg b'.tokens amount ∙ enough) in
      rw (granted, consume) (rw (granted, try_consume) refl)

  try_consume_refused :
      (now amount : F) (b : TokenBucket F)
      → b.capacity ≺ amount
      → (try_consume now amount false b).1 ≢ none
  unfolding try_consume
  try_consume_refused now amount b h =
      let b' = refill now b in
      ground (
        arith,
        sub_nonneg b'.tokens amount,
        le_trans amount b'.tokens b.capacity,
        Order.min-le_left b.capacity (b.tokens + (now - b.last_update) * b.refill_rate),
      )

  -- A call without priority for more than the capacity never returns, whatever the clock reads.
  pub consume_starves :
      (times : List F) (amount : F) (b : TokenBucket F)
      → b.capacity ≺ amount
      → (consume times amount false b).1 ≡ false
  unfolding consume
  consume_starves [] amount b h = refl
  consume_starves (now ∷ later) amount b h =
      let (b', wait) = try_consume now amount false b in
      elim (Option-cases wait) [
        | inl returned ↦ absurd (try_consume_refused now amount b h returned)
        | inr (t, slept) ↦
            rw (slept, consume)
              (consume_starves later amount b' (rw (try_consume-clock now amount false b).1 h))
      ]
