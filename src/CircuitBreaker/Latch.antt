-- ===== src/CircuitBreaker/Latch.antt =====
-- A tripped breaker stays tripped until it is reset (app/core/circuit_breaker.py).
use pmm_simple.Prelude.{◌≡◌, ◌∙◌, ap, Bool, true, Option, List, [], ◌∷◌, arith}
use pmm_simple.Float.{Float}
use pmm_simple.Database.{Database}
use pmm_simple.CircuitBreaker.{CircuitBreaker, Reason, check_account_health}

-- The arguments of one health check.
pub record Check (F : Type 0) : Type 0 where
  pub now : F
  pub db : Database F
  pub balance : Option F
  pub margin : Option F

module _ {F : Type 0} ⦃f : Float F⦄ where
  pub run_checks : List (Check F) → CircuitBreaker F → CircuitBreaker F
  run_checks [] cb = cb
  run_checks (c ∷ cs) cb = run_checks cs (check_account_health c.now c.db c.balance c.margin cb).0

  pub check_tripped :
      (now : F) (db : Database F) (balance margin : Option F) (cb : CircuitBreaker F)
      → cb.tripped ≡ true
      → check_account_health now db balance margin cb ≡ (cb, true, cb.trip_reason)
  unfolding check_account_health
  check_tripped now db balance margin cb h = ground arith

  -- Once tripped, any series of checks, with any figures at any time, leaves the breaker exactly as it
  -- is, and every further check reports the first reason.
  pub run_checks_latched :
      (checks : List (Check F)) (last : Check F) (cb : CircuitBreaker F)
      → cb.tripped ≡ true
      → check_account_health last.now last.db last.balance last.margin (run_checks checks cb)
        ≡ (cb, true, cb.trip_reason)
  unfolding run_checks
  run_checks_latched [] last cb h = check_tripped last.now last.db last.balance last.margin cb h
  run_checks_latched (c ∷ cs) last cb h =
      ap
        (λ (u : CircuitBreaker F).
          check_account_health last.now last.db last.balance last.margin (run_checks cs u))
        (ap (λ (r : CircuitBreaker F × Bool × Reason F). r.0)
          (check_tripped c.now c.db c.balance c.margin cb h))
      ∙ run_checks_latched cs last cb h
