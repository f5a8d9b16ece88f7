-- ===== src/Manager/Health/Halt.antt =====
-- What a trip of the account's breaker does to the manager (app/core/manager.py, `_health_monitor_loop`,
-- `start_pair` and `start_all`).
use mathlib.Core.Path.{subst}
use pmm_simple.Prelude.{
  ℕ, suc, ◌≡◌, refl, sym, ◌∙◌, true, false, Option, String, Bool-cases, inl, inr, if_true,
}
use pmm_simple.Float.{Float}
use pmm_simple.Database.{Database}
use pmm_simple.CircuitBreaker.{CircuitBreaker, check_account_health}
use pmm_simple.CircuitBreaker.Latch.{check_tripped}
use pmm_simple.CircuitBreaker.Safety.{check_account_health_consistent}
use pmm_simple.Manager.{Venue, Manager, start_pair, start_all, start_enabled, for_each}
use pmm_simple.Manager.KillAll.{KillGateway, emergency_kill_all}
use pmm_simple.Manager.KillAll.Outcome.{AreStopped, emergency_kill_all-KillOutcome}
use pmm_simple.Manager.Health.{HealthFeed, figures, check_account, health_step, health_loop}

module _ {F : Type 0} ⦃f : Float F⦄ where
  -- A check that stops leaves a tripped breaker.
  check_account_health-trips :
      (now : F) (db : Database F) (balance margin : Option F) (cb : CircuitBreaker F)
      → (check_account_health now db balance margin cb).1 ≡ true
      → (check_account_health now db balance margin cb).0.tripped ≡ true
  check_account_health-trips now db balance margin cb h = elim (Bool-cases cb.tripped) [
    | inl was ↦ rw (check_tripped now db balance margin cb was) was
    | inr not_yet ↦ (check_account_health_consistent now db balance margin cb not_yet).0 ∙ h
  ]

module _ {W F : Type 0} ⦃f : Float F⦄ (v : Venue W F) where
  -- The manager refuses to start anything.
  pub record IsHalted (m : Manager W F) : Type 0 where
    pub latched : m.breaker.tripped ≡ true
    pub none_runs : AreStopped m
    pub starts_no_pair : (symbol : String) → start_pair v symbol m ≡ (m, false)
    pub starts_nothing : start_all v m ≡ m

  pub start_pair_tripped :
      (symbol : String) (m : Manager W F)
      → m.breaker.tripped ≡ true
      → start_pair v symbol m ≡ (m, false)
  unfolding start_pair
  start_pair_tripped symbol m h = rw h refl

  start_all_tripped : (m : Manager W F) → m.breaker.tripped ≡ true → start_all v m ≡ m
  unfolding start_all
  start_all_tripped m h =
      if_true (λ r. r ≡ m) m.breaker.tripped m (for_each (start_enabled v) m) h refl

  module _ (g : KillGateway W F) (h : HealthFeed W F) where
    check_account-trips :
        (m : Manager W F)
        → (check_account v h m).1 ≡ true
        → (check_account v h m).0.breaker.tripped ≡ true
    unfolding check_account
    check_account-trips m e =
        let (w, raw) = h.fetch_balance m.world in
        check_account_health-trips (v.time w) (h.database w) (figures raw).0 (figures raw).1
          m.breaker e

    killed-IsHalted :
        (m : Manager W F) → m.breaker.tripped ≡ true → IsHalted (emergency_kill_all v g m).0
    killed-IsHalted m e =
        let out = emergency_kill_all-KillOutcome v g m in
        let m' = (emergency_kill_all v g m).0 in
        let latched : m'.breaker.tripped ≡ true = rw out.same_breaker e in
        record {
          latched = latched;
          none_runs = out.none_runs;
          starts_no_pair = λ symbol. start_pair_tripped symbol m' latched;
          starts_nothing = start_all_tripped m' latched;
        }

    pub step_tripped :
        (m : Manager W F)
        → (check_account v h m).1 ≡ true
        → health_step v g h m ≡ ((emergency_kill_all v g (check_account v h m).0).0, false)
    unfolding health_step
    step_tripped m e = rw e refl

    step_passed :
        (m : Manager W F) → (check_account v h m).1 ≡ false → (health_step v g h m).1 ≡ true
    unfolding health_step
    step_passed m e = rw e refl

    loop_ends :
        (m : Manager W F) (rounds : ℕ)
        → (health_step v g h m).1 ≡ false
        → health_loop (suc rounds) v g h m ≡ (health_step v g h m).0
    unfolding health_loop
    loop_ends m rounds e = rw e refl

    -- A round of the health monitor that ends the loop leaves the manager halted: the breaker is tripped, no
    -- worker runs, and neither `start_pair`, for any symbol, nor `start_all` changes anything. The loop then
    -- makes no further round, however many it was given.
    pub health_step-IsHalted :
        (m : Manager W F)
        → (health_step v g h m).1 ≡ false
        → IsHalted (health_step v g h m).0
          × ((rounds : ℕ) → health_loop (suc rounds) v g h m ≡ (health_step v g h m).0)
    health_step-IsHalted m e = elim (Bool-cases (check_account v h m).1) [
      | inl tripped ↦
          let checked = (check_account v h m).0 in
          let halted = killed-IsHalted checked (check_account-trips m tripped) in
          (
            subst (λ r. IsHalted r.0) (sym (step_tripped m tripped)) halted,
            λ rounds. loop_ends m rounds e,
          )
      | inr passed ↦ let on = step_passed m passed in cc
    ]
