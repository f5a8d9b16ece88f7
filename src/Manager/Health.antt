-- ===== src/Manager/Health.antt =====
-- The health monitor (app/core/manager.py, `_health_monitor_loop`): the account's breaker, then the loss of each pair
-- that runs. The alert on failed authentication only logs and is left out.
pub mod Halt
use pmm_simple.Prelude.{
  ℕ, zero, suc, ◌&&◌, Bool, true, false, not, Option, none, some, if◌then◌else◌,
}
use pmm_simple.Float.{Float, nought, lt}
use pmm_simple.Database.{Database}
use pmm_simple.CircuitBreaker.{CircuitBreaker, check_account_health, check_pair_loss}
use pmm_simple.Worker.Risk.{trigger_isolated_kill}
use pmm_simple.Worker.State.{Worker, WorkerState}
use pmm_simple.Manager.{Venue, Manager, for_each}
use pmm_simple.Manager.KillAll.{KillGateway, emergency_kill_all}

-- `fetch_balance` answers the wallet balance and the maintenance margin of the account, 0 where a key is missing;
-- `none` without an exchange, or where it raises.
pub record HealthFeed (W F : Type 0) : Type 0 where
  pub fetch_balance : W → W × Option (F × F)
  pub database : W → Database F
  pub sleep_ten : W → W

module _ {F : Type 0} ⦃f : Float F⦄ where
  -- The balance and the margin of the check, where they are known.
  unfoldable pub figures : Option (F × F) → Option F × Option F
  figures none = (none, none)
  figures (some (balance, margin)) =
      let known = lt nought balance in
      (
        if known then some balance else none,
        if lt nought margin then some margin else if known then some nought else none,
      )

module _ {W F : Type 0} ⦃f : Float F⦄ where
  -- A pair that runs unlocked is killed on its own where its loss is too large.
  unfoldable pub check_pair :
      Venue W F → HealthFeed W F → CircuitBreaker F → Worker W F → WorkerState W F → WorkerState W F
  check_pair v h cb x s =
      let loss = check_pair_loss (v.time s.world) (h.database s.world) s.config cb in
      if (s.running && not s.is_locked_killed) && loss.0 then trigger_isolated_kill x s else s

  -- The manager after the account's check, and whether it tripped.
  unfoldable pub check_account : Venue W F → HealthFeed W F → Manager W F → Manager W F × Bool
  check_account v h m =
      let (w, raw) = h.fetch_balance m.world in
      let known = figures raw in
      let r = check_account_health (v.time w) (h.database w) known.0 known.1 m.breaker in
      (record m { world = w; breaker = r.0 }, r.1)

  -- One round, and whether the loop goes on.
  unfoldable pub health_step :
      Venue W F → KillGateway W F → HealthFeed W F → Manager W F → Manager W F × Bool
  health_step v g h m =
      let (checked, tripped) = check_account v h m in
      if tripped
      then ((emergency_kill_all v g checked).0, false)
      else (for_each (check_pair v h checked.breaker) checked, true)

  -- Rounds of the loop, with the pause between them.
  unfoldable pub health_loop :
      ℕ → Venue W F → KillGateway W F → HealthFeed W F → Manager W F → Manager W F
  health_loop zero v g h m = m
  health_loop (suc n) v g h m =
      let (m', go) = health_step v g h m in
      let rest = health_loop n v g h (record m' { world = h.sleep_ten m'.world }) in
      if go then rest else m'
