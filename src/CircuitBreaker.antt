-- ===== src/CircuitBreaker.antt =====
-- app/core/circuit_breaker.py: the account breaker (daily loss and margin ratio) and the daily loss of a
-- pair. `now` is the clock; the reason is kept as the figures that the message prints.
pub mod Latch
pub mod Safety
mod Tests
use pmm_simple.Prelude.{Bool, true, false, ◌&&◌, Option, none, some, String, if◌then◌else◌}
use pmm_simple.Float.{Float, ◌-◌, ◌/◌, nought, lit, le, lt, max, abs}
use pmm_simple.Models.Config.{PairConfig, GlobalConfig}
use pmm_simple.Database.{Database, get_pnl_summary}

-- `no_reason` is the empty text, and `ok` the answer "OK".
pub data Reason (F : Type 0) : Type 0 where
  no_reason ok : Reason F
  daily_loss : F → F → Reason F
  margin_ratio : F → F → Reason F
  pair_loss : String → F → F → Reason F

pub record CircuitBreaker (F : Type 0) : Type 0 where
  pub global_config : GlobalConfig F
  pub tripped : Bool
  pub trip_reason : Reason F
  pub trip_time : F
  pub reset_timestamp : F
  pub last_day_boundary : F

module _ {F : Type 0} ⦃f : Float F⦄ where
  pub utc_day_start : F → F
  utc_day_start now = now - f.fmod now (lit 86400 0)

  -- `__init__`
  pub new_breaker : F → GlobalConfig F → CircuitBreaker F
  unfolding utc_day_start
  new_breaker now g = record {
    global_config = g;
    tripped = false;
    trip_reason = no_reason;
    trip_time = nought;
    reset_timestamp = nought;
    last_day_boundary = utc_day_start now;
  }

  pub reset : F → CircuitBreaker F → CircuitBreaker F
  reset now cb = record cb {
    tripped = false;
    trip_reason = no_reason;
    trip_time = nought;
    reset_timestamp = now;
  }

  abbrev trip : F → Reason F → CircuitBreaker F → CircuitBreaker F
  trip now reason cb = record cb { tripped = true; trip_reason = reason; trip_time = now }

  -- A loss limit that is set, a negative result, and a loss of at least the limit.
  pub loss_exceeded : F → F → Bool
  loss_exceeded limit pnl = lt nought limit && lt pnl nought && le limit (abs pnl)

  pub roll_day : F → CircuitBreaker F → CircuitBreaker F
  roll_day start cb =
      if lt cb.last_day_boundary start then record cb { last_day_boundary = start } else cb

  pub since_timestamp : F → CircuitBreaker F → F
  unfolding utc_day_start
  since_timestamp now cb = max (utc_day_start now) cb.reset_timestamp

  -- The margin part of the check, on a breaker that the loss part let pass.
  pub check_margin : F → Option F → Option F → CircuitBreaker F → CircuitBreaker F × Bool × Reason F
  check_margin now (some balance) (some margin) cb =
      let reason = margin_ratio (balance / margin) cb.global_config.kill_margin_ratio in
      if (lt nought margin && lt nought balance)
        && lt (balance / margin) cb.global_config.kill_margin_ratio
      then (trip now reason cb, true, reason)
      else (cb, false, ok)
  check_margin now _ _ cb = (cb, false, ok)

  pub check_account_health :
      F → Database F → Option F → Option F → CircuitBreaker F → CircuitBreaker F × Bool × Reason F
  unfolding utc_day_start roll_day since_timestamp loss_exceeded
  check_account_health now db balance margin cb =
      let cb' = roll_day (utc_day_start now) cb in
      let pnl = (get_pnl_summary (since_timestamp now cb) none db).total_net_pnl in
      let limit = cb.global_config.account_daily_loss_limit_usdt in
      if cb.tripped
      then (cb, true, cb.trip_reason)
      else if loss_exceeded limit pnl
      then (trip now (daily_loss pnl limit) cb', true, daily_loss pnl limit)
      else check_margin now balance margin cb'

  pub check_pair_loss : F → Database F → PairConfig F → CircuitBreaker F → Bool × Reason F
  unfolding since_timestamp loss_exceeded
  check_pair_loss now db config cb =
      let pnl = (get_pnl_summary (since_timestamp now cb) (some config.symbol) db).total_net_pnl in
      if loss_exceeded config.daily_loss_limit_usdt pnl
      then (true, pair_loss config.symbol pnl config.daily_loss_limit_usdt)
      else (false, ok)
