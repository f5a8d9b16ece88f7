-- ===== src/CircuitBreaker/Safety.antt =====
-- What a passed check guarantees, and what a reset forgets (app/core/circuit_breaker.py).
use pmm_simple.Prelude.{if◌then◌else◌, ◌≡◌, refl, false, Option, none, some, ◌∷◌, String, arith}
use pmm_simple.Float.{Float, FloatLaws, ◌-◌, ◌/◌, nought, max, ◌≼◌, ◌≺◌}
use pmm_simple.Float.Order
use pmm_simple.Models.Config.{PairConfig}
use pmm_simple.Models.State.{FillRecord}
use pmm_simple.Database.{Database, get_pnl_summary}
use pmm_simple.Database.Sums.{get_pnl_summary_older}
use pmm_simple.CircuitBreaker.{
  CircuitBreaker, ok, check_account_health, check_pair_loss, check_margin, loss_exceeded,
  since_timestamp, roll_day, utc_day_start, reset,
}

module _ {F : Type 0} ⦃f : Float F⦄ where
  -- The breaker and the answer of a check agree: it answers that trading must stop just when the breaker
  -- it leaves is tripped, with the reason that the breaker keeps, else "OK"; and only a reset moves the
  -- reset time.
  pub check_account_health_consistent :
      (now : F) (db : Database F) (balance margin : Option F) (cb : CircuitBreaker F)
      → cb.tripped ≡ false
      → let (cb', stop, reason) = check_account_health now db balance margin cb in
        (cb'.tripped ≡ stop)
        × (reason ≡ (if stop then cb'.trip_reason else ok))
        × (cb'.reset_timestamp ≡ cb.reset_timestamp)
  unfolding check_account_health check_margin
  check_account_health_consistent now db (some b) (some m) cb h = ground arith
  check_account_health_consistent now db b m cb h = ground arith

  module _ ⦃laws : FloatLaws F⦄ where
    open laws use {le_refl, le_trans}

    loss_within :
        (limit pnl : F) → nought ≺ limit → loss_exceeded limit pnl ≡ false → nought - pnl ≺ limit
    unfolding loss_exceeded
    loss_within limit pnl h e =
        ground (arith, laws.sub_nonpos nought pnl, Order.le-lt_trans (nought - pnl) nought limit)

    loss_passed :
        (now : F) (db : Database F) (balance margin : Option F) (cb : CircuitBreaker F)
        → cb.tripped ≡ false
        → (check_account_health now db balance margin cb).1 ≡ false
        → loss_exceeded cb.global_config.account_daily_loss_limit_usdt
            (get_pnl_summary (since_timestamp now cb) none db).total_net_pnl
          ≡ false
    unfolding check_account_health
    loss_passed now db balance margin cb h e = ground arith

    -- A health check of an untripped breaker that lets trading go on, with a loss limit set: the net loss
    -- of the fills since the start of the UTC day, or since the last reset if that is later, is below
    -- the limit.
    pub check_account_health_loss :
        (now : F) (db : Database F) (balance margin : Option F) (cb : CircuitBreaker F)
        → cb.tripped ≡ false
        → nought ≺ cb.global_config.account_daily_loss_limit_usdt
        → (check_account_health now db balance margin cb).1 ≡ false
        → nought - (get_pnl_summary (since_timestamp now cb) none db).total_net_pnl
          ≺ cb.global_config.account_daily_loss_limit_usdt
    check_account_health_loss now db balance margin cb h l e =
        loss_within _ _ l (loss_passed now db balance margin cb h e)

    -- The same check, with a positive balance and maintenance margin: their ratio is not below the kill
    -- threshold.
    pub check_account_health_margin :
        (now : F) (db : Database F) (balance margin : F) (cb : CircuitBreaker F)
        → cb.tripped ≡ false
        → nought ≺ balance
        → nought ≺ margin
        → (check_account_health now db (some balance) (some margin) cb).1 ≡ false
        → cb.global_config.kill_margin_ratio ≼ balance / margin
    unfolding check_account_health check_margin roll_day
    check_account_health_margin now db balance margin cb h pb pm e = ground arith

    -- A pair that passes its own check, with a limit set, has lost less than the limit in the window.
    pub check_pair_loss_passed :
        (now : F) (db : Database F) (config : PairConfig F) (cb : CircuitBreaker F)
        → nought ≺ config.daily_loss_limit_usdt
        → (check_pair_loss now db config cb).0 ≡ false
        → nought - (get_pnl_summary (since_timestamp now cb) (some config.symbol) db).total_net_pnl
          ≺ config.daily_loss_limit_usdt
    unfolding check_pair_loss
    check_pair_loss_passed now db config cb l e = loss_within _ _ l (ground arith)

    summary_after_reset :
        (now at : F) (symbol : Option String) (r : FillRecord F) (db : Database F)
        (cb : CircuitBreaker F)
        → r.timestamp ≺ at
        → get_pnl_summary
            (since_timestamp now (reset at cb))
            symbol
            (record db { fills = r ∷ db.fills })
          ≡ get_pnl_summary (since_timestamp now (reset at cb)) symbol db
    unfolding since_timestamp reset
    summary_after_reset now at symbol r db cb h =
        get_pnl_summary_older (max (utc_day_start now) at) symbol r db (
          Order.lt-le_trans r.timestamp at (max (utc_day_start now) at) h
            (Order.le-max_right (utc_day_start now) at))

    -- A reset forgets: a fill from before the time of the reset, put first in the database, changes neither the
    -- breaker nor the answer of a health check of the account, nor that of a check of a pair, after the reset and
    -- at whatever time.
    pub reset_forgets :
        (now at : F) (r : FillRecord F) (db : Database F) (balance margin : Option F)
        (config : PairConfig F) (cb : CircuitBreaker F)
        → r.timestamp ≺ at
        → let more = record db { fills = r ∷ db.fills } in
          (check_account_health now more balance margin (reset at cb)
            ≡ check_account_health now db balance margin (reset at cb))
          × (check_pair_loss now more config (reset at cb)
              ≡ check_pair_loss now db config (reset at cb))
    unfolding check_account_health check_pair_loss
    reset_forgets now at r db balance margin config cb h = (
      rw (summary_after_reset now at none r db cb h) refl,
      rw (summary_after_reset now at (some config.symbol) r db cb h) refl,
    )
