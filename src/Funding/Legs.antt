-- ===== src/Funding/Legs.antt =====
-- app/core/fr_execution/models.py: policies, legs and positions with two legs.
use pmm_simple.Prelude.{ℕ, Bool, true, false, ◌&&◌, Option, if◌then◌else◌}
use pmm_simple.Float.{Float, ◌+◌, ◌-◌, ◌/◌, nought, lit, lt}
use pmm_simple.Models.State.{PositionSide}
use pmm_simple.Funding.Names.{Name}

pub data FrAction : Type 0 where
  act_open act_hold act_reduce act_exit act_pause : FrAction

-- The fields of `FRPolicy` that the engine reads.
pub record FrPolicy (F : Type 0) : Type 0 where
  pub symbol : Name
  pub exchange_long : Name
  pub exchange_short : Name
  pub action : FrAction
  pub target_notional_usdt : F
  pub reduce_to_notional_usdt : Option F
  pub max_leverage : ℕ

pub record FrRiskConfig (F : Type 0) : Type 0 where
  pub max_loss_usd : F

pub record LegPositionState (F : Type 0) : Type 0 where
  pub exchange : Name
  pub symbol : Name
  pub position_side : PositionSide
  pub entry_price : F
  pub mark_price : F
  pub size : F
  pub notional : F
  pub unrealized_pnl : F
  pub funding_accrued : F
  pub leverage : ℕ
  pub entry_time : F
  pub last_updated : F

-- FLAT, OPENING, OPEN and CLOSING.
pub data PairStatus : Type 0 where
  flat opening opened closing : PairStatus

-- `status in ("OPEN", "OPENING")`
abbrev pub is_live : PairStatus → Bool
is_live opening = true
is_live opened = true
is_live flat = false
is_live closing = false

pub record DualLegPosition (F : Type 0) : Type 0 where
  pub symbol : Name
  pub long_leg : LegPositionState F
  pub short_leg : LegPositionState F
  pub net_upnl : F
  pub total_funding_accrued : F
  pub net_pnl : F
  pub holding_duration_hours : F
  pub is_paused : Bool
  pub status : PairStatus
  pub last_policy_action : Option FrAction
  pub created_at : F
  pub updated_at : F

module _ {F : Type 0} ⦃f : Float F⦄ where
  unfoldable pub recalculate : F → DualLegPosition F → DualLegPosition F
  recalculate now p =
      let upnl = f.round (p.long_leg.unrealized_pnl + p.short_leg.unrealized_pnl) 4 in
      let funding = f.round (p.long_leg.funding_accrued + p.short_leg.funding_accrued) 4 in
      record p {
        net_upnl = upnl;
        total_funding_accrued = funding;
        net_pnl = f.round (upnl + funding) 4;
        holding_duration_hours =
            if lt nought p.created_at && is_live p.status
            then f.round ((now - p.created_at) / lit 3600 0) 2
            else nought;
      }
