-- ===== src/Database.antt =====
-- app/persistence/db.py: the query that sums the realized PnL. The fills table is a list in insertion
-- order, and SQLite's SUM adds its rows in that order; `connected` is `_conn is not None`.
pub mod Sums
use text.Mathlib.Text.{◌==◌ as str_eq}
use pmm_simple.Prelude.{
  Bool, Option, none, some, List, [], ◌∷◌, String, ◌&&◌, ◌||◌, not, is_nonempty, if◌then◌else◌,
}
use pmm_simple.Float.{Float, ◌+◌, ◌-◌, nought, le}
use pmm_simple.Models.State.{FillRecord}

pub record Database (F : Type 0) : Type 0 where
  pub connected : Bool
  pub fills : List (FillRecord F)

pub record PnlSummary (F : Type 0) : Type 0 where
  pub total_realized_pnl : F
  pub total_fee : F
  pub total_net_pnl : F

module _ {F : Type 0} ⦃f : Float F⦄ where
  -- The WHERE clause.
  pub is_selected : F → Option String → FillRecord F → Bool
  is_selected since none r = le since r.timestamp
  is_selected since (some symbol) r =
      le since r.timestamp && (not (is_nonempty symbol) || str_eq r.symbol symbol)

  pub sum_selected : (FillRecord F → F) → F → Option String → List (FillRecord F) → F → F
  sum_selected column since symbol [] total = total
  sum_selected column since symbol (r ∷ rs) total =
      sum_selected column since symbol rs
        (if is_selected since symbol r then total + column r else total)

  unfoldable pub get_pnl_summary : F → Option String → Database F → PnlSummary F
  unfolding is_selected sum_selected
  get_pnl_summary since symbol db =
      let pnl = sum_selected (λ r. r.realized_pnl) since symbol db.fills nought in
      let fee = sum_selected (λ r. r.fee) since symbol db.fills nought in
      if db.connected
      then record { total_realized_pnl = pnl; total_fee = fee; total_net_pnl = pnl - fee }
      else record { total_realized_pnl = nought; total_fee = nought; total_net_pnl = nought }
