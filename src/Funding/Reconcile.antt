-- ===== src/Funding/Reconcile.antt =====
-- app/core/fr_execution/position_tracker.py: the reconciliation with the positions that the exchanges list, the
-- positions that are active, and the summary.
pub mod Absent
use pmm_simple.Prelude.{
  ℕ, Bool, true, false, ◌&&◌, ◌||◌, Option, none, some, List, [], ◌∷◌, map, length, codes, ◌==◌,
  if◌then◌else◌,
}
use pmm_simple.Float.{Float, ◌+◌, ◌*◌, ◌/◌, nought, lit, lt, le, abs}
use pmm_simple.Models.State.{PositionSide, long, short, is_long}
use pmm_simple.Funding.Names.{Name, name_eq, upper, canon}
use pmm_simple.Funding.Legs.{
  DualLegPosition, PairStatus, flat, opening, opened, closing, recalculate,
}
use pmm_simple.Funding.Gateway.{ExchangePosition}
use pmm_simple.Funding.PairTracker.{FrPositionTracker, get_or_create_position, update_leg}

abbrev pub or_text : Name → Option Name → Name
or_text d none = d
or_text d (some s) = s

-- `status in ("OPEN", "OPENING", "CLOSING")`
abbrev pub is_busy : PairStatus → Bool
is_busy flat = false
is_busy opening = true
is_busy opened = true
is_busy closing = true

pub record FrSummaryMetrics (F : Type 0) : Type 0 where
  pub total_realized_funding_pnl : F
  pub net_arbitrage_apr : F
  pub active_arb_pairs : ℕ
  pub binance_free_margin : F
  pub bybit_free_margin : F
  pub total_equity_usdt : F
  pub last_reconciled_at : F

module _ {F : Type 0} ⦃f : Float F⦄ where
  -- The side of a Binance position: a text that is neither LONG nor SHORT leaves it to the sign.
  unfoldable pub binance_side : ExchangePosition F → PositionSide
  unfolding name_eq upper
  binance_side raw =
      let text = upper (or_text (codes "BOTH") raw.side) in
      if name_eq text (codes "LONG")
      then long
      else if name_eq text (codes "SHORT")
      then short
      else if le nought raw.contracts
      then long
      else short

  -- The side of a Bybit position: by its index, or else by its text.
  unfoldable pub bybit_side : ExchangePosition F → PositionSide
  unfolding name_eq upper
  bybit_side raw =
      if raw.position_idx == 1
      then long
      else if raw.position_idx == 2
      then short
      else if name_eq (upper (or_text [] raw.side)) (codes "BUY")
      then long
      else short

  -- One listed position: it is written into the leg of its side if that leg is on its exchange.
  unfoldable pub reconcile_position :
      F → Name → PositionSide → ExchangePosition F → FrPositionTracker F → FrPositionTracker F
  unfolding canon get_or_create_position update_leg name_eq
  reconcile_position now exchange side raw t =
      let key = canon raw.symbol in
      let (t', p) = get_or_create_position now key (codes "binance") (codes "bybit") t in
      let leg = if is_long side then p.long_leg else p.short_leg in
      let written =
        (update_leg now key exchange side (abs raw.contracts) raw.entry_price raw.mark_price
          raw.unrealized_pnl nought raw.leverage t').0 in
      if name_eq key [] then t else if name_eq leg.exchange exchange then written else t'

  unfoldable pub reconcile_all :
      F
      → Name
      → (ExchangePosition F → PositionSide)
      → List (ExchangePosition F)
      → FrPositionTracker F
      → FrPositionTracker F
  unfolding reconcile_position
  reconcile_all now exchange side_of [] t = t
  reconcile_all now exchange side_of (raw ∷ raws) t =
      reconcile_all now exchange side_of raws (reconcile_position now exchange (side_of raw) raw t)

  unfoldable pub recalculate_all :
      F → List (Name × DualLegPosition F) → List (Name × DualLegPosition F)
  unfolding recalculate
  recalculate_all now [] = []
  recalculate_all now ((k, p) ∷ ps) = (k, recalculate now p) ∷ recalculate_all now ps

  unfoldable pub reconcile_with_exchange_positions :
      F
      → List (ExchangePosition F)
      → List (ExchangePosition F)
      → FrPositionTracker F
      → FrPositionTracker F
  unfolding reconcile_all recalculate_all binance_side bybit_side
  reconcile_with_exchange_positions now binance bybit t =
      let t1 =
        reconcile_all now (codes "binance") binance_side binance
          (record t { last_reconciled_at = now }) in
      let t2 = reconcile_all now (codes "bybit") bybit_side bybit t1 in
      record t2 { positions = recalculate_all now t2.positions }

  unfoldable pub is_engaged : DualLegPosition F → Bool
  is_engaged p = lt nought p.long_leg.size || (lt nought p.short_leg.size || is_busy p.status)

  unfoldable pub select_active : List (Name × DualLegPosition F) → List (DualLegPosition F)
  unfolding is_engaged
  select_active [] = []
  select_active ((k, p) ∷ ps) =
      let rest = select_active ps in if is_engaged p then p ∷ rest else rest

  -- `get_all_positions`, and `get_active_positions`: every position is recalculated first.
  unfoldable pub get_all_positions :
      F → FrPositionTracker F → FrPositionTracker F × List (DualLegPosition F)
  unfolding recalculate_all
  get_all_positions now t =
      let ps = recalculate_all now t.positions in (record t { positions = ps }, map (λ e. e.1) ps)

  unfoldable pub get_active_positions :
      F → FrPositionTracker F → FrPositionTracker F × List (DualLegPosition F)
  unfolding recalculate_all select_active
  get_active_positions now t =
      let ps = recalculate_all now t.positions in (record t { positions = ps }, select_active ps)

  abbrev pub add_pnl : F → List (DualLegPosition F) → F
  add_pnl acc [] = acc
  add_pnl acc (p ∷ ps) = add_pnl (acc + (p.total_funding_accrued + p.net_upnl)) ps

  abbrev pub add_notional : F → List (DualLegPosition F) → F
  add_notional acc [] = acc
  add_notional acc (p ∷ ps) = add_notional (acc + (p.long_leg.notional + p.short_leg.notional)) ps

  unfoldable pub get_summary_metrics :
      F → F → F → FrPositionTracker F → FrPositionTracker F × FrSummaryMetrics F
  unfolding get_active_positions
  get_summary_metrics now binance_free bybit_free t =
      let (t', active) = get_active_positions now t in
      let pnl = add_pnl t'.realized_funding_pnl active in
      let notional = add_notional nought active in
      (
        t',
        record {
          total_realized_funding_pnl = f.round t'.realized_funding_pnl 4;
          net_arbitrage_apr =
              if lt nought notional && lt nought pnl
              then f.round (((pnl / notional) * lit 365 0) * lit 100 0) 2
              else nought;
          active_arb_pairs = length active;
          binance_free_margin = f.round binance_free 2;
          bybit_free_margin = f.round bybit_free 2;
          total_equity_usdt = f.round (binance_free + bybit_free) 2;
          last_reconciled_at = t'.last_reconciled_at;
        },
      )
