-- ===== src/Funding/KillAll.antt =====
-- app/core/fr_execution/kill_switch.py: `emergency_kill_all` of the funding-rate engine, over the gateway of
-- app/core/fr_execution/gateway.py. The times in the report are left out.
pub mod Exits
pub mod Blind
pub mod Latch
use pmm_simple.Prelude.{
  ℕ, zero, suc, Bool, ◌&&◌, Option, none, some, List, [], ◌∷◌, codes, starts_with, length, ◌-◌,
  ◌==◌, if◌then◌else◌,
}
use pmm_simple.Float.{Float, nought, lt, abs}
use pmm_simple.Models.State.{PositionSide, long, short}
use pmm_simple.Funding.Names.{Name, name_eq, upper}
use pmm_simple.Funding.KillSwitch.{trip_global}
use pmm_simple.Funding.Gateway.{ExchangePosition, MultiExchangeGateway}
use pmm_simple.Funding.Orders.{close_order}
use pmm_simple.Funding.Sizes.{is_some}
use pmm_simple.Funding.Reconcile.{or_text, reconcile_with_exchange_positions}
use pmm_simple.Funding.Engine.{EngineState}

-- `s.replace(p, "")`: the count is what is left of an occurrence.
unfoldable pub remove_text : Name → ℕ → Name → Name
unfolding starts_with
remove_text p n [] = []
remove_text p zero (c ∷ s) =
    let found = starts_with p (c ∷ s) in
    let rest = remove_text p (if found then length p - 1 else 0) s in
    if found then rest else c ∷ rest
remove_text p (suc n) (c ∷ s) = remove_text p n s

-- `symbol.replace("/", "").replace(":USDT", "").upper()`
unfoldable pub exit_symbol : Name → Name
unfolding remove_text upper
exit_symbol s = upper (remove_text (codes ":USDT") 0 (remove_text (codes "/") 0 s))

-- The side that the gateway's assertion lets through.
unfoldable pub named_leg : Name → Option PositionSide
unfolding name_eq upper
named_leg s =
    if name_eq (upper s) (codes "LONG")
    then some long
    else if name_eq (upper s) (codes "SHORT")
    then some short
    else none

-- An exit of the report: its result is whether the order was acknowledged.
pub record ExitRow (F : Type 0) : Type 0 where
  pub symbol : Name
  pub side : Name
  pub size : F
  pub res : Bool

-- A phase that closes: its rows, or the error that ended it.
pub data ClosePhase (F : Type 0) : Type 0 where
  close_results : List (ExitRow F) → ClosePhase F
  close_error : ClosePhase F

pub record KillAllReport (F : Type 0) : Type 0 where
  pub cancel_binance_orders : Bool
  pub cancel_bybit_orders : Bool
  pub close_binance_positions : ClosePhase F
  pub close_bybit_positions : ClosePhase F
  pub binance_remaining_positions : ℕ
  pub bybit_remaining_positions : ℕ
  pub is_flat : Bool
  pub is_completed : Bool

module _ {F : Type 0} ⦃f : Float F⦄ where
  unfoldable pub binance_exit_side : ExchangePosition F → Name
  unfolding upper
  binance_exit_side raw = upper (or_text (codes "LONG") raw.side)

  unfoldable pub bybit_exit_side : ExchangePosition F → Name
  bybit_exit_side raw = if raw.position_idx == 2 then codes "SHORT" else codes "LONG"

  unfoldable pub has_size : ExchangePosition F → Bool
  has_size raw = lt nought (abs raw.contracts)

  unfoldable pub count_held : List (ExchangePosition F) → ℕ
  unfolding has_size
  count_held [] = 0
  count_held (raw ∷ raws) = let rest = count_held raws in if has_size raw then suc rest else rest

  abbrev pub add_row : ExitRow F → ClosePhase F → ClosePhase F
  add_row r (close_results rs) = close_results (r ∷ rs)
  add_row r close_error = close_error

module _ {W F : Type 0} ⦃f : Float F⦄ where
  -- `fetch_positions` of the gateway: a failure is an empty list.
  unfoldable pub fetch_listed : MultiExchangeGateway W F → Name → W → W × List (ExchangePosition F)
  fetch_listed g exchange w =
      let (w', raws) = g.fetch_all_positions exchange w in
      (w', elim raws [ none ↦ [] | some xs ↦ xs ])

  -- `emergency_market_close`: `none` where the assertion on the side fails.
  unfoldable pub emergency_market_close :
      MultiExchangeGateway W F → Name → Name → Name → F → W → W × Option Bool
  unfolding named_leg
  emergency_market_close g exchange symbol side amount w = elim (named_leg side) [
    | none ↦ (w, none)
    | some leg ↦
        let (w', res) = g.create_hedge_order (close_order exchange symbol leg amount) w in
        (w', some (is_some res))
  ]

  -- Phases 4 and 5: an error leaves the other positions open.
  unfoldable pub close_listed :
      MultiExchangeGateway W F
      → Name
      → (ExchangePosition F → Name)
      → List (ExchangePosition F)
      → W
      → W × ClosePhase F
  unfolding emergency_market_close has_size exit_symbol name_eq
  close_listed g exchange side_of [] w = (w, close_results [])
  close_listed g exchange side_of (raw ∷ raws) w =
      let symbol = exit_symbol raw.symbol in
      let side = side_of raw in
      let size = abs raw.contracts in
      let (w', res) = emergency_market_close g exchange symbol side size w in
      let skipped = close_listed g exchange side_of raws w in
      let exited : W × ClosePhase F = elim res [
        | none ↦ (w', close_error)
        | some ok ↦
            let (w2, rows) = close_listed g exchange side_of raws w' in
            (w2, add_row (record { symbol = symbol; side = side; size = size; res = ok }) rows)
      ] in
      if has_size raw then (if name_eq symbol [] then skipped else exited) else skipped

  -- Phases 2 to 5, on the exchanges alone.
  unfoldable pub close_out_exchange :
      MultiExchangeGateway W F → Name → (ExchangePosition F → Name) → W → W × ClosePhase F
  unfolding fetch_listed close_listed
  close_out_exchange g exchange side_of w =
      let (w', raws) = fetch_listed g exchange w in close_listed g exchange side_of raws w'

  -- Phase 6, and the report.
  unfoldable pub reconcile_and_report :
      MultiExchangeGateway W F
      → F
      → Bool
      → Bool
      → ClosePhase F
      → ClosePhase F
      → EngineState W F
      → EngineState W F × KillAllReport F
  unfolding fetch_listed count_held reconcile_with_exchange_positions
  reconcile_and_report g now cancelled_binance cancelled_bybit closed_binance closed_bybit s =
      let (w1, binance) = fetch_listed g (codes "binance") s.world in
      let (w2, bybit) = fetch_listed g (codes "bybit") w1 in
      let flat = count_held binance == 0 && count_held bybit == 0 in
      (
        record s {
          world = w2;
          tracker = reconcile_with_exchange_positions now binance bybit s.tracker;
        },
        record {
          cancel_binance_orders = cancelled_binance;
          cancel_bybit_orders = cancelled_bybit;
          close_binance_positions = closed_binance;
          close_bybit_positions = closed_bybit;
          binance_remaining_positions = count_held binance;
          bybit_remaining_positions = count_held bybit;
          is_flat = flat;
          is_completed = flat;
        },
      )

  unfoldable pub emergency_kill_exchanges :
      MultiExchangeGateway W F → F → EngineState W F → EngineState W F × KillAllReport F
  unfolding trip_global close_out_exchange reconcile_and_report binance_exit_side bybit_exit_side
  emergency_kill_exchanges g now s =
      let (w1, cancelled_binance) = g.cancel_everything (codes "binance") s.world in
      let (w2, cancelled_bybit) = g.cancel_everything (codes "bybit") w1 in
      let (w3, closed_binance) = close_out_exchange g (codes "binance") binance_exit_side w2 in
      let (w4, closed_bybit) = close_out_exchange g (codes "bybit") bybit_exit_side w3 in
      reconcile_and_report g now cancelled_binance cancelled_bybit closed_binance closed_bybit
        (record s { world = w4; kill_switch = trip_global s.kill_switch })
